-- ===== src/Layout/Parser/Patterns/WidthRuns.antt =====
-- What the parser reads as the width of a field.
use mathlib.Core.List.{append_assoc}
use log4cplus.Common.{
  ℕ, ◌+◌, ◌-◌, ◌*◌, ◌^◌, ◌%◌, ◌<◌, ◌≡◌, refl, ap, ◌∙◌, Bool, true, false, Option, none, some, List,
  [], ◌∷◌, ◌++◌, Text, ℤ, pos, negsuc, ◌==◌, if◌then◌else◌, arith,
}
use log4cplus.Layout.{FormattingInfo, reset}
use log4cplus.Layout.Converter.{Converter}
use log4cplus.Layout.Parser.{
  Parser, ParserState, literal_state, converter_state, dot_state, min_state, max_state, is_digit,
  make_converter, finalize_converter, converter_step, min_step, dot_step, max_step, step_in, step,
}
use log4cplus.Layout.Parser.Patterns.{at, widths, Digits}
use log4cplus.Layout.Parser.Runs.{run, run-step}
use log4cplus.StringHelper.Decimal.{value_of}
use log4cplus.Layout.Parser.Patterns.Widths.{
  value_of-le, min_digit, finishes, is_letter, MaxLength, render_max, max_length_of, trim_of,
  IsMaxLength, first_digit, min_length_of, FieldWidth, IsFieldWidth, render_width, info_of_width,
  dots, dots-finishes,
}

module _ (atoi : Text → ℤ) (get_hostname : Bool → Option Text) (depth : ℕ)
    (list : List Converter) where
  dot_step_lem :
      (st : ParserState) (m : ℤ) (l : Bool) (lit s : Text)
      → dots st ≡ true
      → step atoi get_hostname (at depth st (widths m (2 ^ 64 - 1) l true) list lit) b'.' s
        ≡ (at depth dot_state (widths m (2 ^ 64 - 1) l true) list (lit ++ (b'.' ∷ [])), s)
  unfolding step step_in converter_step min_step
  dot_step_lem literal_state m l lit s d = cc
  dot_step_lem converter_state m l lit s d = refl
  dot_step_lem dot_state m l lit s d = cc
  dot_step_lem min_state m l lit s d = refl
  dot_step_lem max_state m l lit s d = cc

  dot_digit_step :
      (m : ℤ) (l t : Bool) (lit : Text) (d : ℕ) (s : Text)
      → is_digit d ≡ true
      → step atoi get_hostname (at depth dot_state (widths m (2 ^ 64 - 1) l t) list lit) d s
        ≡ (at depth max_state (widths m (d - b'0') l t) list (lit ++ (d ∷ [])), s)
  unfolding step step_in dot_step
  dot_digit_step m l t lit d s g =
      let other : (d == b'-') ≡ false = ground (arith, g) in rw (other, g) refl

  dot_minus_step :
      (m : ℤ) (l : Bool) (lit s : Text)
      → step atoi get_hostname (at depth dot_state (widths m (2 ^ 64 - 1) l true) list lit) b'-' s
        ≡ (at depth dot_state (widths m (2 ^ 64 - 1) l false) list (lit ++ (b'-' ∷ [])), s)
  unfolding step step_in dot_step
  dot_minus_step m l lit s = refl

  first_digit_step :
      (l : Bool) (lit : Text) (d : ℕ) (s : Text)
      → is_digit d ≡ true
      → step atoi get_hostname
          (at depth converter_state (widths (negsuc 0) (2 ^ 64 - 1) l true) list lit)
          d
          s
        ≡ (
          at depth min_state (widths (pos (d - b'0')) (2 ^ 64 - 1) l true) list (lit ++ (d ∷ [])),
          s,
        )
  unfolding step step_in converter_step
  first_digit_step l lit d s g =
      let minus : (d == b'-') ≡ false = ground (arith, g) in
      let dot : (d == b'.') ≡ false = ground (arith, g) in rw (minus, dot, g) refl

  left_step :
      (lit s : Text)
      → step atoi get_hostname (at depth converter_state reset list lit) b'-' s ≡ (
        at depth converter_state
            (widths (negsuc 0) (2 ^ 64 - 1) true true)
            list
            (lit ++ (b'-' ∷ [])),
        s,
      )
  unfolding step step_in converter_step
  left_step lit s = refl

module _ (atoi : Text → ℤ) (get_hostname : Bool → Option Text) (depth : ℕ) (list : List Converter)
    (c : ℕ) (u rest : Text) (info : FormattingInfo) (pc : Converter) where
  -- The letter makes the converter with the widths that have been read.
  abbrev pub Makes : Type 0
  Makes =
      (st : ParserState) (lit : Text)
      → make_converter atoi get_hostname (at depth st info list lit) c u ≡ (pc, rest)

  abbrev pub finished : Option Parser
  finished = run atoi get_hostname (at depth literal_state reset (list ++ (pc ∷ [])) []) rest

  abbrev reading : ParserState → FormattingInfo → Text → Text → Option Parser
  reading st i lit s = run atoi get_hostname (at depth st i list lit) s

  final_step :
      (st : ParserState) (lit : Text)
      → finishes st ≡ true
      → is_letter c ≡ true
      → Makes
      → step atoi get_hostname (at depth st info list lit) c u
        ≡ (at depth literal_state reset (list ++ (pc ∷ [])) [], rest)
  unfolding step step_in converter_step min_step max_step finalize_converter
  final_step literal_state lit f l makes = cc
  final_step dot_state lit f l makes = cc
  final_step converter_state lit f l makes =
      ground (arith, l, makes converter_state (lit ++ (c ∷ [])))
  final_step min_state lit f l makes = ground (arith, l, makes min_state (lit ++ (c ∷ [])))
  final_step max_state lit f l makes = ground (arith, l, makes max_state (lit ++ (c ∷ [])))

  run-letter :
      (st : ParserState) (lit : Text)
      → finishes st ≡ true
      → is_letter c ≡ true
      → Makes
      → reading st info lit (c ∷ u) ≡ finished
  run-letter st lit f l makes =
      run-step atoi get_hostname (at depth st info list lit)
        (at depth literal_state reset (list ++ (pc ∷ [])) []) c u rest (final_step st lit f l makes)

  -- The digits of the maximum length.
  max_digit_step :
      (m : ℤ) (n : ℕ) (l t : Bool) (lit : Text) (d : ℕ) (s : Text)
      → is_digit d ≡ true
      → n * 10 + (d - b'0') < 2 ^ 64
      → step atoi get_hostname (at depth max_state (widths m n l t) list lit) d s
        ≡ (at depth max_state (widths m (n * 10 + (d - b'0')) l t) list (lit ++ (d ∷ [])), s)
  unfolding step step_in max_step
  max_digit_step m n l t lit d s g h =
      let small : (n * 10 + (d - b'0')) % 2 ^ 64 ≡ n * 10 + (d - b'0') = omega (arith, h) in
      rw (g, small) refl

  run-max_rest :
      (m : ℤ) (n : ℕ) (l t : Bool) (lit ds : Text)
      → Digits ds
      → value_of n ds < 2 ^ 64
      → is_letter c ≡ true
      → Makes
      → widths m (value_of n ds) l t ≡ info
      → reading max_state (widths m n l t) lit (ds ++ (c ∷ u)) ≡ finished
  unfolding value_of
  run-max_rest m n l t lit [] g h letter makes e =
      ap (λ i. reading max_state i lit (c ∷ u)) e ∙ run-letter max_state lit refl letter makes
  run-max_rest m n l t lit (d ∷ ds) (g, gs) h letter makes e =
      run-step atoi get_hostname (at depth max_state (widths m n l t) list lit)
        (at depth max_state (widths m (n * 10 + (d - b'0')) l t) list (lit ++ (d ∷ []))) d
        (ds ++ (c ∷ u)) (ds ++ (c ∷ u))
        (max_digit_step m n l t lit d (ds ++ (c ∷ u)) g
          (omega (arith, h, value_of-le (n * 10 + (d - b'0')) ds)))
      ∙ run-max_rest m (n * 10 + (d - b'0')) l t (lit ++ (d ∷ [])) ds gs h letter makes e

  -- The first digit behind the dot.
  run-max_first :
      (m : ℤ) (l t : Bool) (lit : Text) (d : ℕ) (ds : Text)
      → Digits (d ∷ ds)
      → value_of 0 (d ∷ ds) < 2 ^ 64
      → is_letter c ≡ true
      → Makes
      → widths m (value_of 0 (d ∷ ds)) l t ≡ info
      → reading dot_state (widths m (2 ^ 64 - 1) l t) lit ((d ∷ ds) ++ (c ∷ u)) ≡ finished
  unfolding value_of
  run-max_first m l t lit d ds (g, gs) h letter makes e =
      run-step atoi get_hostname (at depth dot_state (widths m (2 ^ 64 - 1) l t) list lit)
        (at depth max_state (widths m (d - b'0') l t) list (lit ++ (d ∷ []))) d (ds ++ (c ∷ u))
        (ds ++ (c ∷ u)) (dot_digit_step atoi get_hostname depth list m l t lit d (ds ++ (c ∷ u)) g)
      ∙ ap (λ n. reading max_state (widths m n l t) (lit ++ (d ∷ [])) (ds ++ (c ∷ u)))
          (first_digit (d - b'0'))
      ∙ run-max_rest m (0 * 10 + (d - b'0')) l t (lit ++ (d ∷ [])) ds gs h letter makes e

  -- The maximum length, if there is one.
  run-max :
      (m : ℤ) (l : Bool) (st : ParserState) (lit : Text) (mx : MaxLength)
      → dots st ≡ true
      → IsMaxLength mx
      → is_letter c ≡ true
      → Makes
      → widths m (max_length_of mx) l (trim_of mx) ≡ info
      → reading st (widths m (2 ^ 64 - 1) l true) lit (render_max mx ++ (c ∷ u)) ≡ finished
  unfolding render_max max_length_of
  run-max m l st lit none d i letter makes e =
      ap (λ i. reading st i lit (c ∷ u)) e ∙ run-letter st lit (dots-finishes st d) letter makes
  run-max m l st lit (some (false, x, ds)) d (g, h) letter makes e =
      run-step atoi get_hostname (at depth st (widths m (2 ^ 64 - 1) l true) list lit)
        (at depth dot_state (widths m (2 ^ 64 - 1) l true) list (lit ++ (b'.' ∷ []))) b'.'
        ((x ∷ ds) ++ (c ∷ u)) ((x ∷ ds) ++ (c ∷ u))
        (dot_step_lem atoi get_hostname depth list st m l lit ((x ∷ ds) ++ (c ∷ u)) d)
      ∙ run-max_first m l true (lit ++ (b'.' ∷ [])) x ds g h letter makes e
  run-max m l st lit (some (true, x, ds)) d (g, h) letter makes e =
      run-step atoi get_hostname (at depth st (widths m (2 ^ 64 - 1) l true) list lit)
        (at depth dot_state (widths m (2 ^ 64 - 1) l true) list (lit ++ (b'.' ∷ []))) b'.'
        (b'-' ∷ ((x ∷ ds) ++ (c ∷ u))) (b'-' ∷ ((x ∷ ds) ++ (c ∷ u)))
        (dot_step_lem atoi get_hostname depth list st m l lit (b'-' ∷ ((x ∷ ds) ++ (c ∷ u))) d)
      ∙ run-step atoi get_hostname
          (at depth dot_state (widths m (2 ^ 64 - 1) l true) list (lit ++ (b'.' ∷ [])))
          (at depth dot_state (widths m (2 ^ 64 - 1) l false) list
            ((lit ++ (b'.' ∷ [])) ++ (b'-' ∷ [])))
          b'-' ((x ∷ ds) ++ (c ∷ u)) ((x ∷ ds) ++ (c ∷ u))
          (dot_minus_step atoi get_hostname depth list m l (lit ++ (b'.' ∷ []))
            ((x ∷ ds) ++ (c ∷ u)))
      ∙ run-max_first m l false ((lit ++ (b'.' ∷ [])) ++ (b'-' ∷ [])) x ds g h letter makes e

  -- The digits of the minimum length.
  min_digit_step :
      (n x : ℕ) (l t : Bool) (lit : Text) (d : ℕ) (s : Text)
      → is_digit d ≡ true
      → n * 10 + (d - b'0') < 2 ^ 31
      → step atoi get_hostname (at depth min_state (widths (pos n) x l t) list lit) d s
        ≡ (at depth min_state (widths (pos (n * 10 + (d - b'0'))) x l t) list (lit ++ (d ∷ [])), s)
  unfolding step step_in min_step
  min_digit_step n x l t lit d s g h = rw (g, min_digit n (d - b'0') h) refl

  run-min_rest :
      (n : ℕ) (l : Bool) (lit ds : Text) (mx : MaxLength)
      → Digits ds
      → value_of n ds < 2 ^ 31
      → IsMaxLength mx
      → is_letter c ≡ true
      → Makes
      → widths (pos (value_of n ds)) (max_length_of mx) l (trim_of mx) ≡ info
      → reading min_state
          (widths (pos n) (2 ^ 64 - 1) l true)
          lit
          (ds ++ (render_max mx ++ (c ∷ u)))
        ≡ finished
  unfolding value_of
  run-min_rest n l lit [] mx g h i letter makes e =
      run-max (pos n) l min_state lit mx refl i letter makes e
  run-min_rest n l lit (d ∷ ds) mx (g, gs) h i letter makes e =
      let s = ds ++ (render_max mx ++ (c ∷ u)) in
      run-step atoi get_hostname (at depth min_state (widths (pos n) (2 ^ 64 - 1) l true) list lit)
        (at depth min_state (widths (pos (n * 10 + (d - b'0'))) (2 ^ 64 - 1) l true) list
          (lit ++ (d ∷ [])))
        d s s
        (min_digit_step n (2 ^ 64 - 1) l true lit d s g
          (omega (arith, h, value_of-le (n * 10 + (d - b'0')) ds)))
      ∙ run-min_rest (n * 10 + (d - b'0')) l (lit ++ (d ∷ [])) ds mx gs h i letter makes e

  -- The minimum length, if there is one.
  run-min :
      (l : Bool) (lit ds : Text) (mx : MaxLength)
      → Digits ds
      → value_of 0 ds < 2 ^ 31
      → IsMaxLength mx
      → is_letter c ≡ true
      → Makes
      → widths (min_length_of ds) (max_length_of mx) l (trim_of mx) ≡ info
      → reading converter_state
          (widths (negsuc 0) (2 ^ 64 - 1) l true)
          lit
          (ds ++ (render_max mx ++ (c ∷ u)))
        ≡ finished
  unfolding value_of min_length_of
  run-min l lit [] mx g h i letter makes e =
      run-max (negsuc 0) l converter_state lit mx refl i letter makes e
  run-min l lit (d ∷ ds) mx (g, gs) h i letter makes e =
      let s = ds ++ (render_max mx ++ (c ∷ u)) in
      run-step atoi get_hostname
        (at depth converter_state (widths (negsuc 0) (2 ^ 64 - 1) l true) list lit)
        (at depth min_state (widths (pos (d - b'0')) (2 ^ 64 - 1) l true) list (lit ++ (d ∷ []))) d
        s s (first_digit_step atoi get_hostname depth list l lit d s g)
      ∙ ap (λ n. reading min_state (widths (pos n) (2 ^ 64 - 1) l true) (lit ++ (d ∷ [])) s)
          (first_digit (d - b'0'))
      ∙ run-min_rest (0 * 10 + (d - b'0')) l (lit ++ (d ∷ [])) ds mx gs h i letter makes e

  run-aligned :
      (left : Bool) (lit ds : Text) (mx : MaxLength)
      → IsFieldWidth (record { left = left; min_digits = ds; maximum = mx })
      → is_letter c ≡ true
      → Makes
      → info_of_width (record { left = left; min_digits = ds; maximum = mx }) ≡ info
      → reading converter_state reset lit
          ((if left then b'-' ∷ [] else []) ++ (ds ++ (render_max mx ++ (c ∷ u))))
        ≡ finished
  run-aligned false lit ds mx (g, h, i) letter makes e =
      run-min false lit ds mx g h i letter makes e
  run-aligned true lit ds mx (g, h, i) letter makes e =
      let s = ds ++ (render_max mx ++ (c ∷ u)) in
      run-step atoi get_hostname (at depth converter_state reset list lit)
        (at depth converter_state (widths (negsuc 0) (2 ^ 64 - 1) true true) list
          (lit ++ (b'-' ∷ [])))
        b'-' s s (left_step atoi get_hostname depth list lit s)
      ∙ run-min true (lit ++ (b'-' ∷ [])) ds mx g h i letter makes e

  -- A width and a letter make the converter.
  pub run-width :
      (lit : Text) (w : FieldWidth)
      → IsFieldWidth w
      → is_letter c ≡ true
      → Makes
      → info_of_width w ≡ info
      → reading converter_state reset lit (render_width w ++ (c ∷ u)) ≡ finished
  unfolding render_width
  run-width lit w i letter makes e =
      let sign = if w.left then b'-' ∷ [] else [] in
      ap (λ s. reading converter_state reset lit s)
        (append_assoc sign (w.min_digits ++ render_max w.maximum) (c ∷ u)
          ∙ ap (λ s. sign ++ s) (append_assoc w.min_digits (render_max w.maximum) (c ∷ u)))
      ∙ run-aligned w.left lit w.min_digits w.maximum i letter makes e
