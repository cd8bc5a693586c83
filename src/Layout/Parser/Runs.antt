-- ===== src/Layout/Parser/Runs.antt =====
-- The loop of `PatternParser::parse` ends, and how it goes on from one character to the next.
use mathlib.Core.Path.{subst}
use log4cplus.Common.{
  ℕ, zero, suc, ◌≤◌, ◌≡◌, refl, ap, ◌∙◌, Bool, Option, some, [], ◌∷◌, Text, codes, length, ℤ, ◌==◌,
  Bool-cases, Option-cases, inl, inr, arith,
}
use log4cplus.Layout.Parser.{
  Parser, literal_state, converter_state, dot_state, min_state, max_state, extract_option,
  extract_precision_option, make_converter, finalize_converter, literal_step, converter_step,
  min_step, dot_step, max_step, step_in, add_literal, step, ParserState, parse_loop,
}
use log4cplus.Property.{cut_at}
use log4cplus.Property.Cuts.{length-cut_at}

extract_option-le : (rest : Text) → length (extract_option rest).1 ≤ length rest
unfolding extract_option
extract_option-le [] = omega arith
extract_option-le (c ∷ rest) = elim (Bool-cases (c == b'{')) [
  | inr e ↦ ground (arith, e)
  | inl e ↦ elim (Option-cases (cut_at (codes "}") rest)) [
    | inl f ↦ ground (arith, e, f)
    | inr ((r, tail), f) ↦ ground (arith, e, f, length-cut_at b'}' [] rest r tail f)
  ]
]

module _ (atoi : Text → ℤ) (get_hostname : Bool → Option Text) where
  make_converter-le :
      (p : Parser) (c : ℕ) (rest : Text)
      → length (make_converter atoi get_hostname p c rest).1 ≤ length rest
  unfolding make_converter extract_precision_option
  make_converter-le p c rest = ground (arith, extract_option-le rest)

  finalize_converter-le :
      (p : Parser) (c : ℕ) (rest : Text)
      → length (finalize_converter atoi get_hostname p c rest).1 ≤ length rest
  unfolding finalize_converter
  finalize_converter-le p c rest = make_converter-le p c rest

  literal_step-le :
      (p : Parser) (c : ℕ) (rest : Text) → length (literal_step p c rest).1 ≤ length rest
  unfolding literal_step
  literal_step-le p c [] = omega arith
  literal_step-le p c (d ∷ rest) = ground arith

  converter_step-le :
      (p : Parser) (c : ℕ) (rest : Text)
      → length (converter_step atoi get_hostname p c rest).1 ≤ length rest
  unfolding converter_step
  converter_step-le p c rest = ground (arith, finalize_converter-le p c rest)

  min_step-le :
      (p : Parser) (c : ℕ) (rest : Text)
      → length (min_step atoi get_hostname p c rest).1 ≤ length rest
  unfolding min_step
  min_step-le p c rest = ground (arith, finalize_converter-le p c rest)

  dot_step-le : (p : Parser) (c : ℕ) (rest : Text) → length (dot_step p c rest).1 ≤ length rest
  unfolding dot_step
  dot_step-le p c rest = ground arith

  max_step-le :
      (p : Parser) (c : ℕ) (rest : Text)
      → length (max_step atoi get_hostname p c rest).1 ≤ length rest
  unfolding max_step
  max_step-le p c rest = ground (arith, finalize_converter-le p c rest)

  step_in-le :
      (st : ParserState) (p : Parser) (c : ℕ) (rest : Text)
      → length (step_in atoi get_hostname st p c rest).1 ≤ length rest
  unfolding step_in
  step_in-le literal_state p c rest = literal_step-le p c rest
  step_in-le converter_state p c rest = converter_step-le (add_literal c p) c rest
  step_in-le dot_state p c rest = dot_step-le (add_literal c p) c rest
  step_in-le min_state p c rest = min_step-le (add_literal c p) c rest
  step_in-le max_state p c rest = max_step-le (add_literal c p) c rest

  -- No round gives characters back.
  step-le :
      (p : Parser) (c : ℕ) (rest : Text) → length (step atoi get_hostname p c rest).1 ≤ length rest
  unfolding step
  step-le p c rest = step_in-le p.state p c rest

  -- More fuel than characters changes nothing.
  parse_loop-fuel :
      (fuel fuel' : ℕ) (p : Parser) (s : Text)
      → length s ≤ fuel
      → length s ≤ fuel'
      → parse_loop atoi get_hostname fuel p s ≡ parse_loop atoi get_hostname fuel' p s
  unfolding parse_loop
  parse_loop-fuel zero zero p s h h' = refl
  parse_loop-fuel zero (suc fuel') p [] h h' = refl
  parse_loop-fuel zero (suc fuel') p (c ∷ s) h h' = absurd (omega arith)
  parse_loop-fuel (suc fuel) zero p [] h h' = refl
  parse_loop-fuel (suc fuel) zero p (c ∷ s) h h' = absurd (omega arith)
  parse_loop-fuel (suc fuel) (suc fuel') p [] h h' = refl
  parse_loop-fuel (suc fuel) (suc fuel') p (c ∷ s) h h' =
      let shorter = step-le p c s in
      parse_loop-fuel fuel fuel' (step atoi get_hostname p c s).0 (step atoi get_hostname p c s).1
        (omega (arith, shorter, h)) (omega (arith, shorter, h'))

  -- The loop with as much fuel as there are characters.
  abbrev pub run : Parser → Text → Option Parser
  run p s = parse_loop atoi get_hostname (length s) p s

  pub run-step :
      (p p' : Parser) (c : ℕ) (rest rest' : Text)
      → step atoi get_hostname p c rest ≡ (p', rest')
      → run p (c ∷ rest) ≡ run p' rest'
  unfolding parse_loop
  run-step p p' c rest rest' e =
      let shorter : length rest' ≤ length rest =
        subst (λ r. length r.1 ≤ length rest) e (step-le p c rest) in
      ap (λ r. parse_loop atoi get_hostname (length rest) r.0 r.1) e
      ∙ (parse_loop-fuel (length rest) (length rest') p' rest' shorter (omega arith))

  -- The loop ends when it has as much fuel as there are characters.
  pub parse_loop-ends :
      (fuel : ℕ) (p : Parser) (s : Text)
      → length s ≤ fuel
      → (p' : Parser) × (parse_loop atoi get_hostname fuel p s ≡ some p')
  unfolding parse_loop
  parse_loop-ends zero p [] h = (p, refl)
  parse_loop-ends (suc fuel) p [] h = (p, refl)
  parse_loop-ends zero p (c ∷ s) h = absurd (omega arith)
  parse_loop-ends (suc fuel) p (c ∷ s) h =
      parse_loop-ends fuel (step atoi get_hostname p c s).0 (step atoi get_hostname p c s).1
        (omega (arith, step-le p c s, h))
