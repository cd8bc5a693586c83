-- ===== src/Layout/Parser/Patterns/Pieces.antt =====
-- Whole patterns: what the parser makes of text and fields.
use mathlib.Core.List.{append_assoc}
use log4cplus.Common.{
  ℕ, ◌≤◌, ◌≡◌, refl, ap, ◌∙◌, Bool, true, false, not, Option, none, some, List, [], ◌∷◌, ◌++◌, Text,
  length, ℤ, ◌==◌, if◌then◌else◌, arith,
}
use log4cplus.Layout.{reset}
use log4cplus.Layout.Converter.{Converter}
use log4cplus.Layout.Parser.{Parser, literal_state, converter_state, flushed, parse, parse_loop}
use log4cplus.Layout.Parser.Patterns.{at, Digits}
use log4cplus.Layout.Parser.Patterns.Fields.{
  Field, letter, has_letter, option_of, render_option, IsOption, field_converter,
  make_converter-field, letter-is_letter, letter-percent,
}
use log4cplus.Layout.Parser.Patterns.Texts.{escaped, run-escaped, run-percent}
use log4cplus.Layout.Parser.Patterns.Widths.{
  MaxLength, render_max, FieldWidth, IsFieldWidth, render_width, info_of_width,
}
use log4cplus.Layout.Parser.Patterns.WidthRuns.{run-width}
use log4cplus.Layout.Parser.Runs.{run, parse_loop-ends}

-- The parts of a pattern: text, and fields with their widths.
pub data Piece : Type 0 where
  text : Text → Piece
  field : FieldWidth → Field → Piece

unfoldable pub render_pattern : List Piece → Text
unfolding escaped render_width letter option_of
render_pattern [] = []
render_pattern (text t ∷ pieces) = escaped t ++ render_pattern pieces
render_pattern (field w f ∷ pieces) =
    b'%' ∷ (render_width w ++ (letter f ∷ (render_option (option_of f) ++ render_pattern pieces)))

unfoldable pub IsPattern : List Piece → Type 0
unfolding render_pattern option_of
IsPattern [] = Unit
IsPattern (text t ∷ pieces) = IsPattern pieces
IsPattern (field w f ∷ pieces) =
    IsFieldWidth w
    × (has_letter f ≡ true)
    × IsOption (option_of f) (render_pattern pieces)
    × IsPattern pieces

-- The first character of a field is no percent sign.
abbrev starts_field : Text → Bool
starts_field [] = false
starts_field (d ∷ s) = not (d == b'%')

starts_field-max :
    (mx : MaxLength) (c : ℕ) (u : Text)
    → (c == b'%') ≡ false
    → starts_field (render_max mx ++ (c ∷ u)) ≡ true
unfolding render_max
starts_field-max none c u e = rw e refl
starts_field-max (some (cut_end, d, ds)) c u e = refl

starts_field-min :
    (ds : Text) (mx : MaxLength) (c : ℕ) (u : Text)
    → Digits ds
    → (c == b'%') ≡ false
    → starts_field ((ds ++ render_max mx) ++ (c ∷ u)) ≡ true
starts_field-min [] mx c u g e = starts_field-max mx c u e
starts_field-min (d ∷ ds) mx c u (g, gs) e = ground (arith, g)

starts_field-aligned :
    (left : Bool) (ds : Text) (mx : MaxLength) (c : ℕ) (u : Text)
    → Digits ds
    → (c == b'%') ≡ false
    → starts_field (((if left then b'-' ∷ [] else []) ++ (ds ++ render_max mx)) ++ (c ∷ u)) ≡ true
starts_field-aligned true ds mx c u g e = refl
starts_field-aligned false ds mx c u g e = starts_field-min ds mx c u g e

starts_field-width :
    (w : FieldWidth) (c : ℕ) (u : Text)
    → Digits w.min_digits
    → (c == b'%') ≡ false
    → starts_field (render_width w ++ (c ∷ u)) ≡ true
unfolding render_width
starts_field-width w c u g e = starts_field-aligned w.left w.min_digits w.maximum c u g e

module _ (atoi : Text → ℤ) (get_hostname : Bool → Option Text) (depth : ℕ) where
  -- The converters of a pattern behind a literal.
  unfoldable pub converters_of : Text → List Piece → List Converter
  unfolding field_converter
  converters_of lit [] = flushed lit
  converters_of lit (text t ∷ pieces) = converters_of (lit ++ t) pieces
  converters_of lit (field w f ∷ pieces) =
      flushed lit
      ++ (field_converter atoi get_hostname depth (info_of_width w) f ∷ converters_of [] pieces)

  -- What `parse` returns at the end.
  abbrev collected : Option Parser → Option (List Converter)
  collected none = none
  collected (some p) = some (p.converters ++ flushed p.current_literal)

  run-starts_field :
      (list : List Converter) (lit s : Text)
      → starts_field s ≡ true
      → run atoi get_hostname (at depth literal_state reset list lit) (b'%' ∷ s)
        ≡ run atoi get_hostname (at depth converter_state reset (list ++ flushed lit) (b'%' ∷ [])) s
  run-starts_field list lit [] e = cc
  run-starts_field list lit (d ∷ s) e =
      run-percent atoi get_hostname depth reset list lit d s (ground (arith, e))

  run-field :
      (list : List Converter) (lit : Text) (w : FieldWidth) (f : Field) (rest : Text)
      → IsFieldWidth w
      → has_letter f ≡ true
      → IsOption (option_of f) rest
      → run atoi get_hostname
          (at depth literal_state reset list lit)
          (b'%' ∷ (render_width w ++ (letter f ∷ (render_option (option_of f) ++ rest))))
        ≡ run atoi get_hostname
            (at depth literal_state reset
              ((list ++ flushed lit)
                ++ (field_converter atoi get_hostname depth (info_of_width w) f ∷ []))
              [])
            rest
  run-field list lit w f rest i h o =
      let u = render_option (option_of f) ++ rest in
      run-starts_field list lit (render_width w ++ (letter f ∷ u))
        (starts_field-width w (letter f) u i.0 (letter-percent f))
      ∙ run-width atoi get_hostname depth (list ++ flushed lit) (letter f) u rest (info_of_width w)
          (field_converter atoi get_hostname depth (info_of_width w) f) (b'%' ∷ []) w i
          (letter-is_letter f)
          (λ st l.
            make_converter-field atoi get_hostname depth (info_of_width w) (list ++ flushed lit) st
              l f rest h o)
          refl

  run-pattern :
      (list : List Converter) (lit : Text) (pieces : List Piece)
      → IsPattern pieces
      → collected
          (run atoi get_hostname (at depth literal_state reset list lit) (render_pattern pieces))
        ≡ some (list ++ converters_of lit pieces)
  unfolding render_pattern converters_of parse_loop IsPattern
  run-pattern list lit [] i = refl
  run-pattern list lit (text t ∷ pieces) i =
      ap collected (run-escaped atoi get_hostname depth reset list lit t (render_pattern pieces))
      ∙ run-pattern list (lit ++ t) pieces i
  run-pattern list lit (field w f ∷ pieces) (i, h, o, is) =
      let pc = field_converter atoi get_hostname depth (info_of_width w) f in
      ap collected (run-field list lit w f (render_pattern pieces) i h o)
      ∙ run-pattern ((list ++ flushed lit) ++ (pc ∷ [])) [] pieces is
      ∙ ap some (
          append_assoc (list ++ flushed lit) (pc ∷ []) (converters_of [] pieces)
          ∙ append_assoc list (flushed lit) (pc ∷ converters_of [] pieces))

-- The parser turns a pattern of text, its percent signs doubled, and fields, with any alignment,
-- minimum and maximum length and option, into a literal for each stretch of text and the converter
-- of each field with its widths. The digits of a minimum spell a number of an int and those of a
-- maximum one of 64 bits, and what follows a field without its option does not start with a brace.
-- A date field without an option has the format %Y-%m-%d %H:%M:%S, which is not the documented one.
pub parse-render_pattern :
    (atoi : Text → ℤ) (get_hostname : Bool → Option Text) (depth : ℕ) (pieces : List Piece)
    → IsPattern pieces
    → parse atoi get_hostname depth (render_pattern pieces) (length (render_pattern pieces))
      ≡ some (converters_of atoi get_hostname depth [] pieces)
unfolding parse
parse-render_pattern atoi get_hostname depth pieces i =
    run-pattern atoi get_hostname depth [] [] pieces i

-- The parser ends on every pattern, in no more rounds than the pattern has characters.
pub parse-ends :
    (atoi : Text → ℤ) (get_hostname : Bool → Option Text) (depth : ℕ) (pattern : Text) (fuel : ℕ)
    → length pattern ≤ fuel
    → (converters : List Converter) × (parse atoi get_hostname depth pattern fuel ≡ some converters)
unfolding parse
parse-ends atoi get_hostname depth pattern fuel h =
    let (p, e) =
      parse_loop-ends atoi get_hostname fuel (at depth literal_state reset [] []) pattern h in
    (p.converters ++ flushed p.current_literal, ap (collected atoi get_hostname depth) e)
