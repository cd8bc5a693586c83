-- ===== src/TimeBased/Patterns/Names.antt =====
-- What the translation of a file name pattern gives for its pieces.
use mathlib.Core.List.{append_assoc, append-nil}
use log4cplus.Common.{
  ℕ, zero, suc, ◌≤◌, ◌≡◌, ◌≢◌, refl, ap, ◌∙◌, Bool, false, some, List, [], ◌∷◌, ◌++◌, Text, All,
  codes, text_eq, length, length-append, take, ◌==◌, arith,
}
use log4cplus.Schedule.{DailyRollingFileSchedule}
use log4cplus.TimeBased.Patterns.{
  preprocess_date_time_pattern, closing_bracket, name_loop, preprocess_filename_pattern,
}

-- A character, a date pattern in brackets, or `%d` alone.
pub data Piece : Type 0 where
  plain : ℕ → Piece
  date : Text → Piece
  default : Piece

unfoldable pub spell : List Piece → Text
spell [] = []
spell (plain c ∷ ps) = c ∷ spell ps
spell (date inner ∷ ps) = codes "%d{" ++ (inner ++ (b'}' ∷ spell ps))
spell (default ∷ ps) = codes "%d" ++ spell ps

abbrev pub starts_bracket : List Piece → Bool
starts_bracket [] = false
starts_bracket (plain c ∷ ps) = c == b'{'
starts_bracket (date inner ∷ ps) = false
starts_bracket (default ∷ ps) = false

-- A plain character is no percent sign, a date pattern has no closing bracket in it, and `%d` alone
-- is not followed by a bracket.
abbrev pub IsSpelled : List Piece → Type 0
IsSpelled [] = Unit {0}
IsSpelled (plain c ∷ ps) = (c ≢ b'%') × IsSpelled ps
IsSpelled (date inner ∷ ps) = All (λ c. c ≢ b'}') inner × IsSpelled ps
IsSpelled (default ∷ ps) = (starts_bracket ps ≡ false) × IsSpelled ps

-- The translation piece by piece, from left to right; each date pattern sees the schedule that the
-- one before it left.
unfoldable pub translate : List Piece → DailyRollingFileSchedule → Text × DailyRollingFileSchedule
translate [] schedule = ([], schedule)
translate (plain c ∷ ps) schedule =
    let (text, schedule') = translate ps schedule in (c ∷ text, schedule')
translate (date inner ∷ ps) schedule =
    let (text, schedule') = preprocess_date_time_pattern inner schedule in
    let (text', schedule'') = translate ps schedule' in (text ++ text', schedule'')
translate (default ∷ ps) schedule =
    let (text, schedule') = preprocess_date_time_pattern (codes "yyyy-MM-dd") schedule in
    let (text', schedule'') = translate ps schedule' in (text ++ text', schedule'')

closing_bracket-append :
    (inner rest : Text)
    → All (λ c. c ≢ b'}') inner
    → closing_bracket (inner ++ (b'}' ∷ rest)) ≡ some (inner, rest)
unfolding closing_bracket
closing_bracket-append [] rest h = refl
closing_bracket-append (c ∷ inner) rest (other, h) =
    ground (arith, other, closing_bracket-append inner rest h)

no_bracket :
    (ps : List Piece) → starts_bracket ps ≡ false → text_eq (take 1 (spell ps)) (codes "{") ≡ false
unfolding spell text_eq
no_bracket [] h = refl
no_bracket (plain c ∷ ps) h = ground (arith, h)
no_bracket (date inner ∷ ps) h = refl
no_bracket (default ∷ ps) h = refl

name_loop-bracket :
    (fuel : ℕ) (inner rest : Text) (schedule : DailyRollingFileSchedule) (result : Text)
    → All (λ c. c ≢ b'}') inner
    → name_loop (suc fuel) (codes "%d{" ++ (inner ++ (b'}' ∷ rest))) schedule result
      ≡ name_loop fuel rest
          (preprocess_date_time_pattern inner schedule).1
          (result ++ (preprocess_date_time_pattern inner schedule).0)
unfolding name_loop text_eq
name_loop-bracket fuel inner rest schedule result h =
    rw (closing_bracket-append inner rest h, name_loop) refl

name_loop-default :
    (fuel : ℕ) (ps : List Piece) (schedule : DailyRollingFileSchedule) (result : Text)
    → starts_bracket ps ≡ false
    → name_loop (suc fuel) (codes "%d" ++ spell ps) schedule result
      ≡ name_loop fuel
          (spell ps)
          (preprocess_date_time_pattern (codes "yyyy-MM-dd") schedule).1
          (result ++ (preprocess_date_time_pattern (codes "yyyy-MM-dd") schedule).0)
unfolding name_loop text_eq
name_loop-default fuel ps schedule result h = rw (no_bracket ps h, name_loop) refl

name_loop-plain :
    (fuel c : ℕ) (s : Text) (schedule : DailyRollingFileSchedule) (result : Text)
    → c ≢ b'%'
    → name_loop (suc fuel) (c ∷ s) schedule result ≡ name_loop fuel s schedule (result ++ (c ∷ []))
unfolding name_loop
name_loop-plain fuel c s schedule result h = ground (arith, h)

name_loop-spell :
    (fuel : ℕ) (ps : List Piece) (schedule : DailyRollingFileSchedule) (result : Text)
    → length (spell ps) ≤ fuel
    → IsSpelled ps
    → name_loop fuel (spell ps) schedule result
      ≡ (result ++ (translate ps schedule).0, (translate ps schedule).1)
unfolding spell translate
name_loop-spell zero [] schedule result f h = unfold name_loop in rw (append-nil result) refl
name_loop-spell (suc fuel) [] schedule result f h = unfold name_loop in rw (append-nil result) refl
name_loop-spell zero (plain c ∷ ps) schedule result f h = absurd (omega (arith, f))
name_loop-spell zero (date inner ∷ ps) schedule result f h = absurd (omega (arith, f))
name_loop-spell zero (default ∷ ps) schedule result f h = absurd (omega (arith, f))
name_loop-spell (suc fuel) (plain c ∷ ps) schedule result f (other, h) =
    let rest = translate ps schedule in
    name_loop-plain fuel c (spell ps) schedule result other
    ∙ (name_loop-spell fuel ps schedule (result ++ (c ∷ [])) (omega (arith, f)) h
        ∙ ap (λ t. (t, rest.1)) (append_assoc result (c ∷ []) rest.0))
name_loop-spell (suc fuel) (date inner ∷ ps) schedule result f (open', h) =
    let (text, schedule') = preprocess_date_time_pattern inner schedule in
    let rest = translate ps schedule' in
    let size = length-append inner (b'}' ∷ spell ps) in
    name_loop-bracket fuel inner (spell ps) schedule result open'
    ∙ (name_loop-spell fuel ps schedule' (result ++ text) (omega (arith, f, size)) h
        ∙ ap (λ t. (t, rest.1)) (append_assoc result text rest.0))
name_loop-spell (suc fuel) (default ∷ ps) schedule result f (other, h) =
    let (text, schedule') = preprocess_date_time_pattern (codes "yyyy-MM-dd") schedule in
    let rest = translate ps schedule' in
    name_loop-default fuel ps schedule result other
    ∙ (name_loop-spell fuel ps schedule' (result ++ text) (omega (arith, f)) h
        ∙ ap (λ t. (t, rest.1)) (append_assoc result text rest.0))

-- A file name pattern of plain characters, of date patterns in brackets and of `%d` alone is
-- translated piece by piece; the schedule is the last one that a date pattern chose.
pub preprocess_filename_pattern-spell :
    (ps : List Piece) (schedule : DailyRollingFileSchedule)
    → IsSpelled ps
    → preprocess_filename_pattern (spell ps) schedule ≡ translate ps schedule
unfolding preprocess_filename_pattern
preprocess_filename_pattern-spell ps schedule h =
    name_loop-spell (length (spell ps)) ps schedule [] (omega arith) h
