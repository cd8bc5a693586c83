-- ===== src/TimeBased/Patterns/Runs.antt =====
-- What the translation of a date pattern gives for its runs of equal characters.
use mathlib.Core.List.{append_assoc, append-nil}
use mathlib.Core.Path.{ap₂}
use log4cplus.Common.{
  ℕ, zero, suc, ◌+◌, ◌-◌, ◌≤◌, ◌≡◌, ◌≢◌, refl, ap, false, ◌∙◌, List, [], ◌∷◌, ◌++◌, Text, length,
  drop, replicate, max, length-append, length-replicate, arith,
}
use log4cplus.Schedule.{DailyRollingFileSchedule}
use log4cplus.TimeBased.Patterns.Fields.{
  fields, meaning, unit_of, schedule_at, found, conversion-meaning, finest-found, mark-found,
}
use log4cplus.TimeBased.Patterns.{
  aux_len, Units, no_units, conversion, mark, finest, run_length, taken, date_loop,
  preprocess_date_time_pattern,
}

-- A character and how often it stands there, less one.
pub record Run : Type 0 where
  pub letter : ℕ
  pub more : ℕ

unfoldable pub spell : List Run → Text
spell [] = []
spell (r ∷ rs) = replicate (suc r.more) r.letter ++ spell rs

unfoldable pub conversions : List Run → Text
conversions [] = []
conversions (r ∷ rs) = conversion r.letter (suc r.more) ++ conversions rs

unfoldable pub marks : List Run → Units → Units
marks [] units = units
marks (r ∷ rs) units = marks rs (mark r.letter (suc r.more) units)

-- A text does not start with c.
abbrev pub StartsOther : ℕ → Text → Type 0
StartsOther c [] = Unit {0}
StartsOther c (x ∷ s) = x ≢ c

-- Every run ends where the next one, or the text behind them, starts.
abbrev pub IsApart : List Run → Text → Type 0
IsApart [] behind = Unit {0}
IsApart (r ∷ rs) behind = StartsOther r.letter (spell rs ++ behind) × IsApart rs behind

run_length-replicate :
    (c n : ℕ) (s : Text) → StartsOther c s → run_length c (replicate n c ++ s) ≡ n
unfolding run_length
run_length-replicate c zero [] h = refl
run_length-replicate c zero (x ∷ s) h = ground (arith, h)
run_length-replicate c (suc n) s h = ground (arith, run_length-replicate c n s h)

taken_lem :
    (c n : ℕ) (rest behind : Text)
    → StartsOther c (rest ++ behind)
    → taken (n + length rest) c (replicate n c ++ (rest ++ behind)) ≡ n
unfolding taken
taken_lem c n rest behind h = ground (
  arith,
  run_length-replicate c n (rest ++ behind) h,
  length-append (replicate n c) (rest ++ behind),
  length-append rest behind,
  length-replicate n c,
)

drop-replicate : (n c : ℕ) (s : Text) → drop n (replicate n c ++ s) ≡ s
drop-replicate zero c s = refl
drop-replicate (suc n) c s = drop-replicate n c s

-- One round, at a run and what follows it.
date_loop-run :
    (fuel c more : ℕ) (rest behind : Text) (units : Units) (result : Text)
    → StartsOther c (rest ++ behind)
    → date_loop
        (suc fuel)
        (length (replicate (suc more) c ++ rest))
        ((replicate (suc more) c ++ rest) ++ behind)
        units
        result
      ≡ date_loop fuel
          (length rest)
          (rest ++ behind)
          (mark c (suc more) units)
          (result ++ conversion c (suc more))
unfolding date_loop
date_loop-run fuel c more rest behind units result h =
    let whole = append_assoc (replicate (suc more) c) rest behind in
    let size : length (replicate (suc more) c ++ rest) ≡ suc more + length rest =
      omega (arith, length-append (replicate (suc more) c) rest, length-replicate (suc more) c) in
    let len : taken (length (replicate (suc more) c ++ rest)) c
          ((replicate (suc more) c ++ rest) ++ behind)
        ≡ suc more =
      ap₂ (λ n s. taken n c s) size whole ∙ taken_lem c (suc more) rest behind h in
    let left : length (replicate (suc more) c ++ rest) - suc more ≡ length rest =
      omega (arith, size) in
    let after : drop (suc more) ((replicate (suc more) c ++ rest) ++ behind) ≡ rest ++ behind =
      ap (drop (suc more)) whole ∙ drop-replicate (suc more) c (rest ++ behind) in
    ap
      (λ n.
        date_loop fuel (length (replicate (suc more) c ++ rest) - n)
          (drop n ((replicate (suc more) c ++ rest) ++ behind)) (mark c n units)
          (result ++ conversion c n))
      len
    ∙ ap₂ (λ n s. date_loop fuel n s (mark c (suc more) units) (result ++ conversion c (suc more)))
        left after

date_loop-spell :
    (fuel : ℕ) (rs : List Run) (behind : Text) (units : Units) (result : Text)
    → length (spell rs) ≤ fuel
    → IsApart rs behind
    → date_loop fuel (length (spell rs)) (spell rs ++ behind) units result
      ≡ (result ++ conversions rs, marks rs units)
unfolding date_loop spell conversions marks
date_loop-spell zero [] behind units result f h = rw (append-nil result) refl
date_loop-spell (suc fuel) [] behind units result f h = rw (append-nil result) refl
date_loop-spell zero (r ∷ rs) behind units result f h = absurd (omega (arith, f))
date_loop-spell (suc fuel) (r ∷ rs) behind units result f (other, apart) =
    let size = length-append (replicate r.more r.letter) (spell rs) in
    let units' = mark r.letter (suc r.more) units in
    let result' = result ++ conversion r.letter (suc r.more) in
    date_loop-run fuel r.letter r.more (spell rs) behind units result other
    ∙ (date_loop-spell fuel rs behind units' result' (omega (arith, f, size)) apart
        ∙ ap (λ t. (t, marks rs units'))
            (append_assoc result (conversion r.letter (suc r.more)) (conversions rs)))

-- What the runs mean by the table of fields, and the finest unit of time that is among them.
abbrev pub meanings : List Run → Text
meanings [] = []
meanings (r ∷ rs) = meaning fields false r.letter (suc r.more) ++ meanings rs

abbrev pub finest_unit : List Run → ℕ
finest_unit [] = 0
finest_unit (r ∷ rs) = max (unit_of fields r.letter (suc r.more)) (finest_unit rs)

conversions-meanings : (rs : List Run) → conversions rs ≡ meanings rs
unfolding conversions
conversions-meanings [] = refl
conversions-meanings (r ∷ rs) =
    ap₂ (λ s t. s ++ t) (conversion-meaning (suc r.more) r.letter) (conversions-meanings rs)

found-marks : (rs : List Run) (u : Units) → found (marks rs u) ≡ max (finest_unit rs) (found u)
unfolding marks
found-marks [] u = omega arith
found-marks (r ∷ rs) u =
    let rest = found-marks rs (mark r.letter (suc r.more) u) in
    rest ∙ (ap (max (finest_unit rs)) (mark-found (suc r.more) u r.letter) ∙ omega arith)

-- A date pattern of runs of equal characters, with no `aux` at its end, is translated run by run as
-- the table of fields says, and chooses the schedule of the finest unit of time that the table has
-- for one of its runs: minutes, hours, days or weeks, and otherwise months.
pub preprocess-spell :
    (rs : List Run) (schedule : DailyRollingFileSchedule)
    → aux_len (spell rs) ≡ 0
    → IsApart rs []
    → preprocess_date_time_pattern (spell rs) schedule ≡ (meanings rs, schedule_at (finest_unit rs))
unfolding preprocess_date_time_pattern
preprocess-spell rs schedule h apart =
    let same = date_loop-spell (length (spell rs)) rs [] no_units [] (omega arith) apart in
    let loop : date_loop (length (spell rs)) (length (spell rs)) (spell rs) no_units []
        ≡ (conversions rs, marks rs no_units) =
      rw (append-nil (spell rs)) at same in
    let left : length (spell rs) - aux_len (spell rs) ≡ length (spell rs) = omega (arith, h) in
    let unit : found (marks rs no_units) ≡ finest_unit rs = found-marks rs no_units ∙ omega arith in
    let chosen = finest-found (marks rs no_units) ∙ ap schedule_at unit in
    let translated : preprocess_date_time_pattern (spell rs) schedule
        ≡ (conversions rs, finest (marks rs no_units)) =
      ground (arith, h, left, loop) in
    translated ∙ ap₂ (λ s t. (s, t)) (conversions-meanings rs) chosen
