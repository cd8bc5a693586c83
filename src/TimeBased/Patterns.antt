-- ===== src/TimeBased/Patterns.antt =====
-- src/fileappender.cxx: the translation of the file name pattern of `TimeBasedRollingFileAppender`.
--
-- A position in a pattern is the rest of the pattern. The loops run on fuel, and as much fuel as the
-- pattern has characters is enough, since every round takes one or more.
pub mod Fields
pub mod Runs
pub mod Names
use log4cplus.Common.{
  ℕ, zero, suc, ◌+◌, ◌-◌, Bool, true, false, ◌&&◌, ◌||◌, Option, none, some, List, [], ◌∷◌, ◌++◌,
  Text, codes, text_eq, length, take, drop, leb, ltb, ◌==◌, if◌then◌else◌,
}
use log4cplus.Schedule.{DailyRollingFileSchedule, monthly, weekly, daily, hourly, minutely}

-- pattern.rfind (",")
unfoldable pub last_comma : Text → Option ℕ
last_comma [] = none
last_comma (c ∷ s) = elim (last_comma s) [
  | some i ↦ some (suc i)
  | none ↦ if c == b',' then some 0 else none
]

unfoldable pub all_spaces : Text → Bool
all_spaces [] = true
all_spaces (c ∷ s) = c == b' ' && all_spaces s

-- The length of the `aux` at the end of a pattern, with its comma and the spaces between.
unfoldable pub aux_len : Text → ℕ
unfolding last_comma all_spaces
aux_len pattern =
    if leb 4 (length pattern) && text_eq (drop (length pattern - 3) pattern) (codes "aux")
    then (elim (last_comma pattern) [
      | none ↦ 0
      | some comma_pos ↦
          let n = length pattern - 4 - comma_pos in
          if all_spaces (take n (drop (comma_pos + 1) pattern)) then 4 + n else 0
    ])
    else 0

-- The units of time that have been found.
pub record Units : Type 0 where
  pub has_week : Bool
  pub has_day : Bool
  pub has_hour : Bool
  pub has_minute : Bool

abbrev pub no_units : Units
no_units = record { has_week = false; has_day = false; has_hour = false; has_minute = false }

-- What is written for a run of `len` times the character c.
unfoldable pub conversion : ℕ → ℕ → Text
conversion c len =
    if c == b'y'
    then (if len == 2 then codes "%y" else if len == 4 then codes "%Y" else [])
    else if c == b'Y'
    then (if len == 2 then codes "%g" else if len == 4 then codes "%G" else [])
    else if c == b'M'
    then (if len == 2
        then codes "%m"
        else if len == 3
        then codes "%b"
        else if ltb 3 len
        then codes "%B"
        else [])
    else if c == b'w'
    then (if len == 2 then codes "%W" else [])
    else if c == b'D'
    then (if len == 3 then codes "%j" else [])
    else if c == b'd'
    then (if len == 2 then codes "%d" else [])
    else if c == b'E'
    then (if len == 3 then codes "%a" else if ltb 3 len then codes "%A" else [])
    else if c == b'u'
    then (if len == 1 then codes "%u" else [])
    else if c == b'a'
    then (if len == 2 then codes "%p" else [])
    else if c == b'H'
    then (if len == 2 then codes "%H" else [])
    else if c == b'h'
    then (if len == 2 then codes "%I" else [])
    else if c == b'm'
    then (if len == 2 then codes "%M" else [])
    else if c == b's'
    then (if len == 2 then codes "%S" else [])
    else if c == b'z'
    then (if len == 1 then codes "%Z" else [])
    else if c == b'Z'
    then (if len == 1 then codes "%z" else [])
    else c ∷ []

-- The units that such a run stands for.
unfoldable pub mark : ℕ → ℕ → Units → Units
mark c len units =
    if c == b'w' && len == 2
    then record units { has_week = true }
    else if (c == b'D' && len == 3)
        || (c == b'd' && len == 2)
        || (c == b'E' && leb 3 len)
        || (c == b'u' && len == 1)
    then record units { has_day = true }
    else if (c == b'H' && len == 2) || (c == b'h' && len == 2)
    then record units { has_hour = true }
    else if c == b'm' && len == 2
    then record units { has_minute = true }
    else units

unfoldable pub finest : Units → DailyRollingFileSchedule
finest units =
    if units.has_minute
    then minutely
    else if units.has_hour
    then hourly
    else if units.has_day
    then daily
    else if units.has_week
    then weekly
    else monthly

-- pattern.find_first_not_of (c, i) - i, or the length of the rest where there is none.
unfoldable pub run_length : ℕ → Text → ℕ
run_length c [] = 0
run_length c (x ∷ s) = let rest = suc (run_length c s) in if x == c then rest else 0

-- The length of the run at the front of s, of which `left` characters are before the `aux`.
unfoldable pub taken : ℕ → ℕ → Text → ℕ
unfolding run_length
taken left c s = if run_length c s == length s then left else run_length c s

-- The loop of `preprocessDateTimePattern`; `left` characters are left before the `aux`.
unfoldable pub date_loop : ℕ → ℕ → Text → Units → Text → Text × Units
unfolding conversion mark taken
date_loop zero left s units result = (result, units)
date_loop (suc fuel) zero s units result = (result, units)
date_loop (suc fuel) (suc left) [] units result = (result, units)
date_loop (suc fuel) (suc left) (c ∷ s) units result =
    let len = taken (suc left) c (c ∷ s) in
    date_loop fuel (suc left - len) (drop len (c ∷ s)) (mark c len units)
      (result ++ conversion c len)

unfoldable pub preprocess_date_time_pattern :
    Text → DailyRollingFileSchedule → Text × DailyRollingFileSchedule
unfolding aux_len date_loop finest
preprocess_date_time_pattern pattern schedule =
    let left = length pattern - aux_len pattern in
    let (result, units) = date_loop (length pattern) left pattern no_units [] in
    (result, if aux_len pattern == 0 then finest units else schedule)

-- The text up to the next closing bracket and the text behind it.
unfoldable pub closing_bracket : Text → Option (Text × Text)
closing_bracket [] = none
closing_bracket (c ∷ s) = elim (c == b'}') [
  | true ↦ some ([], s)
  | false ↦ elim (closing_bracket s) [ none ↦ none | some (inner, rest) ↦ some (c ∷ inner, rest) ]
]

-- The loop of `preprocessFilenamePattern`.
unfoldable pub name_loop :
    ℕ → Text → DailyRollingFileSchedule → Text → Text × DailyRollingFileSchedule
unfolding preprocess_date_time_pattern closing_bracket
name_loop zero s schedule result = (result, schedule)
name_loop (suc fuel) [] schedule result = (result, schedule)
name_loop (suc fuel) (c ∷ s) schedule result = elim (c == b'%' && text_eq (take 1 s) (codes "d")) [
  | true ↦ elim (text_eq (take 1 (drop 1 s)) (codes "{")) [
    | true ↦ elim (closing_bracket (drop 2 s)) [
      | none ↦ (result, schedule)
      | some (inner, rest) ↦
          let (text, schedule') = preprocess_date_time_pattern inner schedule in
          name_loop fuel rest schedule' (result ++ text)
    ]
    | false ↦
        let (text, schedule') = preprocess_date_time_pattern (codes "yyyy-MM-dd") schedule in
        name_loop fuel (drop 1 s) schedule' (result ++ text)
  ]
  | false ↦ name_loop fuel s schedule (result ++ (c ∷ []))
]

unfoldable pub preprocess_filename_pattern :
    Text → DailyRollingFileSchedule → Text × DailyRollingFileSchedule
unfolding name_loop
preprocess_filename_pattern pattern schedule = name_loop (length pattern) pattern schedule []
