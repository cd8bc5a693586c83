-- ===== src/Tests/Formats.antt =====
-- Formatted times, file name patterns, escaped text and frames.
use log4cplus.Common.{
  ℕ, ◌+◌, ◌-◌, ◌/◌, ◌%◌, ◌≤◌, ◌≡◌, ◌≢◌, ◌||◌, refl, Bool, false, List, [], ◌∷◌, ◌++◌, Text, codes,
  length, text_eq, ltb, ◌==◌, if◌then◌else◌, arith,
}
use log4cplus.TimeHelper.{Tm, walk, get_formatted_time, failed, stuck, formatted}
use log4cplus.TimeHelper.Buffer.{get_formatted_time-ends, get_formatted_time_lem}
use log4cplus.Schedule.{monthly, daily, hourly}
use log4cplus.TimeBased.Patterns.{
  preprocess_date_time_pattern, preprocess_filename_pattern, aux_len,
}
use log4cplus.TimeBased.Patterns.Runs
use log4cplus.TimeBased.Patterns.Runs.{Run, meanings, finest_unit, preprocess-spell}
use log4cplus.TimeBased.Patterns.Fields.{schedule_at}
use log4cplus.TimeBased.Patterns.Names
use log4cplus.TimeBased.Patterns.Names.{
  Piece, plain, date, default, translate, preprocess_filename_pattern-spell,
}
use log4cplus.Log4jUdp.Escaping.{hex_value}
use log4cplus.Syslog.{framed}
use log4cplus.Syslog.Frames.{read_frame, read_frame-framed}

abbrev some_tm : Tm
some_tm = record {
  tm_sec = 0;
  tm_min = 0;
  tm_hour = 0;
  tm_mday = 1;
  tm_mon = 0;
  tm_year = 70;
  tm_wday = 4;
}

-- A C library whose %p is empty, as in many locales.
abbrev no_p : Text → Tm → Text
no_p fmt tm = if text_eq fmt (codes "%p") then [] else fmt

get_formatted_time-ends_example : get_formatted_time no_p 11 0 (codes "%p") 7042 some_tm ≢ stuck
get_formatted_time-ends_example = get_formatted_time-ends no_p 0 (codes "%p") 7042 some_tm

get_formatted_time_lem_example :
    ((no_p (walk 7042 false (codes "%p") []) some_tm ≡ [])
      → get_formatted_time no_p 11 0 (codes "%p") 7042 some_tm ≡ failed)
    × ((d : ℕ) (text : Text)
        → no_p (walk 7042 false (codes "%p") []) some_tm ≡ d ∷ text
        → length (d ∷ text) ≤ 512
        → get_formatted_time no_p 11 0 (codes "%p") 7042 some_tm ≡ formatted (d ∷ text))
get_formatted_time_lem_example =
    get_formatted_time_lem no_p 0 b'%' (codes "p") 7042 some_tm (λ e. omega (arith, e))

-- The pattern yyyy-MM-dd.
abbrev day_runs : List Run
day_runs =
    record { letter = b'y'; more = 3 }
    ∷ record { letter = b'-'; more = 0 }
    ∷ record { letter = b'M'; more = 1 }
    ∷ record { letter = b'-'; more = 0 }
    ∷ record { letter = b'd'; more = 1 }
    ∷ []

preprocess-spell_example :
    preprocess_date_time_pattern (Runs.spell day_runs) monthly
    ≡ (meanings day_runs, schedule_at (finest_unit day_runs))
unfolding text_eq
preprocess-spell_example =
    preprocess-spell day_runs monthly (unfold aux_len in unfold Runs.spell in refl)
      (unfold Runs.spell in omega arith)

day_pattern_runs :
    preprocess_date_time_pattern (codes "yyyy-MM-dd") monthly ≡ (codes "%Y-%m-%d", daily)
unfolding preprocess_date_time_pattern text_eq
day_pattern_runs = refl

-- The pattern log-%d{yyyy-MM-dd_HH}%d.
abbrev name_pieces : List Piece
name_pieces = plain b'l' ∷ plain b'-' ∷ date (codes "yyyy-MM-dd_HH") ∷ default ∷ []

preprocess_filename_pattern-spell_example :
    preprocess_filename_pattern (Names.spell name_pieces) hourly ≡ translate name_pieces hourly
preprocess_filename_pattern-spell_example =
    preprocess_filename_pattern-spell name_pieces hourly
      (omega arith, (omega arith, (omega arith, (refl, tt))))

abbrev hex_digit : ℕ → ℕ
hex_digit d = if ltb d 10 then b'0' + d else b'a' + (d - 10)

abbrev two_hex : ℕ → Text
two_hex c = hex_digit (c / 16) ∷ hex_digit (c % 16) ∷ []

abbrev ascii_control : ℕ → Bool
ascii_control c = ltb c 32 || c == 127

hex_checked : ℕ → Bool
unfolding hex_value
hex_checked c = hex_value 0 (two_hex c) == c

read_frame-framed_example :
    read_frame 0 (framed (codes "<14>1 x") ++ codes "9 ") ≡ (codes "<14>1 x", codes "9 ")
read_frame-framed_example = read_frame-framed (codes "<14>1 x") (codes "9 ") (omega arith)
