-- ===== src/Tests/Files.antt =====
-- Schedules, rollovers by time and reopened files.
use log4cplus.Common.{
  ℕ, zero, suc, ◌+◌, ◌-◌, ◌*◌, ◌/◌, ◌%◌, ◌≤◌, ◌<◌, ◌≡◌, ◌≢◌, ◌∙◌, inr, refl, ap, true, false,
  Option, none, some, [], ◌∷◌, ◌++◌, Text, codes, text_eq, map, replicate, leb, ◌==◌, if◌then◌else◌,
  arith,
}
use log4cplus.TimeHelper.{Tm, to_time_t}
use log4cplus.Schedule.{weekly, daily, hourly, seconds, calculate_next_rollover_time}
use log4cplus.Schedule.Next.{
  IsSteady, second_of_day, period, calculate_next_rollover_time-due, weekly_lem,
}
use log4cplus.FileAppender.{Disk}
use log4cplus.FileAppender.Reopening.{written_events, written_events-delay}
use log4cplus.FileAppender.Shift.{IsDistinct, series}
use log4cplus.Daily.{Daily, rollover}
use log4cplus.Daily.Rollovers.{rollover-series}
use log4cplus.TimeBased.{TimeBased, clean, get_rollover_period_duration, periods}
use log4cplus.TimeBased.History.{clean-history}

-- Universal time, with months of 30 days that are counted from the epoch on.
abbrev utc : ℕ → Tm
utc s = record {
  tm_sec = s % 60;
  tm_min = s / 60 % 60;
  tm_hour = s / 3600 % 24;
  tm_mday = s / 86400 % 30 + 1;
  tm_mon = s / 86400 / 30;
  tm_year = 0;
  tm_wday = (s / 86400 + 4) % 7;
}

abbrev of_utc : Tm → Option ℕ
of_utc tm = some (
    ((tm.tm_year * 12 + tm.tm_mon) * 30 + tm.tm_mday - 1) * 86400
    + tm.tm_hour * 3600
    + tm.tm_min * 60
    + tm.tm_sec)

utc-IsSteady : IsSteady (λ m. m * 30) 0 4 utc of_utc
utc-IsSteady = record {
  month = λ m. (omega arith, omega arith);
  hour_below = λ s. omega arith;
  min_below = λ s. omega arith;
  sec_below = λ s. omega arith;
  mday_above = λ s. omega arith;
  mday_below = λ s. omega arith;
  local = λ s. omega arith;
  weekday = λ s. omega arith;
  made = λ tm. inr (ap some (omega arith));
}

-- 18 January 1970 was a Sunday.
calculate_next_rollover_time-due_example :
    (seconds (17 * 86400) < calculate_next_rollover_time utc of_utc weekly (seconds (17 * 86400)))
    × (calculate_next_rollover_time utc of_utc weekly (seconds (17 * 86400))
        ≤ seconds (17 * 86400) + seconds (period weekly))
calculate_next_rollover_time-due_example =
    calculate_next_rollover_time-due utc-IsSteady weekly (seconds (17 * 86400))

weekly_lem_example :
    ((utc
        (to_time_t (calculate_next_rollover_time utc of_utc weekly (seconds (17 * 86400))))).tm_wday
      ≡ 1)
    × (second_of_day
          (utc (to_time_t (calculate_next_rollover_time utc of_utc weekly (seconds (17 * 86400)))))
        ≡ 0)
    × (seconds (17 * 86400) < calculate_next_rollover_time utc of_utc weekly (seconds (17 * 86400)))
    × (((utc (seconds (17 * 86400) / 1000000)).tm_wday ≢ 0)
        → calculate_next_rollover_time utc of_utc weekly (seconds (17 * 86400))
          ≤ seconds (17 * 86400) + seconds 604800)
    × (((utc (seconds (17 * 86400) / 1000000)).tm_wday ≡ 0)
        → seconds (17 * 86400) + seconds 604800
          < calculate_next_rollover_time utc of_utc weekly (seconds (17 * 86400)))
weekly_lem_example = weekly_lem utc-IsSteady (seconds (17 * 86400)) (λ e. cc)

-- The rollover that follows that Sunday is on 26 January.
sunday_runs :
    calculate_next_rollover_time utc of_utc weekly (seconds (17 * 86400)) ≡ seconds (25 * 86400)
unfolding calculate_next_rollover_time
sunday_runs = refl

written_events-delay_example :
    written_events 5
      (1000000 ∷ 2000000 ∷ 6000000 ∷ 7000000 ∷ [])
      (record { good = false; reopen_time = 0 })
    ≡ map (leb (1000000 + 5 * 1000000)) (1000000 ∷ 2000000 ∷ 6000000 ∷ 7000000 ∷ [])
written_events-delay_example =
    written_events-delay 5 1000000 (2000000 ∷ 6000000 ∷ 7000000 ∷ [])
      (record { good = false; reopen_time = 0 }) refl refl (omega arith) (omega arith)

-- Numbers as strokes.
abbrev strokes : ℕ → Text
strokes n = replicate n b'i'

strokes-IsDistinct : IsDistinct strokes
unfolding text_eq
strokes-IsDistinct zero zero = refl
strokes-IsDistinct zero (suc b) = ground arith
strokes-IsDistinct (suc a) zero = ground arith
strokes-IsDistinct (suc a) (suc b) = strokes-IsDistinct a b ∙ ground arith

abbrev day_log : Daily
day_log = record {
  filename = codes "log";
  schedule = daily;
  scheduled_filename = codes "log" ++ (codes "." ++ codes "monday");
  next_rollover_time = 9000000;
  max_backup_index = 2;
  roll_on_close = true;
  date_pattern = [];
  reopen_delay = 1;
  out = record { good = true; reopen_time = 0 };
  closed = false;
}

abbrev day_disk : Disk
day_disk = λ k.
    if text_eq k (codes "log")
    then some (codes "new")
    else if text_eq k (codes "log.monday")
    then some (codes "old")
    else none

abbrev no_format : Text → Tm → Text
no_format fmt tm = fmt

rollover-series_example :
    ((rollover strokes no_format 0 utc of_utc 5 true (day_log, day_disk)).1
        (series strokes day_log.scheduled_filename 1)
      ≡ (if (◌==◌ 1 0)
          then day_disk (codes "log")
          else if leb 1 2
          then day_disk (series strokes day_log.scheduled_filename (1 - 1))
          else day_disk (series strokes day_log.scheduled_filename 1)))
    × ((rollover strokes no_format 0 utc of_utc 5 true (day_log, day_disk)).1 (codes "log")
        ≡ (if true then some [] else none))
rollover-series_example =
    rollover-series strokes strokes-IsDistinct 1 day_log (codes "monday") refl refl day_disk
      no_format 0 utc of_utc 5 true 1

-- An hourly appender that keeps two files, between 10:05 and 12:06.
abbrev hour_log : TimeBased
hour_log = record {
  filename = codes "log";
  filename_pattern = codes "%H";
  schedule = hourly;
  scheduled_filename = codes "10";
  max_history = 2;
  clean_history_on_start = false;
  last_heart_beat = seconds (10 * 3600 + 300);
  next_rollover_time = seconds (11 * 3600);
  roll_on_close = true;
  out = record { good = true; reopen_time = 0 };
  closed = false;
}

-- Half an hour east of universal time.
abbrev half_hour : ℕ
half_hour = seconds 1800

abbrev hour_name : ℕ → Option Text
hour_name time = some (strokes ((time + half_hour) / 3600000000))

-- The files of the hours 8, 9 and 10 are there; two of them are in the history of hour 10.
abbrev hour_disk : Disk
hour_disk k =
    if text_eq k (strokes 8)
    then some (codes "eight")
    else if text_eq k (strokes 9)
    then some (codes "nine")
    else if text_eq k (strokes 10)
    then some (codes "ten")
    else none

hour_disk-old :
    (q : ℕ)
    → q + 2 < (seconds (10 * 3600 + 300) + half_hour) / 3600000000
    → hour_disk (strokes q) ≡ none
hour_disk-old q h =
    ground (arith, h, strokes-IsDistinct q 8, strokes-IsDistinct q 9, strokes-IsDistinct q 10)

clean-history_example :
    (clean hour_name (seconds (12 * 3600 + 360)) (hour_log, hour_disk)).0.1 (strokes 9) ≡ none
clean-history_example =
    clean-history hour_name strokes half_hour hour_log hour_disk (seconds (12 * 3600 + 360))
      (unfold get_rollover_period_duration in omega arith)
      (unfold get_rollover_period_duration in λ time. refl) strokes-IsDistinct (λ e. cc)
      (unfold get_rollover_period_duration in omega arith) (unfold periods in omega arith)
      (unfold get_rollover_period_duration in omega arith)
      (unfold get_rollover_period_duration in hour_disk-old) 9
      (unfold get_rollover_period_duration in omega arith)
