-- ===== src/Schedule.antt =====
-- src/fileappender.cxx: the schedules of the appenders that roll over by time, and when the next
-- rollover is due.
--
-- localtime and mktime are the C library's. `mktime` gives `none` for its error value -1. It finds
-- out about daylight saving time itself, since `tm_isdst` is -1. Points in time are below 2 ^ 53
-- seconds, which a double holds exactly.
pub mod Next
use log4cplus.Common.{
  ℕ, zero, suc, ◌+◌, ◌-◌, ◌*◌, ◌/◌, ◌%◌, Option, none, some, Bool, true, false, ltb, if◌then◌else◌,
}
use log4cplus.TimeHelper.{Tm, from_time_t, to_time_t, truncate_fractions}

pub data DailyRollingFileSchedule : Type 0 where
  monthly weekly daily twice_daily hourly minutely : DailyRollingFileSchedule

-- `seconds (60 * 60)` and the like, as a time.
abbrev pub seconds : ℕ → ℕ
seconds n = n * 1000000

unfoldable pub round_time : ℕ → ℕ → ℕ
round_time time secs = from_time_t (to_time_t time - to_time_t time % secs)

unfoldable pub round_time_and_add : ℕ → ℕ → ℕ
unfolding round_time
round_time_and_add time secs = round_time time secs + seconds secs

abbrev pub at_midnight : Tm → Tm
at_midnight next = record next { tm_hour = 0; tm_min = 0; tm_sec = 0 }

-- The broken down time that is asked for; there is none for MINUTELY.
unfoldable pub next_tm : DailyRollingFileSchedule → Tm → Tm
next_tm monthly next = at_midnight (record next { tm_mon = next.tm_mon + 1; tm_mday = 1 })
next_tm weekly next = at_midnight (record next { tm_mday = next.tm_mday + (7 - next.tm_wday + 1) })
next_tm daily next = at_midnight (record next { tm_mday = next.tm_mday + 1 })
next_tm twice_daily next = record next {
  tm_hour = if ltb next.tm_hour 12 then 12 else 24;
  tm_min = 0;
  tm_sec = 0;
}
next_tm hourly next = record next { tm_hour = next.tm_hour + 1; tm_min = 0; tm_sec = 0 }
next_tm minutely next = next

-- The point in time that is taken if mktime fails.
unfoldable pub fallback : DailyRollingFileSchedule → ℕ → ℕ
unfolding round_time
fallback monthly time = round_time time 86400 + seconds 2678400
fallback weekly time = round_time time 86400 + seconds 604800
fallback daily time = round_time time 3600 + seconds 86400
fallback twice_daily time = round_time time 3600 + seconds 43200
fallback hourly time = round_time time 3600 + seconds 3600
fallback minutely time = time

-- `from_struct_tm`, with its exception caught.
abbrev pub from_struct_tm : (Tm → Option ℕ) → Tm → ℕ → ℕ
from_struct_tm mktime tm otherwise = elim (mktime tm) [ some s ↦ from_time_t s | none ↦ otherwise ]

-- `calculateNextRolloverTime`, with the fractions truncated as both appenders do.
module _ (local_time : ℕ → Tm) (mktime : Tm → Option ℕ) where
  unfoldable pub calculate : ℕ → DailyRollingFileSchedule → ℕ
  unfolding next_tm fallback round_time_and_add
  calculate time minutely = round_time_and_add time 60
  calculate time schedule =
      from_struct_tm mktime (next_tm schedule (local_time (to_time_t time)))
        (fallback schedule time)

  unfoldable pub calculate_next_rollover_time : DailyRollingFileSchedule → ℕ → ℕ
  unfolding calculate
  calculate_next_rollover_time schedule time = truncate_fractions (calculate time schedule)
