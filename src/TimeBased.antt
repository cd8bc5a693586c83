-- ===== src/TimeBased.antt =====
-- src/fileappender.cxx: `TimeBasedRollingFileAppender`.
--
-- The lock file is not used. The C library and the capacity of the thread's formatting buffer are
-- parameters. A point in time that would be before the epoch is taken as the epoch; `max_history` is
-- not negative. The clock is read where the code reads it: `now` is the time in a method.
pub mod Patterns
pub mod History
use log4cplus.Common.{
  ℕ, zero, suc, ◌+◌, ◌-◌, ◌*◌, ◌/◌, Bool, true, false, Option, none, some, List, [], ◌∷◌, ◌++◌,
  Text, text_eq, is_empty, leb, ◌==◌, if◌then◌else◌, not,
}
use log4cplus.TimeHelper.{Tm, to_time_t, Formatted, formatted, failed, stuck, get_formatted_time}
use log4cplus.Schedule.{
  DailyRollingFileSchedule, monthly, weekly, daily, twice_daily, hourly, minutely, seconds,
  calculate_next_rollover_time,
}
use log4cplus.FileAppender.{
  Disk, remove_path, rename_path, Stream, opened_truncated, opened_append, open_stream,
}

-- `getRolloverPeriodDuration`; TWICE_DAILY falls through to a day, after an error message.
unfoldable pub get_rollover_period_duration : DailyRollingFileSchedule → ℕ
get_rollover_period_duration monthly = seconds (31 * 24 * 3600)
get_rollover_period_duration weekly = seconds (7 * 24 * 3600)
get_rollover_period_duration daily = seconds (24 * 3600)
get_rollover_period_duration twice_daily = seconds (24 * 3600)
get_rollover_period_duration hourly = seconds 3600
get_rollover_period_duration minutely = seconds 60

pub record TimeBased : Type 0 where
  pub filename : Text
  pub filename_pattern : Text
  pub schedule : DailyRollingFileSchedule
  pub scheduled_filename : Text
  pub max_history : ℕ
  pub clean_history_on_start : Bool
  pub last_heart_beat : ℕ
  pub next_rollover_time : ℕ
  pub roll_on_close : Bool
  pub out : Stream
  pub closed : Bool

-- How many periods `clean` goes through; a last heart beat of 0 is `Time {}`.
unfoldable pub periods : TimeBased → ℕ → ℕ
unfolding get_rollover_period_duration
periods s time =
    let interval =
      if s.last_heart_beat == 0
      then seconds (31 * 24 * 3600)
      else time + seconds 1 - s.last_heart_beat in
    interval / get_rollover_period_duration s.schedule

-- The loop of `clean`, over the rounds left, from period i on; `name` gives the name for a time, or
-- `none` where the formatting throws.
unfoldable pub clean_loop : (ℕ → Option Text) → ℕ → ℕ → ℕ → ℕ → ℕ → Disk → Disk × Bool
unfolding remove_path
clean_loop name time period max_history zero i disk = (disk, true)
clean_loop name time period max_history (suc rounds) i disk =
    elim (name (time - (max_history + 1 + i) * period)) [
      | none ↦ (disk, false)
      | some path ↦ clean_loop name time period max_history rounds (i + 1) (remove_path path disk)
    ]

-- `clean`; the flag is false where the formatting of a name threw, and then the heart beat is kept.
unfoldable pub clean : (ℕ → Option Text) → ℕ → TimeBased × Disk → (TimeBased × Disk) × Bool
unfolding periods clean_loop
clean name time (s, disk) =
    let (disk', done) =
      clean_loop name time (get_rollover_period_duration s.schedule) s.max_history (periods s time)
        0 disk in
    ((if done then record s { last_heart_beat = time } else s, disk'), done)

module _ (strftime : Text → Tm → Text) (capacity : ℕ) (local_time : ℕ → Tm)
    (mktime : Tm → Option ℕ) where
  -- `getFormattedTime` of the file name pattern.
  unfoldable pub name_at : TimeBased → ℕ → Option Text
  name_at s time =
      elim (get_formatted_time strftime 11 capacity s.filename_pattern time
        (local_time (to_time_t time))) [ formatted name ↦ some name | failed ↦ none | stuck ↦ none ]

  -- `open`; the file is opened by `opened`, that is in truncation or in append mode.
  unfoldable pub open_scheduled :
      (Bool → Text → Disk → Disk) → ℕ → Bool → TimeBased × Disk → (TimeBased × Disk) × Bool
  unfolding name_at open_stream
  open_scheduled opened now can_open (s, disk) = elim (name_at s now) [
    | none ↦ ((s, disk), false)
    | some name ↦
        let filename' = if is_empty s.filename then name else s.filename in
        (
          (
            record s {
              scheduled_filename = name;
              filename = filename';
              out = open_stream can_open s.out;
            },
            opened can_open filename' disk,
          ),
          true,
        )
  ]

  unfoldable pub renamed : TimeBased × Disk → Disk
  unfolding rename_path
  renamed (s, disk) =
      if text_eq s.filename s.scheduled_filename
      then disk
      else rename_path s.filename s.scheduled_filename disk

  -- `rollover`: the renaming, the cleaning and the opening, with the flag false where it threw.
  unfoldable pub rollover : ℕ → Bool → TimeBased × Disk → (TimeBased × Disk) × Bool
  unfolding renamed clean open_scheduled
  rollover now can_open (s, disk) =
      let ((s1, disk1), cleaned) = clean (name_at s) now (s, renamed (s, disk)) in
      let ((s2, disk2), opened) = open_scheduled opened_truncated now can_open (s1, disk1) in
      if not cleaned then ((s1, disk1), false) else if not opened then ((s2, disk2), false) else (
        (
          record s2 {
            next_rollover_time = calculate_next_rollover_time local_time mktime s2.schedule now;
          },
          disk2,
        ),
        true,
      )

  unfoldable pub close : ℕ → Bool → TimeBased × Disk → (TimeBased × Disk) × Bool
  unfolding rollover
  close now can_open (s, disk) =
      let ((s', disk'), done) = rollover now can_open (s, disk) in
      if s.roll_on_close
      then (if done then ((record s' { closed = true }, disk'), true) else ((s', disk'), false))
      else ((record s { closed = true }, disk), true)

  -- `init` behind the opening of the file.
  unfoldable pub init_history : ℕ → TimeBased × Disk → (TimeBased × Disk) × Bool
  unfolding clean
  init_history now (s, disk) =
      let s' = record s {
        next_rollover_time = calculate_next_rollover_time local_time mktime s.schedule now;
      } in
      let time =
        if s.clean_history_on_start
        then now + s.max_history * get_rollover_period_duration s.schedule
        else now in
      let ((s1, disk1), done) = clean (name_at s) time (s', disk) in
      if done then ((record s1 { last_heart_beat = now }, disk1), true) else ((s1, disk1), false)
