-- ===== src/Daily.antt =====
-- src/fileappender.cxx: `DailyRollingFileAppender`.
--
-- The lock file is not used. The C library, the way an unsigned number is written on a stream and
-- the capacity of the thread's formatting buffer are parameters. `max_backup_index` is not negative.
-- The clock is read where the code reads it: `now` is the time in a rollover.
pub mod Rollovers
use log4cplus.Common.{
  ℕ, zero, suc, ◌+◌, Bool, true, false, Option, none, some, List, [], ◌∷◌, ◌++◌, Text, codes,
  text_eq, is_empty, leb, if◌then◌else◌,
}
use log4cplus.TimeHelper.{
  Tm, to_time_t, truncate_fractions, Formatted, formatted, failed, stuck, get_formatted_time,
}
use log4cplus.Schedule.{
  DailyRollingFileSchedule, monthly, weekly, daily, twice_daily, hourly, minutely,
  calculate_next_rollover_time,
}
use log4cplus.FileAppender.{
  Disk, rename_path, shift_files, backup_name, Stream, opened_truncated, opened_append, open_stream,
  append_event,
}

-- The schedule that the property `Schedule` names, in upper case; the flag is a warning.
unfoldable pub schedule_of : Text → DailyRollingFileSchedule × Bool
schedule_of s =
    if text_eq s (codes "MONTHLY")
    then (monthly, false)
    else if text_eq s (codes "WEEKLY")
    then (weekly, false)
    else if text_eq s (codes "DAILY")
    then (daily, false)
    else if text_eq s (codes "TWICE_DAILY")
    then (twice_daily, false)
    else if text_eq s (codes "HOURLY")
    then (hourly, false)
    else if text_eq s (codes "MINUTELY")
    then (minutely, false)
    else (daily, true)

-- The pattern for a schedule where DatePattern is empty.
unfoldable pub default_pattern : DailyRollingFileSchedule → Text
default_pattern monthly = codes "%Y-%m"
default_pattern weekly = codes "%Y-%W"
default_pattern daily = codes "%Y-%m-%d"
default_pattern twice_daily = codes "%Y-%m-%d-%p"
default_pattern hourly = codes "%Y-%m-%d-%H"
default_pattern minutely = codes "%Y-%m-%d-%H-%M"

pub record Daily : Type 0 where
  pub filename : Text
  pub schedule : DailyRollingFileSchedule
  pub scheduled_filename : Text
  pub next_rollover_time : ℕ
  pub max_backup_index : ℕ
  pub roll_on_close : Bool
  pub date_pattern : Text
  pub reopen_delay : ℕ
  pub out : Stream
  pub closed : Bool

-- Whether a method returned or `getFormattedTime` threw.
pub data Outcome : Type 0 where
  returned thrown : Outcome

-- The renames of `rollover`.
unfoldable pub rename_files : (ℕ → Text) → Daily → Disk → Disk
unfolding shift_files rename_path
rename_files shown s disk = rename_path s.filename s.scheduled_filename (
    rename_path s.scheduled_filename (backup_name shown s.scheduled_filename 1)
      (shift_files shown s.scheduled_filename s.max_backup_index disk))

module _ (shown : ℕ → Text) (strftime : Text → Tm → Text) (capacity : ℕ) (local_time : ℕ → Tm)
    (mktime : Tm → Option ℕ) where
  unfoldable pub get_filename : Daily → ℕ → Formatted
  unfolding default_pattern
  get_filename s time =
      let pattern =
        if is_empty s.date_pattern then default_pattern s.schedule else s.date_pattern in
      elim (get_formatted_time strftime 11 capacity pattern time (local_time (to_time_t time))) [
        | formatted date ↦ formatted (s.filename ++ (codes "." ++ date))
        | failed ↦ failed
        | stuck ↦ stuck
      ]

  -- The end of `rollover` and of `init`: the name and the time of the next rollover.
  unfoldable pub reschedule : ℕ → Daily → Daily × Outcome
  unfolding get_filename
  reschedule now s = elim (get_filename s now) [
    | formatted name ↦ (
      record s {
        scheduled_filename = name;
        next_rollover_time = calculate_next_rollover_time local_time mktime s.schedule now;
      },
      returned,
    )
    | failed ↦ (s, thrown)
    | stuck ↦ (s, thrown)
  ]

  unfoldable pub init : ℕ → DailyRollingFileSchedule → Daily → Daily × Outcome
  unfolding reschedule
  init now sch s = reschedule (truncate_fractions now) (record s { schedule = sch })

  unfoldable pub rollover : ℕ → Bool → Daily × Disk → (Daily × Outcome) × Disk
  unfolding rename_files reschedule open_stream
  rollover now can_open (s, disk) =
      let disk' = opened_truncated can_open s.filename (rename_files shown s disk) in
      let s' = record s { out = open_stream can_open s.out } in
      (if leb s.next_rollover_time now then reschedule now s' else (s', returned), disk')

  -- The text of an event at the end of the log file, which is opened again if it has to be.
  unfoldable pub write : ℕ → Bool → Bool → Text → Daily × Disk → Daily × Disk
  unfolding append_event
  write now can_open fits text (s, disk) =
      let (out', written) = append_event s.reopen_delay now can_open fits s.out in
      (
        record s { out = out' },
        if written
            then (λ k.
                if text_eq k s.filename
                then elim (disk s.filename) [
                  | none ↦ some text
                  | some content ↦ some (content ++ text)
                ]
                else disk k)
            else disk,
      )

  -- `append` of an event; one that a rollover throws out of is not written.
  unfoldable pub append : ℕ → ℕ → Bool → Bool → Text → Daily × Disk → (Daily × Outcome) × Disk
  unfolding rollover write
  append timestamp now can_open fits text (s, disk) =
      let ((s', outcome), disk') = rollover now can_open (s, disk) in
      let (s1, disk1) = write now can_open fits text (s', disk') in
      let (s2, disk2) = write now can_open fits text (s, disk) in
      if leb s.next_rollover_time timestamp
      then (elim outcome [ returned ↦ ((s1, returned), disk1) | thrown ↦ ((s', thrown), disk') ])
      else ((s2, returned), disk2)

  unfoldable pub close : ℕ → Bool → Daily × Disk → (Daily × Outcome) × Disk
  unfolding rollover
  close now can_open (s, disk) =
      let ((s', outcome), disk') = rollover now can_open (s, disk) in
      if s.roll_on_close
      then (elim outcome [
        | returned ↦ ((record s' { closed = true }, returned), disk')
        | thrown ↦ ((s', thrown), disk')
      ])
      else ((record s { closed = true }, returned), disk)
