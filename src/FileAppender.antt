-- ===== src/FileAppender.antt =====
-- src/fileappender.cxx: `FileAppenderBase`, its stream, and the operations on files that the
-- appenders that roll over by time share.
--
-- The disk maps paths to contents. A rename replaces its target, and a rename or a removal fails
-- only where the file is missing. Whether a file can be opened (`can_open`) and whether the stream
-- is good behind a write (`fits`) are arguments; a write that fails leaves no text.
pub mod Reopening
pub mod Shift
pub mod Configured
pub mod Opening
use log4cplus.Common.{
  ℕ, zero, suc, ◌+◌, ◌-◌, ◌*◌, Bool, true, false, not, ◌&&◌, ◌||◌, Option, none, some, List, [],
  ◌∷◌, ◌++◌, Text, codes, text_eq, is_empty, pos, leb, ltb, ◌==◌, if◌then◌else◌,
}

abbrev pub Disk : Type 0
Disk = Text → Option Text

unfoldable pub remove_path : Text → Disk → Disk
remove_path name disk = λ k. if text_eq k name then none else disk k

unfoldable pub rename_path : Text → Text → Disk → Disk
rename_path src target disk = elim (disk src) [
  | none ↦ disk
  | some content ↦
      λ k. if text_eq k target then some content else if text_eq k src then none else disk k
]

-- `shown` is how the standard library writes an unsigned number on a stream.
module _ (shown : ℕ → Text) where
  unfoldable pub backup_name : Text → ℕ → Text
  backup_name filename i = filename ++ (codes "." ++ shown i)

  -- The loop of `rolloverFiles`, from i down to 1.
  unfoldable pub shift_loop : Text → ℕ → Disk → Disk
  unfolding rename_path
  shift_loop filename zero disk = disk
  shift_loop filename (suc i) disk =
      shift_loop filename i
        (rename_path (backup_name filename (suc i)) (backup_name filename (suc (suc i))) disk)

  -- `rolloverFiles`
  unfoldable pub shift_files : Text → ℕ → Disk → Disk
  unfolding remove_path shift_loop
  shift_files filename max_backup_index disk =
      shift_loop filename (max_backup_index - 1)
        (remove_path (backup_name filename max_backup_index) disk)

-- The stream: whether it is good, and when it may be opened again, with 0 for `Time ()`.
pub record Stream : Type 0 where
  pub good : Bool
  pub reopen_time : ℕ

-- A file that is opened in truncation mode, or in append mode.
abbrev pub opened_truncated : Bool → Text → Disk → Disk
opened_truncated can_open name disk =
    if can_open then (λ k. if text_eq k name then some [] else disk k) else disk

abbrev pub opened_append : Bool → Text → Disk → Disk
opened_append can_open name disk =
    if can_open
    then (λ k.
        if text_eq k name
        then elim (disk name) [ none ↦ some [] | some content ↦ some content ]
        else disk k)
    else disk

-- `open`
unfoldable pub open_stream : Bool → Stream → Stream
open_stream can_open out = record out { good = can_open }

-- `reopen`; the flag is its result.
unfoldable pub reopen : ℕ → ℕ → Bool → Stream → Stream × Bool
unfolding open_stream
reopen reopen_delay now can_open out =
    if out.reopen_time == 0 && not (reopen_delay == 0)
    then (record out { reopen_time = now + reopen_delay * 1000000 }, false)
    else if leb out.reopen_time now || reopen_delay == 0
    then (record (open_stream can_open out) { reopen_time = 0 }, can_open)
    else (out, false)

-- The stream behind a write.
abbrev pub behind_write : Bool → Stream → Stream
behind_write fits out = record out { good = fits }

-- `append`: the stream, and whether the event has been written.
unfoldable pub append_event : ℕ → ℕ → Bool → Bool → Stream → Stream × Bool
unfolding reopen
append_event reopen_delay now can_open fits out =
    let (out', reopened) = reopen reopen_delay now can_open out in
    if out.good
    then (behind_write fits out, fits)
    else if reopened
    then (behind_write fits out', fits)
    else (out', false)

-- The name of the lock file that `init` chooses; `none` is the error that there is no name.
unfoldable pub lock_file_name : Bool → Text → Text → Option Text
lock_file_name use_lock_file filename lock_file =
    if use_lock_file && is_empty lock_file
    then (if is_empty filename then none else some (filename ++ codes ".lock"))
    else some lock_file
