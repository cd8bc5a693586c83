-- ===== src/Rolling.antt =====
-- src/fileappender.cxx: the files of `RollingFileAppender`.
--
-- File 0 is the log file and file i its backup with the suffix `.i`, on a file system where a
-- rename replaces its target. A rename or a removal fails only where the file is missing, and a
-- file can be opened; no other process writes the files. `max_backup_index` is at least 1, as
-- `init` makes it, and in the range of int.
pub mod Backups
pub mod Configured
pub mod Sizes
use log4cplus.Common.{
  ℕ, zero, suc, ◌+◌, ◌-◌, Bool, true, false, not, ◌&&◌, Option, none, some, List, [], ◌∷◌, ◌++◌,
  Text, length, ltb, max, ◌==◌, if◌then◌else◌,
}

abbrev pub Files : Type 0
Files = ℕ → Option Text

unfoldable pub file_remove : ℕ → Files → Files
file_remove i fs = λ k. if k == i then none else fs k

unfoldable pub file_rename : ℕ → ℕ → Files → Files
file_rename src target fs = elim (fs src) [
  | none ↦ fs
  | some content ↦ λ k. if k == target then some content else if k == src then none else fs k
]

-- The loop of `rolloverFiles`, from i down to 1.
unfoldable pub rename_loop : ℕ → Files → Files
unfolding file_rename
rename_loop zero fs = fs
rename_loop (suc i) fs = rename_loop i (file_rename (suc i) (suc (suc i)) fs)

unfoldable pub rollover_files : ℕ → Files → Files
unfolding file_remove rename_loop
rollover_files max_backup_index fs =
    rename_loop (max_backup_index - 1) (file_remove max_backup_index fs)

pub record Rolling : Type 0 where
  pub files : Files
  pub is_open : Bool

-- Opening in truncation mode.
abbrev pub truncated : Files → Rolling
truncated fs = record { files = λ k. if k == 0 then some [] else fs k; is_open = true }

-- The size of the log file; a missing file has none.
unfoldable pub has_reached : ℕ → Files → Bool
has_reached max_file_size fs = elim (fs 0) [
  | none ↦ false
  | some content ↦ not (ltb (length content) max_file_size)
]

-- Opening in append mode.
abbrev pub reopened : Files → Rolling
reopened fs = record {
  files =
      λ k. if k == 0 then elim (fs 0) [ none ↦ some [] | some content ↦ some content ] else fs k;
  is_open = true;
}

-- `rollover`; `locks` says whether the lock file can be locked.
unfoldable pub rollover : Bool → Bool → Bool → ℕ → ℕ → Rolling → Rolling
unfolding has_reached rollover_files file_rename
rollover use_lock_file locks already_locked max_file_size max_backup_index s =
    if use_lock_file && not already_locked && not locks
    then record s { is_open = false }
    else if use_lock_file && not (has_reached max_file_size s.files)
    then reopened s.files
    else if ltb 0 max_backup_index
    then truncated (file_rename 0 1 (rollover_files max_backup_index s.files))
    else truncated s.files

abbrev pub log_size : Files → ℕ
log_size fs = elim (fs 0) [ none ↦ 0 | some content ↦ length content ]

-- The formatted event is written at the end of the log file.
abbrev pub written : Text → Rolling → Rolling
written text s = record s {
  files = λ k.
      if k == 0
      then elim (s.files 0) [ none ↦ some text | some content ↦ some (content ++ text) ]
      else s.files k;
}

abbrev pub rolled_if_over : Bool → ℕ → ℕ → Rolling → Rolling
rolled_if_over use_lock_file max_file_size max_backup_index s =
    if ltb max_file_size (log_size s.files)
    then rollover use_lock_file true true max_file_size max_backup_index s
    else s

-- `RollingFileAppender::append`
unfoldable pub append : Bool → ℕ → ℕ → Text → Rolling → Rolling
unfolding rollover
append use_lock_file max_file_size max_backup_index text s =
    rolled_if_over use_lock_file max_file_size max_backup_index
      (written text (rolled_if_over use_lock_file max_file_size max_backup_index s))
