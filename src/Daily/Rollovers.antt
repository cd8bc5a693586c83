-- ===== src/Daily/Rollovers.antt =====
-- What a rollover by time does to the files.
use mathlib.Core.List.{append_assoc}
use log4cplus.Common.{
  ℕ, zero, suc, ◌-◌, ◌≡◌, refl, sym, ap, ◌∙◌, Bool, false, Option, none, some, [], ◌++◌, Text,
  codes, text_eq, text_eq_iff, text_eq_refl, leb, ◌==◌, if◌then◌else◌, Option-cases, Bool-cases,
  inl, inr, arith,
}
use log4cplus.TimeHelper.{Tm}
use log4cplus.Rolling.{file_rename, rollover_files}
use log4cplus.Rolling.Backups.{shifted_lem}
use log4cplus.FileAppender.{Disk, rename_path, shift_files, backup_name}
use log4cplus.FileAppender.Shift.{
  IsDistinct, view, view-rename, view-shift_files, series, series-IsDistinct, shift_files-frame,
  rename_path-frame, text_eq-longer,
}
use log4cplus.Daily.{Daily, rename_files, rollover}

-- The log file's name is not one of the scheduled file's or its backups', since these are longer.
log-ne-series :
    (shown : ℕ → Text) (filename date : Text) (i : ℕ)
    → text_eq filename (series shown (filename ++ (codes "." ++ date)) i) ≡ false
unfolding series backup_name
log-ne-series shown filename date zero = text_eq-longer filename b'.' date
log-ne-series shown filename date (suc i) =
    let rest = codes "." ++ shown (suc i) in
    rw (append_assoc filename (codes "." ++ date) rest)
      (text_eq-longer filename b'.' (date ++ rest))

log-ne-backup :
    (shown : ℕ → Text) (filename date : Text) (i : ℕ)
    → text_eq filename (backup_name shown (filename ++ (codes "." ++ date)) i) ≡ false
unfolding backup_name
log-ne-backup shown filename date i =
    let rest = codes "." ++ shown i in
    rw (append_assoc filename (codes "." ++ date) rest)
      (text_eq-longer filename b'.' (date ++ rest))

rename_path-missing :
    (src target : Text) (disk : Disk) (k : Text)
    → disk src ≡ none
    → rename_path src target disk k ≡ disk k
unfolding rename_path
rename_path-missing src target disk k e = ground (arith, e)

rename_path-present :
    (src target : Text) (disk : Disk) (k content : Text)
    → disk src ≡ some content
    → rename_path src target disk k
      ≡ (if text_eq k target then some content else if text_eq k src then none else disk k)
unfolding rename_path
rename_path-present src target disk k content e = ground (arith, e)

text_eq_comm : (a b : Text) → text_eq a b ≡ text_eq b a
text_eq_comm a b = ground (arith, text_eq_iff a b, text_eq_iff b a)

module _ (shown : ℕ → Text) (distinct : IsDistinct shown) (m : ℕ) (s : Daily) (date : Text)
    (named : s.scheduled_filename ≡ s.filename ++ (codes "." ++ date))
    (indexed : s.max_backup_index ≡ suc m) (disk : Disk) where
  -- The backups after `rolloverFiles` and the renaming of the scheduled file to the first of them.
  shifted : Disk
  shifted =
      rename_path s.scheduled_filename (backup_name shown s.scheduled_filename 1)
        (shift_files shown s.scheduled_filename s.max_backup_index disk)

  shifted-series :
      (k : ℕ)
      → shifted (series shown s.scheduled_filename k) ≡ (
          if k == 0
          then none
          else if leb k (suc m)
          then disk (series shown s.scheduled_filename (k - 1))
          else disk (series shown s.scheduled_filename k))
  unfolding shifted series view
  shifted-series k =
      let name = series shown s.scheduled_filename in
      let apart = series-IsDistinct shown s.scheduled_filename distinct in
      let start = shift_files shown s.scheduled_filename s.max_backup_index disk in
      let all : view name shifted ≡ file_rename 0 1 (rollover_files (suc m) (view name disk)) =
        view-rename name 0 1 start apart
        ∙ ap (file_rename 0 1) (
            ap (λ i. view name (shift_files shown s.scheduled_filename i disk)) indexed
            ∙ view-shift_files shown s.scheduled_filename name m disk apart (λ i. refl)) in
      ap (λ fs. fs k) all ∙ shifted_lem m (view name disk) k

  shifted-log : shifted s.filename ≡ disk s.filename
  unfolding shifted
  shifted-log =
      let apart : (i : ℕ) → text_eq s.filename (backup_name shown s.scheduled_filename i) ≡ false =
        λ i. rw named (log-ne-backup shown s.filename date i) in
      let unlike : text_eq s.filename s.scheduled_filename ≡ false =
        rw named (text_eq-longer s.filename b'.' date) in
      rename_path-frame s.scheduled_filename (backup_name shown s.scheduled_filename 1) _ s.filename
        unlike (apart 1)
      ∙ shift_files-frame shown s.scheduled_filename s.max_backup_index disk s.filename apart

  series-ne-log : (k : ℕ) → text_eq (series shown s.scheduled_filename k) s.filename ≡ false
  series-ne-log k =
      text_eq_comm (series shown s.scheduled_filename k) s.filename
      ∙ rw named (log-ne-series shown s.filename date k)

  shifted-scheduled : shifted s.scheduled_filename ≡ none
  shifted-scheduled = unfold series in shifted-series 0

  -- Where the log file is missing the scheduled file is missing too afterwards.
  shifted-missing :
      (k : Text)
      → disk s.filename ≡ none
      → shifted k ≡ (
          if text_eq k s.scheduled_filename
          then disk s.filename
          else if text_eq k s.filename
          then none
          else shifted k)
  shifted-missing k e = elim (Bool-cases (text_eq k s.scheduled_filename)) [
    | inl same ↦
        rw same
          (ap shifted ((text_eq_iff k s.scheduled_filename).0 same) ∙ (shifted-scheduled ∙ sym e))
    | inr other ↦ elim (Bool-cases (text_eq k s.filename)) [
      | inl same ↦
          rw (other, same) (ap shifted ((text_eq_iff k s.filename).0 same) ∙ (shifted-log ∙ e))
      | inr unlike ↦ rw (other, unlike) refl
    ]
  ]

  last : rename_files shown s disk ≡ rename_path s.filename s.scheduled_filename shifted
  unfolding rename_files shifted
  last = refl

  -- The renames put the log file in the scheduled file's place.
  renamed-lem :
      (k : Text)
      → rename_files shown s disk k ≡ (
          if text_eq k s.scheduled_filename
          then disk s.filename
          else if text_eq k s.filename
          then none
          else shifted k)
  renamed-lem k = elim (Option-cases (disk s.filename)) [
    | inl e ↦
        ap (λ d. d k) last
        ∙ (rename_path-missing s.filename s.scheduled_filename shifted k (shifted-log ∙ e)
            ∙ shifted-missing k e)
    | inr (content, e) ↦
        ap (λ d. d k) last
        ∙ (rename_path-present s.filename s.scheduled_filename shifted k content (shifted-log ∙ e)
            ∙ ap
                (λ x.
                  if text_eq k s.scheduled_filename
                  then x
                  else if text_eq k s.filename
                  then none
                  else shifted k)
                (sym e))
  ]

  -- A rollover by time, with at least one backup and with distinct texts for distinct numbers,
  -- whether or not the log file can be opened again: the log file becomes the scheduled file, the
  -- scheduled file its first backup and each backup the next, up to the greatest index, whichever
  -- files are missing, and what the last backup held is lost. The log file is then empty, or
  -- missing if it cannot be opened.
  pub rollover-series :
      (strftime : Text → Tm → Text) (capacity : ℕ) (local_time : ℕ → Tm) (mktime : Tm → Option ℕ)
      (now : ℕ) (can_open : Bool) (k : ℕ)
      → ((rollover shown strftime capacity local_time mktime now can_open (s, disk)).1
            (series shown s.scheduled_filename k)
          ≡ (if k == 0
              then disk s.filename
              else if leb k (suc m)
              then disk (series shown s.scheduled_filename (k - 1))
              else disk (series shown s.scheduled_filename k)))
        × ((rollover shown strftime capacity local_time mktime now can_open (s, disk)).1 s.filename
            ≡ (if can_open then some [] else none))
  unfolding rollover series
  rollover-series strftime capacity local_time mktime now can_open k =
      let name = series shown s.scheduled_filename in
      let member : text_eq (name k) s.scheduled_filename ≡ (k == 0) =
        series-IsDistinct shown s.scheduled_filename distinct k 0 in
      let at_log = renamed-lem s.filename in
      let unlike = text_eq_comm s.filename s.scheduled_filename ∙ series-ne-log 0 in
      (
        ground (arith, series-ne-log k, member, renamed-lem (name k), shifted-series k),
        ground (arith, at_log, unlike, text_eq_refl s.filename),
      )
