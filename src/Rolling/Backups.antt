-- ===== src/Rolling/Backups.antt =====
-- What a rollover does to the files, and what the files hold after many.
use native.Mathlib.Decide.{dec_le}
use log4cplus.Common.{
  ℕ, zero, suc, ◌-◌, ◌≤◌, ◌<◌, ◌≡◌, ◌⊎◌, inl, inr, true, false, ◌&&◌, none, some, List, [], ◌∷◌,
  ◌++◌, Text, length, get_elem?, leb, ◌==◌, if◌then◌else◌, Option-cases, arith,
}
use log4cplus.Rolling.{
  Files, Rolling, file_remove, file_rename, rename_loop, rollover_files, rollover, append, written,
  rolled_if_over, truncated,
}

file_rename_lem :
    (i : ℕ) (fs : Files) (k : ℕ)
    → fs (suc i) ≡ none
    → file_rename i (suc i) fs k ≡ (if k == suc i then fs i else if k == i then none else fs k)
unfolding file_rename
file_rename_lem i fs k e = elim (Option-cases (fs i)) [
  | inl f ↦ ground (arith, e, f)
  | inr (content, f) ↦ ground (arith, e, f)
]

rename_loop_lem :
    (n : ℕ) (fs : Files) (k : ℕ)
    → fs (suc n) ≡ none
    → rename_loop n fs k
      ≡ (if k == 1 then none else if leb 2 k && leb k (suc n) then fs (k - 1) else fs k)
unfolding rename_loop
rename_loop_lem zero fs k e = ground (arith, e)
rename_loop_lem (suc n) fs k e =
    let fs' = file_rename (suc n) (suc (suc n)) fs in
    let moved : (j : ℕ)
        → fs' j ≡ (if j == suc (suc n) then fs (suc n) else if j == suc n then none else fs j) =
      λ j. file_rename_lem (suc n) fs j e in
    let ih = rename_loop_lem n fs' k (ground (arith, moved (suc n))) in
    ground (arith, ih, moved k, moved (k - 1))

-- The renames of a rollover: every file up to the greatest index moves to the next number.
pub shifted_lem :
    (m : ℕ) (fs : Files) (k : ℕ)
    → file_rename 0 1 (rollover_files (suc m) fs) k
      ≡ (if k == 0 then none else if leb k (suc m) then fs (k - 1) else fs k)
unfolding rollover_files file_remove
shifted_lem m fs k =
    let fs' = file_remove (suc m) fs in
    let shifted : (j : ℕ)
        → rename_loop m fs' j
          ≡ (if j == 1 then none else if leb 2 j && leb j (suc m) then fs' (j - 1) else fs' j) =
      λ j. rename_loop_lem m fs' j (unfold file_remove in ground arith) in
    let first = file_rename_lem 0 (rename_loop m fs') k (ground (arith, shifted 1)) in
    ground (arith, first, shifted k, shifted 0)

-- Without a lock file and with at least one backup, a rollover moves the log file to backup 1 and
-- backup i to backup i + 1 up to the greatest index, whichever files are missing, loses what the
-- last backup held, leaves an empty log file and every other file alone.
pub rollover_lem :
    (max_file_size m : ℕ) (s : Rolling) (k : ℕ)
    → (rollover false true true max_file_size (suc m) s).files k
      ≡ (if k == 0 then some [] else if leb k (suc m) then s.files (k - 1) else s.files k)
unfolding rollover
rollover_lem max_file_size m s k = ground (arith, shifted_lem m s.files k)

-- A series of log files, the newest first, each written and then rolled over.
pub rolls : ℕ → List Text → Rolling → Rolling
rolls max_backup_index [] s = s
rolls max_backup_index (text ∷ older) s =
    rollover false true true 0 max_backup_index (written text (rolls max_backup_index older s))

pub fresh : Rolling
fresh = truncated (λ k. none)

-- Without a lock file and with at least one backup: after any number of rollovers from an empty
-- log file and no backups, backup i holds what was written into the log file before the i-th last
-- of them, as long as i is in the range of the backups, and there are no other backups.
pub rolls_lem :
    (m : ℕ) (series : List Text) (k : ℕ)
    → (rolls (suc m) series fresh).files k
      ≡ (if k == 0 then some [] else if leb k (suc m) then get_elem? series (k - 1) else none)
unfolding rolls fresh
rolls_lem m [] k = ground arith
rolls_lem m (text ∷ older) k = ground (
  arith,
  rollover_lem 0 m (written text (rolls (suc m) older fresh)) k,
  rolls_lem m older 0,
  rolls_lem m older (k - 1),
  rolls_lem m older k,
)

roll_fits :
    (max_file_size m : ℕ) (s : Rolling) (content : Text)
    → s.files 0 ≡ some content
    → length content ≤ max_file_size
    → rolled_if_over false max_file_size (suc m) s ≡ s
roll_fits max_file_size m s content e fits = ground (arith, e)

roll_over :
    (max_file_size m : ℕ) (s : Rolling) (content : Text)
    → s.files 0 ≡ some content
    → max_file_size < length content
    → rolled_if_over false max_file_size (suc m) s
      ≡ rollover false true true max_file_size (suc m) s
roll_over max_file_size m s content e over = ground (arith, e)

-- Without a lock file, with at least one backup and a log file no larger than the maximum size,
-- `append` leaves a log file that is no larger: with the event at its end if that fits, and else
-- an empty one, with the whole text in backup 1.
pub append_lem :
    (max_file_size m : ℕ) (text : Text) (s : Rolling) (content : Text)
    → s.files 0 ≡ some content
    → length content ≤ max_file_size
    → (((append false max_file_size (suc m) text s).files 0 ≡ some (content ++ text))
        × (length (content ++ text) ≤ max_file_size))
      ⊎ (((append false max_file_size (suc m) text s).files 0 ≡ some [])
          × ((append false max_file_size (suc m) text s).files 1 ≡ some (content ++ text))
          × (max_file_size < length (content ++ text)))
unfolding append
append_lem max_file_size m text s content e fits =
    let s' = written text s in
    let at : s'.files 0 ≡ some (content ++ text) = ground (arith, e) in
    let start = roll_fits max_file_size m s content e fits in
    elim (dec_le (length (content ++ text)) max_file_size) [
      | yes small ↦
          inl (rw (start, roll_fits max_file_size m s' (content ++ text) at small) at, small)
      | no large ↦
          let over : max_file_size < length (content ++ text) = omega (arith, large) in
          let end = roll_over max_file_size m s' (content ++ text) at over in
          inr (
            rw (start, end) (ground (arith, rollover_lem max_file_size m s' 0)),
            rw (start, end) (ground (arith, rollover_lem max_file_size m s' 1, at)),
            over,
          )
    ]
