-- ===== src/FileAppender/Shift.antt =====
-- The shifting of backups on a disk of paths, by the shifting of numbered files.
use mathlib.Core.Path.{fun_ext}
use log4cplus.Common.{
  ℕ, zero, suc, ◌-◌, ◌≡◌, refl, ap, ◌∙◌, false, Option, [], ◌∷◌, ◌++◌, Text, codes, text_eq,
  text_eq_refl, ◌==◌, Option-cases, inl, inr, arith,
}
use log4cplus.Rolling.{file_remove, file_rename, rename_loop, rollover_files}
use log4cplus.FileAppender.{Disk, remove_path, rename_path, backup_name, shift_loop, shift_files}

pub text_eq-append : (s t u : Text) → text_eq (s ++ t) (s ++ u) ≡ text_eq t u
unfolding text_eq
text_eq-append [] t u = refl
text_eq-append (c ∷ s) t u = ground (arith, text_eq-append s t u)

pub text_eq-longer : (s : Text) (c : ℕ) (t : Text) → text_eq s (s ++ (c ∷ t)) ≡ false
unfolding text_eq
text_eq-longer [] c t = refl
text_eq-longer (a ∷ s) c t = ground (arith, text_eq-longer s c t)

pub longer-text_eq : (s : Text) (c : ℕ) (t : Text) → text_eq (s ++ (c ∷ t)) s ≡ false
unfolding text_eq
longer-text_eq [] c t = refl
longer-text_eq (a ∷ s) c t = ground (arith, longer-text_eq s c t)

pub rename_path-frame :
    (src target : Text) (disk : Disk) (k : Text)
    → text_eq k src ≡ false
    → text_eq k target ≡ false
    → rename_path src target disk k ≡ disk k
unfolding rename_path
rename_path-frame src target disk k h g = elim (Option-cases (disk src)) [
  | inl e ↦ ground (arith, e)
  | inr (content, e) ↦ ground (arith, e, h, g)
]

-- The files with the names of a series, by number.
unfoldable pub view : (ℕ → Text) → Disk → ℕ → Option Text
view name disk = λ k. disk (name k)

abbrev pub IsDistinct : (ℕ → Text) → Type 0
IsDistinct name = (a b : ℕ) → text_eq (name a) (name b) ≡ (a == b)

view-remove :
    (name : ℕ → Text) (i : ℕ) (disk : Disk)
    → IsDistinct name
    → view name (remove_path (name i) disk) ≡ file_remove i (view name disk)
unfolding view remove_path file_remove
view-remove name i disk h = fun_ext (λ k. ground (arith, h k i))

pub view-rename :
    (name : ℕ → Text) (a b : ℕ) (disk : Disk)
    → IsDistinct name
    → view name (rename_path (name a) (name b) disk) ≡ file_rename a b (view name disk)
unfolding view rename_path file_rename
view-rename name a b disk h = fun_ext (λ k. elim (Option-cases (disk (name a))) [
  | inl e ↦ ground (arith, e)
  | inr (content, e) ↦ ground (arith, e, h k a, h k b)
])

module _ (shown : ℕ → Text) where
  -- A series of names whose members from 1 on are the backups of a file.
  abbrev pub IsSeries : Text → (ℕ → Text) → Type 0
  IsSeries filename name = (i : ℕ) → name (suc i) ≡ backup_name shown filename (suc i)

  view-shift_loop :
      (filename : Text) (name : ℕ → Text) (i : ℕ) (disk : Disk)
      → IsDistinct name
      → IsSeries filename name
      → view name (shift_loop shown filename i disk) ≡ rename_loop i (view name disk)
  unfolding shift_loop rename_loop
  view-shift_loop filename name zero disk h s = refl
  view-shift_loop filename name (suc i) disk h s =
      let step : rename_path (backup_name shown filename (suc i))
            (backup_name shown filename (suc (suc i))) disk
          ≡ rename_path (name (suc i)) (name (suc (suc i))) disk =
        rw (s i, s (suc i)) refl in
      view-shift_loop filename name i _ h s
      ∙ ap (rename_loop i) (ap (view name) step ∙ view-rename name (suc i) (suc (suc i)) disk h)

  pub view-shift_files :
      (filename : Text) (name : ℕ → Text) (m : ℕ) (disk : Disk)
      → IsDistinct name
      → IsSeries filename name
      → view name (shift_files shown filename (suc m) disk)
        ≡ rollover_files (suc m) (view name disk)
  unfolding shift_files rollover_files
  view-shift_files filename name m disk h s =
      let step : remove_path (backup_name shown filename (suc m)) disk
          ≡ remove_path (name (suc m)) disk =
        rw (s m) refl in
      view-shift_loop filename name (suc m - 1) _ h s
      ∙ ap (rename_loop (suc m - 1)) (ap (view name) step ∙ view-remove name (suc m) disk h)

  -- The paths that a rollover of the backups leaves alone.
  shift_loop-frame :
      (filename : Text) (i : ℕ) (disk : Disk) (k : Text)
      → ((j : ℕ) → text_eq k (backup_name shown filename j) ≡ false)
      → shift_loop shown filename i disk k ≡ disk k
  unfolding shift_loop
  shift_loop-frame filename zero disk k h = refl
  shift_loop-frame filename (suc i) disk k h =
      shift_loop-frame filename i _ k h
      ∙ rename_path-frame (backup_name shown filename (suc i))
          (backup_name shown filename (suc (suc i))) disk k (h (suc i)) (h (suc (suc i)))

  pub shift_files-frame :
      (filename : Text) (m : ℕ) (disk : Disk) (k : Text)
      → ((j : ℕ) → text_eq k (backup_name shown filename j) ≡ false)
      → shift_files shown filename m disk k ≡ disk k
  unfolding shift_files remove_path
  shift_files-frame filename m disk k h =
      shift_loop-frame filename (m - 1) _ k h ∙ ground (arith, h m)

  -- The file itself and its backups.
  unfoldable pub series : Text → ℕ → Text
  series filename zero = filename
  series filename (suc i) = backup_name shown filename (suc i)

  pub series-IsDistinct : (filename : Text) → IsDistinct shown → IsDistinct (series filename)
  unfolding series backup_name text_eq
  series-IsDistinct filename h zero zero = text_eq_refl filename
  series-IsDistinct filename h zero (suc b) =
      text_eq-longer filename b'.' (shown (suc b)) ∙ ground arith
  series-IsDistinct filename h (suc a) zero =
      longer-text_eq filename b'.' (shown (suc a)) ∙ ground arith
  series-IsDistinct filename h (suc a) (suc b) =
      text_eq-append filename (codes "." ++ shown (suc a)) (codes "." ++ shown (suc b))
      ∙ h (suc a) (suc b)
