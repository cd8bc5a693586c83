-- ===== src/FileAppender/Opening.antt =====
-- What a file appender that is made from properties does to the disk.
use log4cplus.Common.{
  ℕ, ◌≡◌, ◌≢◌, refl, Bool, true, false, Option, none, some, [], ◌∷◌, Text, codes, text_eq,
  text_eq_iff, text_eq_refl, Option-cases, ap, ◌∙◌, is_empty, ℤ, Bool-cases, inl, inr,
  if◌then◌else◌,
}
use log4cplus.StringHelper.{transform}
use log4cplus.Property.{Properties, exists, get_property}
use log4cplus.Property.Values.{get_bool}
use log4cplus.Property.Words.{IsWord, get_bool-word, get_bool-missing}
use log4cplus.FileAppender.{Disk, lock_file_name, opened_append, opened_truncated}
use log4cplus.FileAppender.Configured.{
  new_file_appender_base, new_file_appender, init_base, or_default,
}

abbrev pub content_or_empty : Option Text → Text
content_or_empty none = []
content_or_empty (some content) = content

is_empty-false : (t : Text) → t ≢ [] → is_empty t ≡ false
is_empty-false [] h = absurd (h refl)
is_empty-false (c ∷ t) h = refl

abbrev opened_as : Bool → Text → Disk → Disk
opened_as appends name disk =
    if appends then opened_append true name disk else opened_truncated true name disk

opened_file :
    (appends : Bool) (name : Text) (disk : Disk)
    → opened_as appends name disk name ≡ some (if appends then content_or_empty (disk name) else [])
opened_file true name disk = elim (Option-cases (disk name)) [
  | inl e ↦ rw (text_eq_refl name, e) refl
  | inr (content, e) ↦ rw (text_eq_refl name, e) refl
]
opened_file false name disk = rw (text_eq_refl name) refl

opened_else :
    (appends : Bool) (k name : Text) (disk : Disk)
    → k ≢ name
    → opened_as appends name disk k ≡ disk k
opened_else appends k name disk other =
    let differs : text_eq k name ≡ false = elim (Bool-cases (text_eq k name)) [
      | inl e ↦ absurd (other ((text_eq_iff k name).0 e))
      | inr e ↦ e
    ] in
    elim (Bool-cases appends) [ inl e ↦ rw (e, differs) refl | inr e ↦ rw (e, differs) refl ]

module _ (lower : ℕ → ℕ) (read_long : Text → Option (ℤ × Text))
    (read_int : Text → Option (ℤ × Text)) (read_ulong : Text → Option (ℕ × Text)) where
  abbrev pub disk_of : Bool → Properties → Disk → Disk
  disk_of mode_appends props disk =
      (new_file_appender lower read_long read_int read_ulong false mode_appends false true props
        disk).1.1

  opened :
      (mode_appends : Bool) (props : Properties) (disk : Disk)
      → get_property (codes "File") props ≢ []
      → disk_of mode_appends props disk
        ≡ opened_as
            (or_default mode_appends (get_bool lower read_long (codes "Append") props))
            (get_property (codes "File") props)
            disk
  unfolding new_file_appender new_file_appender_base init_base lock_file_name
  opened mode_appends props disk named =
      rw (disk_of, is_empty-false (get_property (codes "File") props) named) refl

  at_file :
      (mode_appends : Bool) (props : Properties) (disk : Disk) (append : Option Bool)
      → get_property (codes "File") props ≢ []
      → get_bool lower read_long (codes "Append") props ≡ append
      → disk_of mode_appends props disk (get_property (codes "File") props)
        ≡ some (
            if or_default mode_appends append
            then content_or_empty (disk (get_property (codes "File") props))
            else [])
  at_file mode_appends props disk append named e =
      let name = get_property (codes "File") props in
      ap (λ d. d name) (opened mode_appends props disk named)
      ∙ ap (λ a. opened_as (or_default mode_appends a) name disk name) e
      ∙ opened_file (or_default mode_appends append) name disk

  -- Without a lock file and with a file that can be opened, a file appender that is made from
  -- properties leaves every other file as it was. Where `Append` is the word true in letters of any
  -- case it keeps what the file holds, where it is the word false it empties the file, and without
  -- it the mode of the class decides.
  pub new_file_appender-disk :
      (mode_appends : Bool) (props : Properties) (disk : Disk)
      → get_property (codes "File") props ≢ []
      → IsWord (get_property (codes "Append") props)
      → ((k : Text)
          → k ≢ get_property (codes "File") props
          → disk_of mode_appends props disk k ≡ disk k)
        × (exists (codes "Append") props ≡ true
            → transform lower (get_property (codes "Append") props) ≡ codes "true"
            → disk_of mode_appends props disk (get_property (codes "File") props)
              ≡ some (content_or_empty (disk (get_property (codes "File") props))))
        × (exists (codes "Append") props ≡ true
            → transform lower (get_property (codes "Append") props) ≡ codes "false"
            → disk_of mode_appends props disk (get_property (codes "File") props) ≡ some [])
        × (exists (codes "Append") props ≡ false
            → disk_of mode_appends props disk (get_property (codes "File") props)
              ≡ some (
                  if mode_appends
                  then content_or_empty (disk (get_property (codes "File") props))
                  else []))
  new_file_appender-disk mode_appends props disk named w =
      let read = get_bool-word lower read_long (codes "Append") props in
      (
        λ k other.
            ap (λ d. d k) (opened mode_appends props disk named)
            ∙ opened_else
                (or_default mode_appends (get_bool lower read_long (codes "Append") props)) k
                (get_property (codes "File") props) disk other,
        λ h e. at_file mode_appends props disk (some true) named ((read h w).0 e),
        λ h e. at_file mode_appends props disk (some false) named ((read h w).1 e),
        λ h.
            at_file mode_appends props disk none named
              (get_bool-missing lower read_long (codes "Append") props h),
      )
