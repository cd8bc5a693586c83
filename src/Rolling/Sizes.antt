-- ===== src/Rolling/Sizes.antt =====
-- The sizes that properties spell.
use mathlib.Core.List.{append-nil}
use log4cplus.Common.{
  ℕ, zero, suc, ◌-◌, ◌*◌, ◌^◌, ◌≤◌, ◌<◌, ◌≡◌, ◌≢◌, refl, sym, ap, ◌∙◌, Bool, false, ◌&&◌, Option,
  [], ◌∷◌, ◌++◌, Text, codes, text_eq, length, drop, max, All, ℤ, pos, leb, arith, length-append,
  Bool-cases, inl, inr, ◌==◌, drop-length_append, ◌≤ℤ◌,
}
use log4cplus.StringHelper.{transform, convert_integer_to_string}
use log4cplus.StringHelper.Decimal.{value_of, convert-value_of, IsDigit}
use log4cplus.Property.{Properties, get_property}
use log4cplus.Rolling.Configured.{read_max_file_size, new_rolling_file_appender, init_sizes}

abbrev pub starts_digit : Text → Bool
starts_digit [] = false
starts_digit (c ∷ s) = leb b'0' c && leb c b'9'

not_empty : (ds : Text) → value_of 0 ds ≢ 0 → 1 ≤ length ds
unfolding value_of
not_empty [] h = absurd (h refl)
not_empty (d ∷ ds) h = omega arith

drop-unit :
    (ds : Text) (a b : ℕ) → drop (length (ds ++ (a ∷ b ∷ [])) - 2) (ds ++ (a ∷ b ∷ [])) ≡ a ∷ b ∷ []
drop-unit ds a b =
    let size : length (ds ++ (a ∷ b ∷ [])) - 2 ≡ length ds =
      ground (arith, length-append ds (a ∷ b ∷ [])) in
    rw size (drop-length_append ds (a ∷ b ∷ []))

shown-length : (n : ℕ) → n < 2 ^ 64 → 1 ≤ length (convert_integer_to_string 64 (pos n))
shown-length n h = elim (Bool-cases (n == 0)) [
  | inl e ↦ unfold convert_integer_to_string in ground (arith, e)
  | inr e ↦
      not_empty (convert_integer_to_string 64 (pos n)) (ground (arith, e, convert-value_of n h))
]

no_unit :
    (k c : ℕ) (unit s : Text)
    → starts_digit (c ∷ unit) ≡ false
    → All IsDigit s
    → text_eq (drop k s) (c ∷ unit) ≡ false
unfolding text_eq
no_unit zero c unit [] e h = refl
no_unit (suc k) c unit [] e h = refl
no_unit zero c unit (d ∷ s) e (digit, h) = ground (arith, e, digit)
no_unit (suc k) c unit (d ∷ s) e (digit, h) = no_unit k c unit s e h

transform-digits :
    (upper : ℕ → ℕ)
    → ((c : ℕ) → IsDigit c → upper c ≡ c)
    → (ds rest : Text) → All IsDigit ds
    → transform upper (ds ++ rest) ≡ ds ++ transform upper rest
transform-digits upper same [] rest h = refl
transform-digits upper same (d ∷ ds) rest (digit, h) =
    ground (arith, same d digit, transform-digits upper same ds rest h)

module _ (upper : ℕ → ℕ) (atoi : Text → ℤ) (read_int : Text → Option (ℤ × Text)) where
  read_megabytes :
      (ds : Text) (n : ℕ)
      → 1 ≤ length ds
      → atoi (ds ++ codes "MB") ≡ pos n
      → read_max_file_size upper atoi read_int (ds ++ codes "MB") ≡ pos (n * 1048576)
  unfolding read_max_file_size text_eq
  read_megabytes [] n h e = absurd (omega (arith, h))
  read_megabytes (d ∷ ds) n h e =
      let unit = drop-unit (d ∷ ds) b'M' b'B' in
      ground (arith, e, unit, length-append (d ∷ ds) (codes "MB"))

  read_kilobytes :
      (ds : Text) (n : ℕ)
      → 1 ≤ length ds
      → atoi (ds ++ codes "KB") ≡ pos n
      → read_max_file_size upper atoi read_int (ds ++ codes "KB") ≡ pos (n * 1024)
  unfolding read_max_file_size text_eq
  read_kilobytes [] n h e = absurd (omega (arith, h))
  read_kilobytes (d ∷ ds) n h e =
      let unit = drop-unit (d ∷ ds) b'K' b'B' in
      ground (arith, e, unit, length-append (d ∷ ds) (codes "KB"))

  read_bytes :
      (ds : Text) (n : ℕ)
      → 1 ≤ length ds
      → All IsDigit ds
      → atoi ds ≡ pos n
      → read_max_file_size upper atoi read_int ds ≡ pos n
  unfolding read_max_file_size
  read_bytes [] n h digit e = absurd (omega (arith, h))
  read_bytes (d ∷ ds) n h digit e =
      let mb = no_unit (length (d ∷ ds) - 2) b'M' (codes "B") (d ∷ ds) refl digit in
      let kb = no_unit (length (d ∷ ds) - 2) b'K' (codes "B") (d ∷ ds) refl digit in
      ground (arith, e, mb, kb)

  at_least :
      (props : Properties) (n : ℕ)
      → read_max_file_size upper atoi read_int
          (transform upper (get_property (codes "MaxFileSize") props))
        ≡ pos n
      → (new_rolling_file_appender upper atoi read_int props).0 ≡ pos (max 204800 n)
  unfolding new_rolling_file_appender init_sizes
  at_least props n e = ground (arith, e)

-- Properties never give a size below 200 KB or less than one backup.
pub new_rolling_file_appender-least :
    (upper : ℕ → ℕ) (atoi : Text → ℤ) (read_int : Text → Option (ℤ × Text)) (props : Properties)
    → (pos 204800 ≤ℤ (new_rolling_file_appender upper atoi read_int props).0)
      × (pos 1 ≤ℤ (new_rolling_file_appender upper atoi read_int props).1)
unfolding new_rolling_file_appender init_sizes
new_rolling_file_appender-least upper atoi read_int props = ground arith

-- A maximum size that is spelled as a decimal number n below 2^31, alone or with the unit MB or KB
-- behind it in letters of any case, is n times the unit and at least 200 KB, where `upper` keeps
-- digits and `atoi` reads the digits that a text starts with.
pub new_rolling_file_appender-spelled :
    (upper : ℕ → ℕ) (atoi : Text → ℤ) (read_int : Text → Option (ℤ × Text))
    → ((c : ℕ) → IsDigit c → upper c ≡ c)
    → ((ds rest : Text)
        → 1 ≤ length ds
        → All IsDigit ds
        → starts_digit rest ≡ false
        → value_of 0 ds < 2 ^ 31
        → atoi (ds ++ rest) ≡ pos (value_of 0 ds))
    → (props : Properties) (n : ℕ) (unit : Text) → n < 2 ^ 31
    → get_property (codes "MaxFileSize") props ≡ convert_integer_to_string 64 (pos n) ++ unit
    → (transform upper unit ≡ codes "MB"
        → (new_rolling_file_appender upper atoi read_int props).0 ≡ pos (max 204800 (n * 1048576)))
      × (transform upper unit ≡ codes "KB"
          → (new_rolling_file_appender upper atoi read_int props).0 ≡ pos (max 204800 (n * 1024)))
      × (transform upper unit ≡ []
          → (new_rolling_file_appender upper atoi read_int props).0 ≡ pos (max 204800 n))
new_rolling_file_appender-spelled upper atoi read_int same reads props n unit h e =
    let ds = convert_integer_to_string 64 (pos n) in
    let (value, digit) = convert-value_of n (omega (arith, h)) in
    let size = shown-length n (omega (arith, h)) in
    let text = ap (transform upper) e ∙ transform-digits upper same ds unit digit in
    let small : value_of 0 ds < 2 ^ 31 = rw value h in
    let read : (rest : Text) → starts_digit rest ≡ false → atoi (ds ++ rest) ≡ pos n =
      λ rest end. reads ds rest size digit end small ∙ ap pos value in
    let spelled : (rest : Text) (m : ℕ)
        → transform upper unit ≡ rest
        → read_max_file_size upper atoi read_int (ds ++ rest) ≡ pos m
        → (new_rolling_file_appender upper atoi read_int props).0 ≡ pos (max 204800 m) =
      λ rest m u r.
        at_least upper atoi read_int props m
          (ap (read_max_file_size upper atoi read_int) (text ∙ ap (λ x. ds ++ x) u) ∙ r) in
    (
      λ u.
          spelled (codes "MB") (n * 1048576) u
            (read_megabytes upper atoi read_int ds n size (read (codes "MB") refl)),
      λ u.
          spelled (codes "KB") (n * 1024) u
            (read_kilobytes upper atoi read_int ds n size (read (codes "KB") refl)),
      λ u. spelled [] n u (
          ap (read_max_file_size upper atoi read_int) (append-nil ds)
          ∙ read_bytes upper atoi read_int ds n size digit
              (ap atoi (sym (append-nil ds)) ∙ read [] refl)),
    )
