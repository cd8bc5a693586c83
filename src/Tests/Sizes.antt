-- ===== src/Tests/Sizes.antt =====
-- Sizes from properties.
use log4cplus.Common.{
  ℕ, ◌+◌, ◌-◌, ◌*◌, ◌≡◌, refl, ap, false, ◌&&◌, Option, none, [], ◌∷◌, ◌++◌, Text, codes, text_eq,
  max, All, ℤ, pos, leb, if◌then◌else◌, arith,
}
use log4cplus.StringHelper.{transform, convert_integer_to_string}
use log4cplus.StringHelper.Decimal.{value_of, IsDigit}
use log4cplus.Property.{Properties, get_property}
use log4cplus.Rolling.Configured.{new_rolling_file_appender}
use log4cplus.Rolling.Sizes.{starts_digit, new_rolling_file_appender-spelled}

abbrev upper : ℕ → ℕ
upper c = if leb b'a' c && leb c b'z' then c - 32 else c

upper_digit : (c : ℕ) → IsDigit c → upper c ≡ c
upper_digit c digit = ground (arith, digit)

-- The number that the digits at the start of a text spell behind n.
abbrev atoi_from : ℕ → Text → ℕ
atoi_from n [] = n
atoi_from n (c ∷ s) =
    let rest = atoi_from (n * 10 + (c - b'0')) s in if leb b'0' c && leb c b'9' then rest else n

abbrev atoi : Text → ℤ
atoi s = pos (atoi_from 0 s)

stops : (n : ℕ) (rest : Text) → starts_digit rest ≡ false → atoi_from n rest ≡ n
stops n [] h = refl
stops n (c ∷ s) h = ground (arith, h)

reads :
    (n : ℕ) (ds rest : Text)
    → All IsDigit ds
    → starts_digit rest ≡ false
    → atoi_from n (ds ++ rest) ≡ value_of n ds
unfolding value_of
reads n [] rest h end = stops n rest end
reads n (d ∷ ds) rest (digit, h) end =
    ground (arith, digit, reads (n * 10 + (d - b'0')) ds rest h end)

abbrev no_int : Text → Option (ℤ × Text)
no_int s = none

abbrev size_props : Properties
size_props = (codes "MaxFileSize", codes "12mB") ∷ []

size_props_lem :
    get_property (codes "MaxFileSize") size_props
    ≡ convert_integer_to_string 64 (pos 12) ++ codes "mB"
unfolding get_property convert_integer_to_string text_eq
size_props_lem = refl

new_rolling_file_appender-spelled_example :
    (transform upper (codes "mB") ≡ codes "MB"
      → (new_rolling_file_appender upper atoi no_int size_props).0
        ≡ pos (max 204800 (12 * 1048576)))
    × (transform upper (codes "mB") ≡ codes "KB"
        → (new_rolling_file_appender upper atoi no_int size_props).0 ≡ pos (max 204800 (12 * 1024)))
    × (transform upper (codes "mB") ≡ []
        → (new_rolling_file_appender upper atoi no_int size_props).0 ≡ pos (max 204800 12))
new_rolling_file_appender-spelled_example =
    new_rolling_file_appender-spelled upper atoi no_int upper_digit
      (λ ds rest size h end small. ap pos (reads 0 ds rest h end)) size_props 12 (codes "mB")
      (omega arith) size_props_lem
