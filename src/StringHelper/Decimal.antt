-- ===== src/StringHelper/Decimal.antt =====
-- The decimal digits that `convertIntegerToString` writes.
use native.Mathlib.Nat.{pow-succ', pow-le-pow_left, two-pow-succ}
use log4cplus.Common.{
  ℕ, zero, suc, ◌+◌, ◌-◌, ◌*◌, ◌/◌, ◌%◌, ◌^◌, ◌≤◌, ◌<◌, ◌≡◌, refl, ◌∙◌, [], ◌∷◌, Text, length, All,
  ap, ℤ, pos, negsuc, ◌==◌, if◌then◌else◌, Bool-cases, inl, inr, arith,
}
use log4cplus.StringHelper.{digits, negative_digits, convert_integer_to_string}

-- The number that digits spell behind n.
unfoldable pub value_of : ℕ → Text → ℕ
value_of n [] = n
value_of n (c ∷ s) = value_of (n * 10 + (c - b'0')) s

pow10 : (k : ℕ) → 10 ^ suc k ≡ 10 * 10 ^ k
pow10 k = pow-succ' 10 k

pub value_of-digits :
    (fuel value : ℕ) (out : Text)
    → value < 10 ^ fuel
    → value_of 0 (digits fuel value out) ≡ value_of value out
unfolding digits value_of
value_of-digits zero value out h = let z : value ≡ 0 = omega (arith, h) in rw z refl
value_of-digits (suc fuel) value out h = elim (Bool-cases (value == 0)) [
  | inl e ↦ ground (arith, e)
  | inr e ↦
      ground
        (arith, e, value_of-digits fuel (value / 10) ((b'0' + value % 10) ∷ out), pow10 fuel, h)
]

length-digits :
    (fuel k value : ℕ) (out : Text)
    → value < 10 ^ k
    → length (digits fuel value out) ≤ k + length out
unfolding digits
length-digits zero k value out h = omega arith
length-digits (suc fuel) zero value out h = ground (arith, h)
length-digits (suc fuel) (suc k) value out h = elim (Bool-cases (value == 0)) [
  | inl e ↦ ground (arith, e)
  | inr e ↦
      ground (arith, e, length-digits fuel k (value / 10) ((b'0' + value % 10) ∷ out), pow10 k, h)
]

abbrev pub IsDigit : ℕ → Type 0
IsDigit c = (b'0' ≤ c) × (c ≤ b'9')

pub digits-IsDigit :
    (fuel value : ℕ) (out : Text) → All IsDigit out → All IsDigit (digits fuel value out)
unfolding digits
digits-IsDigit zero value out d = d
digits-IsDigit (suc fuel) value out d = elim (Bool-cases (value == 0)) [
  | inl e ↦ rw (e, digits) d
  | inr e ↦
      rw (e, digits) (digits-IsDigit fuel (value / 10) ((b'0' + value % 10) ∷ out) (omega arith, d))
]

-- How a decimal number with an optional sign is read.
abbrev minus : ℕ → ℤ
minus zero = pos 0
minus (suc n) = negsuc n

unfoldable pub read_integer : Text → ℤ
unfolding value_of
read_integer [] = pos 0
read_integer (c ∷ s) = if c == b'-' then minus (value_of 0 s) else pos (value_of 0 (c ∷ s))

read-IsDigit : (s : Text) → All IsDigit s → read_integer s ≡ pos (value_of 0 s)
unfolding read_integer value_of
read-IsDigit [] d = refl
read-IsDigit (c ∷ s) (h, d) = ground (arith, h)

ten_pos : (w : ℕ) → 1 ≤ 10 ^ w
ten_pos zero = omega arith
ten_pos (suc w) = omega (arith, ten_pos w, pow10 w)

pub two_ten : (w : ℕ) → 2 ^ w ≤ 10 ^ w
two_ten w = pow-le-pow_left (omega arith) w

read-digits : (w n : ℕ) → n < 2 ^ w → read_integer (digits w n []) ≡ pos n
read-digits w n h =
    read-IsDigit (digits w n []) (digits-IsDigit w n [] tt)
    ∙ ap pos (value_of-digits w n [] (omega (arith, h, two_ten w)) ∙ unfold value_of in refl)

-- The digits of a negative number read back as its magnitude, and there are few of them.
negative_digits_lem :
    (w d m : ℕ)
    → 2 ^ w < 10 ^ suc d
    → m ≤ 2 ^ w
    → (value_of 0 (negative_digits (suc w) m) ≡ m) × (length (negative_digits (suc w) m) ≤ suc d)
unfolding negative_digits
negative_digits_lem w d m wide h =
    let k : suc w - 1 ≡ w = omega arith in
    let low = (b'0' + (m - m / 10 * 10)) ∷ [] in
    rw k (elim (Bool-cases (m == 2 ^ w)) [
      | inl e ↦ rw e (
        value_of-digits (suc w) (m / 10) low (omega (arith, h, two_ten w, ten_pos w, pow10 w))
            ∙ unfold value_of in omega arith,
        omega (arith, length-digits (suc w) d (m / 10) low (omega (arith, wide, h, pow10 d))),
      )
      | inr e ↦ rw e (
        value_of-digits (suc w) m [] (omega (arith, h, two_ten w, ten_pos w, pow10 w))
            ∙ unfold value_of in refl,
        omega (arith, length-digits (suc w) (suc d) m [] (omega (arith, wide, h))),
      )
    ])

-- The range of a signed integer of w bits.
abbrev pub InRange : ℕ → ℤ → Type 0
InRange w (pos n) = n < 2 ^ (w - 1)
InRange w (negsuc n) = n < 2 ^ (w - 1)

-- For a signed type of w bits whose numbers have at most d + 1 digits, every value, the smallest
-- one included, is written as a text that reads back as the value, and the text fits in the buffer
-- of d + 2 characters.
pub convert_lem :
    (w d : ℕ) (v : ℤ)
    → 2 ^ w < 10 ^ suc d
    → InRange (suc w) v
    → (read_integer (convert_integer_to_string (suc w) v) ≡ v)
      × (length (convert_integer_to_string (suc w) v) ≤ d + 2)
unfolding convert_integer_to_string read_integer
convert_lem w d (pos n) wide h =
    let k : suc w - 1 ≡ w = omega arith in
    let fits : n < 2 ^ w = rw k at h in
    elim (Bool-cases (n == 0)) [
      | inl e ↦ unfold value_of in ground (arith, e)
      | inr e ↦ rw e (
        read-digits (suc w) n (omega (arith, fits, two-pow-succ w)),
        omega (arith, length-digits (suc w) (suc d) n [] (omega (arith, wide, fits))),
      )
    ]
convert_lem w d (negsuc n) wide h =
    let k : suc w - 1 ≡ w = omega arith in
    let fits : suc n ≤ 2 ^ w = rw k at h in
    let (same, short) = negative_digits_lem w d (suc n) wide fits in
    (rw same refl, omega (arith, short))

-- What `convertIntegerToString` writes for a number of 64 bits are digits that spell the number.
pub convert-value_of :
    (n : ℕ)
    → n < 2 ^ 64
    → (value_of 0 (convert_integer_to_string 64 (pos n)) ≡ n)
      × All IsDigit (convert_integer_to_string 64 (pos n))
unfolding convert_integer_to_string
convert-value_of n h = elim (Bool-cases (n == 0)) [
  | inl e ↦ rw e (unfold value_of in ground (arith, e), omega arith)
  | inr e ↦ rw e (
    value_of-digits 64 n [] (omega (arith, h, two_ten 64)) ∙ unfold value_of in refl,
    digits-IsDigit 64 n [] tt,
  )
]
