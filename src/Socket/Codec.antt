-- ===== src/Socket/Codec.antt =====
-- Numbers in network byte order, and the conversions between `int` and `unsigned`.
use log4cplus.Common.{
  ℕ, zero, suc, ◌+◌, ◌-◌, ◌*◌, ◌/◌, ◌%◌, ◌^◌, ◌<◌, ◌≡◌, refl, List, [], ◌∷◌, ◌++◌, length, arith,
  ltb, if◌then◌else◌, ℤ, pos, negsuc, length-append,
}

-- `htons` and `htonl`, stored: the most significant byte first.
unfoldable pub be_bytes : ℕ → ℕ → List ℕ
be_bytes zero v = []
be_bytes (suc n) v = be_bytes n (v / 256) ++ v % 256 ∷ []

-- `ntohs` and `ntohl` of the bytes.
unfoldable pub be_value : ℕ → List ℕ → ℕ
be_value acc [] = acc
be_value acc (x ∷ xs) = be_value (acc * 256 + x) xs

unfoldable pub u32_of_int : ℤ → ℕ
u32_of_int (pos n) = n % 2 ^ 32
u32_of_int (negsuc n) = 2 ^ 32 - 1 - n % 2 ^ 32

unfoldable pub int_of_u32 : ℕ → ℤ
int_of_u32 n = if ltb n (2 ^ 31) then pos n else negsuc (2 ^ 32 - 1 - n)

-- The range of `int`.
abbrev pub IsInt : ℤ → Type 0
IsInt (pos n) = n < 2 ^ 31
IsInt (negsuc n) = n < 2 ^ 31

pub int_of_u32-u32_of_int : (i : ℤ) → IsInt i → int_of_u32 (u32_of_int i) ≡ i
unfolding int_of_u32 u32_of_int
int_of_u32-u32_of_int (pos n) h = ground arith
int_of_u32-u32_of_int (negsuc n) h = ground arith

pub u32_of_int-lt : (i : ℤ) → u32_of_int i < 2 ^ 32
unfolding u32_of_int
u32_of_int-lt (pos n) = omega arith
u32_of_int-lt (negsuc n) = omega arith

pub length-be_bytes : (n v : ℕ) → length (be_bytes n v) ≡ n
unfolding be_bytes
length-be_bytes zero v = refl
length-be_bytes (suc n) v =
    omega (arith, length-append (be_bytes n (v / 256)) (v % 256 ∷ []), length-be_bytes n (v / 256))

be_value-append :
    (acc x : ℕ) (xs : List ℕ) → be_value acc (xs ++ x ∷ []) ≡ be_value acc xs * 256 + x
unfolding be_value
be_value-append acc x [] = refl
be_value-append acc x (y ∷ xs) = be_value-append (acc * 256 + y) x xs

-- What is written in one byte and in four is read back.
pub be_value-byte : (v : ℕ) → v < 256 → be_value 0 (be_bytes 1 v) ≡ v
unfolding be_value be_bytes
be_value-byte v h = omega arith

pub be_value-int : (v : ℕ) → v < 2 ^ 32 → be_value 0 (be_bytes 4 v) ≡ v
unfolding be_value be_bytes
be_value-int v h = omega arith
