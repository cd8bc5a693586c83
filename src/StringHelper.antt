-- ===== src/StringHelper.antt =====
-- include/log4cplus/helpers/stringhelper.h and src/stringhelper.cxx: splitting and joining texts,
-- and printing integers.
pub mod Tokens
pub mod Decimal
use log4cplus.Common.{
  ℕ, zero, suc, ◌+◌, ◌-◌, ◌*◌, ◌/◌, ◌%◌, ◌^◌, Bool, true, false, not, ◌&&◌, List, [], ◌∷◌, ◌++◌,
  Text, is_empty, map, ℤ, pos, negsuc, ◌==◌, if◌then◌else◌,
}

-- The loop of `tokenize` with the delimiter c: `token` is the text from `first` on, and `skipping`
-- says that the loop over repeated delimiters runs.
unfoldable pub tokenize_loop : ℕ → Bool → Bool → Text → Text → List Text
tokenize_loop c collapse_tokens skipping [] token =
    if not (is_empty token) then token ∷ [] else if not collapse_tokens then [] ∷ [] else []
tokenize_loop c collapse_tokens skipping (x ∷ s) token = elim (skipping && x == c) [
  | true ↦ tokenize_loop c collapse_tokens true s token
  | false ↦ elim (x == c) [
    | true ↦ token ∷ tokenize_loop c collapse_tokens collapse_tokens s []
    | false ↦ tokenize_loop c collapse_tokens false s (token ++ x ∷ [])
  ]
]

unfoldable pub tokenize : ℕ → Bool → Text → List Text
unfolding tokenize_loop
tokenize c collapse_tokens s = tokenize_loop c collapse_tokens false s []

-- The loop of `join_worker`.
unfoldable pub join_rest : Text → Text → List Text → Text
join_rest sep result [] = result
join_rest sep result (item ∷ items) = join_rest sep (result ++ (sep ++ item)) items

unfoldable pub join : Text → List Text → Text
unfolding join_rest
join sep [] = []
join sep (item ∷ items) = join_rest sep item items

-- `toUpper` and `toLower` of a text; the conversion of a character is the C library's.
abbrev pub transform : (ℕ → ℕ) → Text → Text
transform convert s = map convert s

-- The loop of `convertIntegerToString`; a value of w bits has fewer than w decimal digits.
unfoldable pub digits : ℕ → ℕ → Text → Text
digits zero value out = out
digits (suc fuel) value out = elim (value == 0) [
  | true ↦ out
  | false ↦ digits fuel (value / 10) ((b'0' + value % 10) ∷ out)
]

-- The digits of the negative value - m, in w bits. The smallest value has no positive counterpart:
-- its last digit is split off first.
unfoldable pub negative_digits : ℕ → ℕ → Text
unfolding digits
negative_digits w m =
    if m == 2 ^ (w - 1) then digits w (m / 10) ((b'0' + (m - m / 10 * 10)) ∷ []) else digits w m []

-- `convertIntegerToString` of a signed type of w bits.
unfoldable pub convert_integer_to_string : ℕ → ℤ → Text
unfolding digits negative_digits
convert_integer_to_string w (pos value) = if value == 0 then b'0' ∷ [] else digits w value []
convert_integer_to_string w (negsuc n) = b'-' ∷ negative_digits w (suc n)
