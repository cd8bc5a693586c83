-- ===== src/Layout/Parser/Patterns/Widths.antt =====
-- The width of a field: the alignment, the minimum length, and the maximum length behind a dot.
use log4cplus.Common.{
  ℕ, ◌+◌, ◌-◌, ◌*◌, ◌^◌, ◌%◌, ◌≤◌, ◌<◌, ◌≡◌, refl, Bool, true, false, not, ◌&&◌, Option, none, some,
  [], ◌∷◌, ◌++◌, Text, ℤ, pos, negsuc, ◌==◌, if◌then◌else◌, arith,
}
use log4cplus.Layout.{FormattingInfo}
use log4cplus.Layout.Parser.{
  ParserState, literal_state, converter_state, dot_state, min_state, max_state, is_digit,
}
use log4cplus.Layout.Parser.Patterns.{widths, Digits}
use log4cplus.Socket.Codec.{int_of_u32, u32_of_int}
use log4cplus.StringHelper.Decimal.{value_of}

pub value_of-le : (n : ℕ) (s : Text) → n ≤ value_of n s
unfolding value_of
value_of-le n [] = omega arith
value_of-le n (c ∷ s) = omega (arith, value_of-le (n * 10 + (c - b'0')) s)

pub min_digit :
    (n d : ℕ)
    → n * 10 + d < 2 ^ 31
    → int_of_u32 ((u32_of_int (pos n) * 10 + d) % 2 ^ 32) ≡ pos (n * 10 + d)
unfolding int_of_u32 u32_of_int
min_digit n d h = ground (arith, h)

pub first_digit : (n : ℕ) → n ≡ 0 * 10 + n
first_digit n = omega arith

-- The states in which a letter ends a field.
abbrev pub finishes : ParserState → Bool
finishes literal_state = false
finishes converter_state = true
finishes dot_state = false
finishes min_state = true
finishes max_state = true

-- Whether a field stops at the character: it is no digit, minus sign or dot.
abbrev pub is_letter : ℕ → Bool
is_letter c = not (is_digit c) && (not (c == b'-') && not (c == b'.'))

-- The maximum length: none, or the digits behind a dot, with a minus sign for cutting the end.
abbrev pub MaxLength : Type 0
MaxLength = Option (Bool × ℕ × Text)

unfoldable pub render_max : MaxLength → Text
render_max none = []
render_max (some (cut_end, d, ds)) = b'.' ∷ ((if cut_end then b'-' ∷ [] else []) ++ (d ∷ ds))

unfoldable pub max_length_of : MaxLength → ℕ
unfolding value_of
max_length_of none = 2 ^ 64 - 1
max_length_of (some (cut_end, d, ds)) = value_of 0 (d ∷ ds)

abbrev pub trim_of : MaxLength → Bool
trim_of none = true
trim_of (some (cut_end, d, ds)) = not cut_end

abbrev pub IsMaxLength : MaxLength → Type 0
IsMaxLength none = Unit
IsMaxLength (some (cut_end, d, ds)) = Digits (d ∷ ds) × (value_of 0 (d ∷ ds) < 2 ^ 64)

-- No digits leave the minimum length as it is.
unfoldable pub min_length_of : Text → ℤ
unfolding value_of
min_length_of [] = negsuc 0
min_length_of (d ∷ ds) = pos (value_of 0 (d ∷ ds))

pub record FieldWidth : Type 0 where
  pub left : Bool
  pub min_digits : Text
  pub maximum : MaxLength

abbrev pub IsFieldWidth : FieldWidth → Type 0
IsFieldWidth w = Digits w.min_digits × (value_of 0 w.min_digits < 2 ^ 31) × IsMaxLength w.maximum

unfoldable pub render_width : FieldWidth → Text
unfolding render_max
render_width w = (if w.left then b'-' ∷ [] else []) ++ (w.min_digits ++ render_max w.maximum)

abbrev pub info_of_width : FieldWidth → FormattingInfo
info_of_width w =
    widths (min_length_of w.min_digits) (max_length_of w.maximum) w.left (trim_of w.maximum)

-- The states in which a dot starts the maximum length.
abbrev pub dots : ParserState → Bool
dots literal_state = false
dots converter_state = true
dots dot_state = false
dots min_state = true
dots max_state = false

pub dots-finishes : (st : ParserState) → dots st ≡ true → finishes st ≡ true
dots-finishes literal_state d = cc
dots-finishes converter_state d = refl
dots-finishes dot_state d = cc
dots-finishes min_state d = refl
dots-finishes max_state d = cc
