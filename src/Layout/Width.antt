-- ===== src/Layout/Width.antt =====
-- The length and the place of a formatted field.
use native.Mathlib.Decide.{dec_le}
use log4cplus.Common.{
  ℕ, ◌-◌, ◌^◌, ◌%◌, ◌≤◌, ◌≡◌, Bool, true, false, Text, length, replicate, length-take, length-drop,
  length-append, length-replicate, max, ltb, ℤ, pos, negsuc, leb_ℤ, ◌≤ℤ◌, if◌then◌else◌, Bool-cases,
  inl, inr, arith,
}
use log4cplus.Common.Int.{leb_ℤ_iff}
use log4cplus.Socket.Codec.{int_of_u32}
use log4cplus.Layout.{FormattingInfo, padded, width_of, format_and_append}

-- The cast of a length to int never makes a field look wider than it is.
width_of-int_of_u32 :
    (min_len : ℤ) (len : ℕ) → min_len ≤ℤ int_of_u32 (len % 2 ^ 32) → width_of min_len ≤ len
unfolding int_of_u32
width_of-int_of_u32 (negsuc n) len h = omega arith
width_of-int_of_u32 (pos n) len h = elim (dec_le (2 ^ 31) (len % 2 ^ 32)) [
  | yes wraps ↦ ground (arith, wraps, h)
  | no small ↦ ground (arith, small, h)
]

length-padded :
    (left_align : Bool) (width : ℕ) (s : Text)
    → length (padded left_align width s) ≡ max (length s) width
length-padded true width s = omega (
  arith,
  length-append s (replicate (width - length s) 32),
  length-replicate {A = ℕ} (width - length s) 32,
)
length-padded false width s = omega (
  arith,
  length-append (replicate (width - length s) 32) s,
  length-replicate {A = ℕ} (width - length s) 32,
)

-- What is written for a field is as long as the field, but at least the minimum and at most the
-- maximum length, and the maximum wins; this holds for fields of any length, also where the cast of
-- the length to int wraps.
pub length-format_and_append :
    (info : FormattingInfo) (s : Text)
    → length (format_and_append info s) ≡ (
        if ltb info.max_len (length s)
        then info.max_len
        else max (length s) (width_of info.min_len))
unfolding format_and_append
length-format_and_append info s =
    let cast = int_of_u32 (length s % 2 ^ 32) in
    elim (dec_le (length s) info.max_len) [
      | no over ↦ elim (Bool-cases info.trim_start) [
        | inl e ↦ ground (arith, over, e, length-drop (length s - info.max_len) s)
        | inr e ↦ ground (arith, over, e, length-take info.max_len s)
      ]
      | yes within ↦ elim (Bool-cases (leb_ℤ info.min_len cast)) [
        | inl e ↦ ground (
          arith,
          within,
          e,
          width_of-int_of_u32 info.min_len (length s) ((leb_ℤ_iff info.min_len cast).0 e),
        )
        | inr e ↦ ground (arith, within, e, length-padded info.left_align (width_of info.min_len) s)
      ]
    ]
