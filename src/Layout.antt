-- ===== src/Layout.antt =====
-- src/patternlayout.cxx: the width of a formatted field.
pub mod Width
pub mod Converter
pub mod Parser
pub mod Literals
pub mod Precision
pub mod Depth
pub mod Fixed
use log4cplus.Common.{
  ℕ, ◌+◌, ◌-◌, ◌*◌, ◌^◌, ◌%◌, Bool, true, false, not, List, [], ◌∷◌, ◌++◌, Text, length, take, drop,
  replicate, ltb, ℤ, pos, negsuc, leb_ℤ, if◌then◌else◌,
}
use log4cplus.Socket.Codec.{int_of_u32}

pub record FormattingInfo : Type 0 where
  pub min_len : ℤ
  pub max_len : ℕ
  pub left_align : Bool
  pub trim_start : Bool

-- `FormattingInfo::reset`
abbrev pub reset : FormattingInfo
reset = record { min_len = negsuc 0; max_len = 2 ^ 64 - 1; left_align = false; trim_start = true }

-- Writing a string with a field width, filled with spaces.
abbrev pub padded : Bool → ℕ → Text → Text
padded left_align width s =
    if left_align
    then s ++ replicate (width - length s) 32
    else replicate (width - length s) 32 ++ s

abbrev pub width_of : ℤ → ℕ
width_of (pos n) = n
width_of (negsuc n) = 0

-- `PatternConverter::formatAndAppend`: what is written for the converted string.
unfoldable pub format_and_append : FormattingInfo → Text → Text
format_and_append info s =
    let len = length s in
    if ltb info.max_len len
    then if info.trim_start then drop (len - info.max_len) s else take info.max_len s
    else if not (leb_ℤ info.min_len (int_of_u32 (len % 2 ^ 32)))
    then padded info.left_align (width_of info.min_len) s
    else s
