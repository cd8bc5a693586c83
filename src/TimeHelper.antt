-- ===== src/TimeHelper.antt =====
-- src/timehelper.cxx and include/log4cplus/helpers/timehelper.h: points in time and their formatting.
--
-- A point in time is its number of microseconds since the epoch, and none is before it. The broken
-- down time `Tm` is made by the C library, whose strftime is a parameter: it gives the whole text,
-- and a call with a buffer returns 0 where the text and its end do not fit. `time_t` has 64 bits.
pub mod Fractions
pub mod Buffer
pub mod Directives
use log4cplus.Common.{
  ℕ, zero, suc, ◌+◌, ◌-◌, ◌*◌, ◌/◌, ◌%◌, max, Bool, true, false, List, [], ◌∷◌, ◌++◌, Text, codes,
  length, pos, leb, ltb, ◌==◌, if◌then◌else◌,
}
use log4cplus.StringHelper.{convert_integer_to_string}

pub record Tm : Type 0 where
  pub tm_sec : ℕ
  pub tm_min : ℕ
  pub tm_hour : ℕ
  pub tm_mday : ℕ
  pub tm_mon : ℕ
  pub tm_year : ℕ
  pub tm_wday : ℕ

abbrev pub from_time_t : ℕ → ℕ
from_time_t s = s * 1000000

abbrev pub to_time_t : ℕ → ℕ
to_time_t time = time / 1000000

abbrev pub truncate_fractions : ℕ → ℕ
truncate_fractions time = from_time_t (to_time_t time)

abbrev pub microseconds_part : ℕ → ℕ
microseconds_part time = time - from_time_t (to_time_t time)

-- `padding_zeros` for texts of at most three characters.
abbrev pub padding_zeros : ℕ → Text
padding_zeros n =
    if n == 0 then codes "000" else if n == 1 then codes "00" else if n == 2 then codes "0" else []

unfoldable pub build_q_value : ℕ → Text
build_q_value usec =
    let q = convert_integer_to_string 64 (pos (usec / 1000)) in
    if leb (length q) 2 then padding_zeros (length q) ++ q else q

unfoldable pub build_uc_q_value : ℕ → Text
unfolding build_q_value
build_uc_q_value usec =
    let tmp = convert_integer_to_string 64 (pos (usec % 1000)) in
    build_q_value usec
    ++ ((if leb (length tmp) 3 then codes "." ++ padding_zeros (length tmp) else codes ".") ++ tmp)

-- What `getFormattedTime` puts for the character behind a percent sign.
unfoldable pub directive : ℕ → ℕ → Text
directive time c =
    if c == b'q'
    then build_q_value (microseconds_part time)
    else if c == b'Q'
    then build_uc_q_value (microseconds_part time)
    else if c == b's'
    then convert_integer_to_string 64 (pos (to_time_t time))
    else b'%' ∷ c ∷ []

-- The walk over the format; the state is PERCENT_SIGN if `percent`, else TEXT.
unfoldable pub walk : ℕ → Bool → Text → Text → Text
walk time percent [] ret = ret
walk time true (c ∷ fmt) ret = walk time false fmt (ret ++ directive time c)
walk time false (c ∷ fmt) ret =
    walk time (c == b'%') fmt (if c == b'%' then ret else ret ++ (c ∷ []))

-- `failed` is the exception that the error handler of LogLog throws, and `stuck` a model loop that
-- ran out of fuel.
pub data Formatted : Type 0 where
  formatted : Text → Formatted
  failed stuck : Formatted

-- The loop over the buffer's size; strftime writes `text` if it fits.
unfoldable pub buffer_loop : ℕ → ℕ → Text → ℕ → Formatted
buffer_loop zero buffer_size_max text buffer_size = stuck
buffer_loop (suc fuel) buffer_size_max text buffer_size =
    let len = if ltb (length text) buffer_size then length text else 0 in
    let again = buffer_loop fuel buffer_size_max text (buffer_size * 2) in
    if len == 0
    then (if ltb buffer_size_max (buffer_size * 2) then failed else again)
    else formatted text

-- `getFormattedTime` with the broken down time; `capacity` is that of the thread's buffer.
unfoldable pub get_formatted_time : (Text → Tm → Text) → ℕ → ℕ → Text → ℕ → Tm → Formatted
unfolding walk buffer_loop
get_formatted_time strftime fuel capacity [] time tm = formatted []
get_formatted_time strftime fuel capacity (c ∷ fmt) time tm =
    if c == 0
    then formatted []
    else let fmt' = walk time false (c ∷ fmt) [] in
      let buffer_size = length fmt' + 1 in
      buffer_loop fuel (max 1024 (buffer_size * 16)) (strftime fmt' tm) (max buffer_size capacity)
