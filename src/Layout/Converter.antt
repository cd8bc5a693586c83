-- ===== src/Layout/Converter.antt =====
-- src/patternlayout.cxx: the converters of a pattern layout, each with what it writes for an event.
--
-- `Surroundings` holds what converters take from elsewhere: the translators of level names, the
-- process, the environment, the formatting of a time stamp (by the repository's `getFormattedTime`
-- and `formatRelativeTimestamp`, which are not modelled). A position in a text is a 64-bit number
-- that wraps around, and `npos` is the greatest.
use log4cplus.Common.{
  ℕ, zero, suc, ◌+◌, ◌-◌, ◌^◌, ◌%◌, Bool, ◌&&◌, Option, none, some, List, [], ◌∷◌, ◌++◌, Text,
  codes, is_empty, length, take, drop, ℤ, pos, negsuc, eq_ℤ, leb, ◌==◌, if◌then◌else◌,
}
use log4cplus.Common.Map.{Map}
use log4cplus.Event.{LoggingEvent, get_mdc}
use log4cplus.Layout.{FormattingInfo, reset, format_and_append}
use log4cplus.LogLevel.{Translator, to_string}
use log4cplus.StringHelper.{convert_integer_to_string}

pub data BasicType : Type 0 where
  thread_converter : BasicType
  thread2_converter : BasicType
  process_converter : BasicType
  loglevel_converter : BasicType
  ndc_converter : BasicType
  message_converter : BasicType
  newline_converter : BasicType
  basename_converter : BasicType
  file_converter : BasicType
  line_converter : BasicType
  full_location_converter : BasicType
  function_converter : BasicType

-- The converters, by their classes; `hostname` holds the name that it was made with.
pub data Converter : Type 0 where
  literal : Text → Converter
  basic : FormattingInfo → BasicType → Converter
  logger : FormattingInfo → ℤ → Converter
  date : FormattingInfo → Text → Bool → Converter
  env : FormattingInfo → Text → Converter
  relative_timestamp : FormattingInfo → Converter
  hostname : FormattingInfo → Text → Converter
  mdc : FormattingInfo → Text → Converter
  ndc : FormattingInfo → ℤ → Converter

pub record Surroundings : Type 0 where
  pub translators : List Translator
  pub process_id : ℕ
  pub get_env_var : Text → Option Text
  pub format_time : Text → LoggingEvent → Bool → Text
  pub format_relative : LoggingEvent → Text

abbrev pub npos : ℕ
npos = 2 ^ 64 - 1

-- One less, in 64 bits.
abbrev pub before : ℕ → ℕ
before n = (n + npos) % 2 ^ 64

-- `rfind (c, p)`: the last c at a position of at most p. The text starts at position i.
unfoldable pub rfind : ℕ → ℕ → ℕ → Text → Option ℕ → Option ℕ
rfind c p i [] found = found
rfind c p i (x ∷ s) found = rfind c p (suc i) s (if leb i p && x == c then some i else found)

-- `find (c, p)`: the first c at a position of at least p.
unfoldable pub find_from : ℕ → ℕ → ℕ → Text → Option ℕ
find_from c p i [] = none
find_from c p i (x ∷ s) =
    let rest = find_from c p (suc i) s in if leb p i && x == c then some i else rest

unfoldable pub get_basename : Text → Text
unfolding rfind
get_basename filename = elim (rfind b'/' npos 0 filename none) [
  | none ↦ filename
  | some p ↦ drop (p + 1) filename
]

-- `BasicPatternConverter::convert`
unfoldable pub convert_basic : Surroundings → LoggingEvent → BasicType → Text
unfolding get_basename to_string convert_integer_to_string
convert_basic around ev thread_converter = ev.thread
convert_basic around ev thread2_converter = ev.thread2
convert_basic around ev process_converter = convert_integer_to_string 32 (pos around.process_id)
convert_basic around ev loglevel_converter = to_string around.translators ev.ll
convert_basic around ev ndc_converter = ev.ndc
convert_basic around ev message_converter = ev.message
convert_basic around ev newline_converter = 10 ∷ []
convert_basic around ev basename_converter = get_basename ev.file
convert_basic around ev file_converter = ev.file
convert_basic around ev line_converter =
    if eq_ℤ ev.line (negsuc 0) then [] else convert_integer_to_string 32 ev.line
convert_basic around ev full_location_converter =
    if is_empty ev.file
    then codes ":"
    else ev.file ++ (codes ":" ++ convert_integer_to_string 32 ev.line)
convert_basic around ev function_converter = ev.function

-- The loop of `LoggerPatternConverter::convert`.
unfoldable pub logger_loop : Text → ℕ → ℕ → Text
unfolding rfind
logger_loop name zero end = drop (end + 1) name
logger_loop name (suc i) end = elim (rfind b'.' (before end) 0 name none) [
  | none ↦ name
  | some end' ↦ logger_loop name i end'
]

unfoldable pub convert_logger : ℤ → Text → Text
unfolding logger_loop
convert_logger (negsuc n) name = name
convert_logger (pos zero) name = name
convert_logger (pos (suc n)) name = logger_loop name (suc n) (before (length name))

unfoldable pub convert_mdc_copy : Map Text → Text
convert_mdc_copy [] = []
convert_mdc_copy ((name, value) ∷ entries) =
    codes "{" ++ (name ++ (codes ", " ++ (value ++ (codes "}" ++ convert_mdc_copy entries))))

-- The loop of `NDCPatternConverter::convert`, with its remaining rounds.
unfoldable pub ndc_loop : Text → ℕ → Option ℕ → Text
unfolding find_from
ndc_loop text rounds none = text
ndc_loop text zero (some p) = take p text
ndc_loop text (suc rounds) (some p) = ndc_loop text rounds (find_from b' ' (p + 1) 0 text)

unfoldable pub convert_ndc : ℤ → Text → Text
unfolding ndc_loop find_from
convert_ndc (negsuc n) text = text
convert_ndc (pos zero) text = text
convert_ndc (pos (suc n)) text = ndc_loop text n (find_from b' ' 0 0 text)

unfoldable pub convert : Surroundings → LoggingEvent → Converter → Text
unfolding convert_basic convert_logger convert_mdc_copy convert_ndc get_mdc
convert around ev (literal str) = str
convert around ev (basic info type) = convert_basic around ev type
convert around ev (logger info precision) = convert_logger precision ev.logger_name
convert around ev (date info format use_gmtime) = around.format_time format ev use_gmtime
convert around ev (env info key) = elim (around.get_env_var key) [ none ↦ [] | some value ↦ value ]
convert around ev (relative_timestamp info) = around.format_relative ev
convert around ev (hostname info name) = name
convert around ev (mdc info key) = if is_empty key then convert_mdc_copy ev.mdc else get_mdc ev key
convert around ev (ndc info precision) = convert_ndc precision ev.ndc

abbrev pub info_of : Converter → FormattingInfo
info_of (literal str) = reset
info_of (basic info type) = info
info_of (logger info precision) = info
info_of (date info format use_gmtime) = info
info_of (env info key) = info
info_of (relative_timestamp info) = info
info_of (hostname info name) = info
info_of (mdc info key) = info
info_of (ndc info precision) = info

-- `PatternLayout::formatAndAppend`: what the converters write, one after the other.
unfoldable pub format_event : Surroundings → LoggingEvent → List Converter → Text
unfolding convert format_and_append
format_event around ev [] = []
format_event around ev (pc ∷ converters) =
    format_and_append (info_of pc) (convert around ev pc) ++ format_event around ev converters
