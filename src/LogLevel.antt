-- ===== src/LogLevel.antt =====
-- src/loglevel.cxx: the names of levels.
--
-- `upper` is the conversion of one character by `toUpper`. The errors that `pushLogLevel` throws
-- are `none`; the message for an unknown name is not modelled. A translator that an application
-- brings is not modelled: the list holds the default one and those of `pushLogLevel`.
pub mod Translation
use log4cplus.Common.{
  ℕ, Bool, true, false, ◌||◌, Option, none, some, List, [], ◌∷◌, ◌++◌, Text, codes, text_eq,
  is_empty, map, ℤ, pos, negsuc, leb_ℤ, eq_ℤ, not, if◌then◌else◌, ◌==◌,
}
use log4cplus.Hierarchy.{not_set_log_level, debug_log_level}
use log4cplus.Hierarchy.Operations.{info_log_level}

abbrev pub off_log_level : ℤ
off_log_level = pos 60000

abbrev pub fatal_log_level : ℤ
fatal_log_level = pos 50000

abbrev pub error_log_level : ℤ
error_log_level = pos 40000

abbrev pub warn_log_level : ℤ
warn_log_level = pos 30000

abbrev pub trace_log_level : ℤ
trace_log_level = pos 0

abbrev pub all_log_level : ℤ
all_log_level = trace_log_level

-- `DefaultLogLevelTranslator::toString`
unfoldable pub default_to_string : ℤ → Text
default_to_string ll =
    if eq_ℤ ll off_log_level
    then codes "OFF"
    else if eq_ℤ ll fatal_log_level
    then codes "FATAL"
    else if eq_ℤ ll error_log_level
    then codes "ERROR"
    else if eq_ℤ ll warn_log_level
    then codes "WARN"
    else if eq_ℤ ll info_log_level
    then codes "INFO"
    else if eq_ℤ ll debug_log_level
    then codes "DEBUG"
    else if eq_ℤ ll trace_log_level
    then codes "TRACE"
    else if eq_ℤ ll not_set_log_level
    then codes "NOTSET"
    else []

-- One case of the switch: the character has been matched.
abbrev pub match_level : Text → Text → ℤ → ℤ
match_level name s log_level = if text_eq s name then log_level else not_set_log_level

-- `DefaultLogLevelTranslator::fromString`, a switch on the first character.
unfoldable pub default_from_string : Text → ℤ
default_from_string [] = not_set_log_level
default_from_string (c ∷ cs) =
    if c == 79
    then match_level (codes "OFF") (c ∷ cs) off_log_level
    else if c == 70
    then match_level (codes "FATAL") (c ∷ cs) fatal_log_level
    else if c == 69
    then match_level (codes "ERROR") (c ∷ cs) error_log_level
    else if c == 87
    then match_level (codes "WARN") (c ∷ cs) warn_log_level
    else if c == 73
    then match_level (codes "INFO") (c ∷ cs) info_log_level
    else if c == 68
    then match_level (codes "DEBUG") (c ∷ cs) debug_log_level
    else if c == 84
    then match_level (codes "TRACE") (c ∷ cs) trace_log_level
    else if c == 65
    then match_level (codes "ALL") (c ∷ cs) all_log_level
    else not_set_log_level

pub data Translator : Type 0 where
  default : Translator
  single : ℤ → Text → Translator

unfoldable pub to_string_by : Translator → ℤ → Text
unfolding default_to_string
to_string_by default ll = default_to_string ll
to_string_by (single log_level name) ll = if eq_ℤ ll log_level then name else []

unfoldable pub from_string_by : Translator → Text → ℤ
unfolding default_from_string
from_string_by default s = default_from_string s
from_string_by (single log_level name) s = if text_eq s name then log_level else not_set_log_level

-- The constructor of `LogLevelManager`.
abbrev pub new_manager : List Translator
new_manager = default ∷ []

unfoldable pub to_string : List Translator → ℤ → Text
unfolding to_string_by
to_string [] ll = codes "UNKNOWN"
to_string (t ∷ translators) ll =
    let rest = to_string translators ll in
    if not (is_empty (to_string_by t ll)) then to_string_by t ll else rest

-- The loop of `fromString`, on the name in upper case.
unfoldable pub from_upper : List Translator → Text → ℤ
unfolding from_string_by
from_upper [] s = not_set_log_level
from_upper (t ∷ translators) s =
    let rest = from_upper translators s in
    if not (eq_ℤ (from_string_by t s) not_set_log_level) then from_string_by t s else rest

unfoldable pub from_string : (ℕ → ℕ) → List Translator → Text → ℤ
unfolding from_upper
from_string upper translators arg = from_upper translators (map upper arg)

unfoldable pub push_log_level : ℤ → Text → List Translator → Option (List Translator)
push_log_level ll name translators =
    if not (leb_ℤ (pos 0) ll)
    then none
    else if is_empty name
    then none
    else some (translators ++ single ll name ∷ [])
