-- ===== src/Syslog.antt =====
-- src/syslogappender.cxx: the priorities and the messages of `SysLogAppender`.
--
-- The codes of priorities and facilities are those that the source defines for systems without
-- syslog.h. Numbers on a stream and the identifier of the process are parameters.
pub mod Priorities
pub mod Frames
use Prim.Native.Nat.{bit_or}
use log4cplus.Common.{
  ℕ, zero, suc, ◌+◌, ◌*◌, Bool, true, false, not, List, [], ◌∷◌, ◌++◌, Text, codes, text_eq,
  is_empty, length, take, ℤ, pos, leb_ℤ, eq_ℤ, if◌then◌else◌,
}
use log4cplus.StringHelper.{convert_integer_to_string}
use log4cplus.LogLevel.{warn_log_level, error_log_level, fatal_log_level}
use log4cplus.Hierarchy.Operations.{info_log_level}

abbrev pub log_alert : ℕ
log_alert = 1

abbrev pub log_crit : ℕ
log_crit = 2

abbrev pub log_err : ℕ
log_err = 3

abbrev pub log_warning : ℕ
log_warning = 4

abbrev pub log_info : ℕ
log_info = 6

abbrev pub log_debug : ℕ
log_debug = 7

unfoldable pub get_sys_log_level : ℤ → ℕ
get_sys_log_level ll =
    if not (leb_ℤ info_log_level ll)
    then log_debug
    else if not (leb_ℤ warn_log_level ll)
    then log_info
    else if not (leb_ℤ error_log_level ll)
    then log_warning
    else if not (leb_ℤ fatal_log_level ll)
    then log_err
    else if eq_ℤ ll fatal_log_level
    then log_crit
    else log_alert

-- The names of the facilities, with their numbers; the codes are the numbers times 8.
abbrev pub facilities : List (Text × ℕ)
facilities =
    (codes "auth", 4)
    ∷ (codes "authpriv", 10)
    ∷ (codes "console", 14)
    ∷ (codes "cron", 9)
    ∷ (codes "daemon", 3)
    ∷ (codes "ftp", 11)
    ∷ (codes "kern", 0)
    ∷ (codes "local0", 16)
    ∷ (codes "local1", 17)
    ∷ (codes "local2", 18)
    ∷ (codes "local3", 19)
    ∷ (codes "local4", 20)
    ∷ (codes "local5", 21)
    ∷ (codes "local6", 22)
    ∷ (codes "local7", 23)
    ∷ (codes "lpr", 6)
    ∷ (codes "mail", 2)
    ∷ (codes "news", 7)
    ∷ (codes "ntp", 12)
    ∷ (codes "security", 13)
    ∷ (codes "syslog", 5)
    ∷ (codes "user", 1)
    ∷ (codes "uucp", 8)
    ∷ []

abbrev pub fallback_facility : ℕ
fallback_facility = 8

-- The comparisons of `parseFacility`, in the source's order.
unfoldable pub find_facility : Text → List (Text × ℕ) → ℕ
find_facility text [] = fallback_facility
find_facility text ((name, number) ∷ rest) =
    if text_eq text name then number * 8 else find_facility text rest

unfoldable pub parse_facility : Text → ℕ
unfolding find_facility
parse_facility text = if is_empty text then fallback_facility else find_facility text facilities

unfoldable pub substr_or_nil : Text → ℕ → Text
substr_or_nil str limit = if is_empty str then codes "-" else take limit str

abbrev pub remote_time_format : Text
remote_time_format = codes "%Y-%m-%dT%H:%M:%S.%qZ"

-- The message of `appendRemote`; `shown` writes a number, `time` is the formatted time stamp and
-- `text` what the layout writes.
unfoldable pub remote_message : (ℕ → Text) → ℕ → ℤ → Text → Text → Text → Text → Text → Text → Text
unfolding get_sys_log_level substr_or_nil
remote_message shown facility ll time hostname ident process_id logger_name text =
    codes "<"
    ++ (shown (bit_or (get_sys_log_level ll) facility)
        ++ (codes ">1 "
            ++ (time
                ++ (codes " "
                    ++ (substr_or_nil hostname 255
                        ++ (codes " "
                            ++ (substr_or_nil ident 48
                                ++ (codes " "
                                    ++ (process_id
                                        ++ (codes " "
                                            ++ (substr_or_nil logger_name 32
                                                ++ (codes " - " ++ text))))))))))))

-- The frame of a message that is sent by TCP; its size has 64 bits.
unfoldable pub framed : Text → Text
framed message = convert_integer_to_string 64 (pos (length message)) ++ (codes " " ++ message)
