-- ===== src/Filter/Configured.antt =====
-- src/filter.cxx: the filters that are made from properties.
--
-- `from_string` is that of the log level manager; `lower` and `read_long` are as in Property/Values.
use log4cplus.Common.{ℕ, Bool, true, Option, none, some, Text, codes, ℤ}
use log4cplus.Property.{Properties, get_property}
use log4cplus.Property.Values.{get_bool}
use log4cplus.Filter.{
  Filter, deny_all, log_level_match, log_level_range, string_match, ndc_match, mdc_match,
}

-- `getBool` into a variable that holds true.
abbrev pub true_or : Option Bool → Bool
true_or none = true
true_or (some b) = b

module _ (lower : ℕ → ℕ) (read_long : Text → Option (ℤ × Text)) (from_string : Text → ℤ) where
  unfoldable pub accept_on_match : Properties → Bool
  accept_on_match props = true_or (get_bool lower read_long (codes "AcceptOnMatch") props)

  unfoldable pub neutral_on_empty : Properties → Bool
  neutral_on_empty props = true_or (get_bool lower read_long (codes "NeutralOnEmpty") props)

  unfoldable pub new_deny_all : Properties → Filter
  new_deny_all props = deny_all

  unfoldable pub new_log_level_match : Properties → Filter
  unfolding accept_on_match
  new_log_level_match props =
      log_level_match (accept_on_match props)
        (from_string (get_property (codes "LogLevelToMatch") props))

  unfoldable pub new_log_level_range : Properties → Filter
  unfolding accept_on_match
  new_log_level_range props =
      log_level_range (accept_on_match props)
        (from_string (get_property (codes "LogLevelMin") props))
        (from_string (get_property (codes "LogLevelMax") props))

  unfoldable pub new_string_match : Properties → Filter
  unfolding accept_on_match
  new_string_match props =
      string_match (accept_on_match props) (get_property (codes "StringToMatch") props)

  unfoldable pub new_ndc_match : Properties → Filter
  unfolding accept_on_match neutral_on_empty
  new_ndc_match props =
      ndc_match (accept_on_match props) (neutral_on_empty props)
        (get_property (codes "NDCToMatch") props)

  unfoldable pub new_mdc_match : Properties → Filter
  unfolding accept_on_match neutral_on_empty
  new_mdc_match props =
      mdc_match (accept_on_match props) (neutral_on_empty props)
        (get_property (codes "MDCKeyToMatch") props) (get_property (codes "MDCValueToMatch") props)
