-- ===== src/Filter.antt =====
-- src/filter.cxx: the filters, and the chain that an appender evaluates.
--
-- A chain of filters linked by `next` is the list of its filters, without the links.
pub mod Configured
pub mod Chain
use log4cplus.Common.{
  ℕ, Bool, true, false, not, ◌&&◌, ◌||◌, List, [], ◌∷◌, ◌++◌, Text, text_eq, is_empty, length, take,
  ℤ, leb_ℤ, eq_ℤ, if◌then◌else◌,
}
use log4cplus.Event.{LoggingEvent, get_mdc}
use log4cplus.Hierarchy.{not_set_log_level}

pub data FilterResult : Type 0 where
  deny neutral accept : FilterResult

-- One constructor for each class; `accept_on_match` comes first, `neutral_on_empty` second.
pub data Filter : Type 0 where
  deny_all : Filter
  log_level_match : Bool → ℤ → Filter
  log_level_range : Bool → ℤ → ℤ → Filter
  string_match : Bool → Text → Filter
  function : (LoggingEvent → FilterResult) → Filter
  ndc_match : Bool → Bool → Text → Filter
  mdc_match : Bool → Bool → Text → Text → Filter

-- `message.find (s) != npos`
unfoldable pub occurs : Text → Text → Bool
occurs s [] = is_empty s
occurs s (c ∷ message) = text_eq (take (length s) (c ∷ message)) s || occurs s message

abbrev pub on_match : Bool → FilterResult
on_match accept_on_match = if accept_on_match then accept else deny

abbrev pub on_mismatch : Bool → FilterResult
on_mismatch accept_on_match = if accept_on_match then deny else accept

unfoldable pub decide_log_level_match : Bool → ℤ → ℤ → FilterResult
decide_log_level_match accept_on_match log_level_to_match ll =
    if eq_ℤ log_level_to_match not_set_log_level
    then neutral
    else if eq_ℤ log_level_to_match ll
    then on_match accept_on_match
    else neutral

unfoldable pub decide_log_level_range : Bool → ℤ → ℤ → ℤ → FilterResult
decide_log_level_range accept_on_match log_level_min log_level_max ll =
    if not (eq_ℤ log_level_min not_set_log_level) && not (leb_ℤ log_level_min ll)
    then deny
    else if not (eq_ℤ log_level_max not_set_log_level) && not (leb_ℤ ll log_level_max)
    then deny
    else if accept_on_match
    then accept
    else neutral

unfoldable pub decide_string_match : Bool → Text → Text → FilterResult
unfolding occurs
decide_string_match accept_on_match string_to_match message =
    if is_empty string_to_match || is_empty message
    then neutral
    else if not (occurs string_to_match message)
    then neutral
    else on_match accept_on_match

unfoldable pub decide_ndc_match : Bool → Bool → Text → Text → FilterResult
decide_ndc_match accept_on_match neutral_on_empty ndc_to_match ndc =
    if neutral_on_empty && (is_empty ndc_to_match || is_empty ndc)
    then neutral
    else if text_eq ndc ndc_to_match
    then on_match accept_on_match
    else on_mismatch accept_on_match

unfoldable pub decide_mdc_match : Bool → Bool → Text → Text → LoggingEvent → FilterResult
unfolding get_mdc
decide_mdc_match accept_on_match neutral_on_empty mdc_key mdc_value ev =
    if neutral_on_empty && (is_empty mdc_key || is_empty mdc_value)
    then neutral
    else let mdc = get_mdc ev mdc_key in
      if neutral_on_empty && is_empty mdc
      then neutral
      else if text_eq mdc mdc_value
      then on_match accept_on_match
      else on_mismatch accept_on_match

-- `Filter::decide`, the virtual function.
unfoldable pub decide : Filter → LoggingEvent → FilterResult
unfolding decide_log_level_match decide_log_level_range decide_string_match decide_ndc_match
    decide_mdc_match
decide deny_all ev = deny
decide (log_level_match a l) ev = decide_log_level_match a l ev.ll
decide (log_level_range a lo hi) ev = decide_log_level_range a lo hi ev.ll
decide (string_match a s) ev = decide_string_match a s ev.message
decide (function f) ev = f ev
decide (ndc_match a n s) ev = decide_ndc_match a n s ev.ndc
decide (mdc_match a n k v) ev = decide_mdc_match a n k v ev

unfoldable pub check_filter : List Filter → LoggingEvent → FilterResult
check_filter [] ev = accept
check_filter (f ∷ next) ev = elim (decide f ev) [
  | neutral ↦ check_filter next ev
  | deny ↦ deny
  | accept ↦ accept
]

-- `f.appendFilter (filter)`, where `f` heads the chain `f ∷ next`.
unfoldable pub append_filter : Filter → List Filter → List Filter → List Filter
append_filter f [] filter = f ∷ filter
append_filter f (g ∷ next) filter = f ∷ append_filter g next filter
