-- ===== src/Layout/Fixed.antt =====
-- src/layout.cxx: the simple layout and the TTCC layout.
--
-- As in the pattern layout, the formatting of time stamps is a parameter.
pub mod AsPatterns
use log4cplus.Common.{
  Bool, true, false, Option, none, some, List, [], ◌∷◌, ◌++◌, Text, codes, is_empty, if◌then◌else◌,
}
use log4cplus.Event.{LoggingEvent}
use log4cplus.Layout.Converter.{Surroundings}
use log4cplus.LogLevel.{to_string}
use log4cplus.Property.{Properties, get_property_or}

-- `SimpleLayout::formatAndAppend`
unfoldable pub format_simple : Surroundings → LoggingEvent → Text
unfolding to_string
format_simple around ev =
    to_string around.translators ev.ll ++ (codes " - " ++ (ev.message ++ (10 ∷ [])))

pub record TtccLayout : Type 0 where
  pub date_format : Text
  pub use_gmtime : Bool
  pub thread_printing : Bool
  pub category_prefixing : Bool
  pub context_printing : Bool

abbrev value_or : Bool → Option Bool → Bool
value_or old none = old
value_or old (some new) = new

-- The constructor from properties; `read_bool` is `getBool`.
unfoldable pub ttcc_layout : (Text → Properties → Option Bool) → Properties → TtccLayout
unfolding get_property_or
ttcc_layout read_bool props = record {
  date_format = get_property_or (codes "DateFormat") [] props;
  use_gmtime = value_or false (read_bool (codes "Use_gmtime") props);
  thread_printing = value_or true (read_bool (codes "ThreadPrinting") props);
  category_prefixing = value_or true (read_bool (codes "CategoryPrefixing") props);
  context_printing = value_or true (read_bool (codes "ContextPrinting") props);
}

-- `TTCCLayout::formatAndAppend`, from the context on, from the category on and from the thread on.
unfoldable pub format_context : TtccLayout → LoggingEvent → Text
format_context layout ev =
    (if layout.context_printing then codes "<" ++ (ev.ndc ++ codes "> ") else [])
    ++ (codes "- " ++ (ev.message ++ (10 ∷ [])))

unfoldable pub format_category : TtccLayout → LoggingEvent → Text
unfolding format_context
format_category layout ev =
    (if layout.category_prefixing then ev.logger_name ++ codes " " else [])
    ++ format_context layout ev

unfoldable pub format_thread : Surroundings → TtccLayout → LoggingEvent → Text
unfolding format_category to_string
format_thread around layout ev =
    (if layout.thread_printing then codes " [" ++ (ev.thread ++ codes "] ") else codes " ")
    ++ (to_string around.translators ev.ll ++ (codes " " ++ format_category layout ev))

unfoldable pub format_ttcc : Surroundings → TtccLayout → LoggingEvent → Text
unfolding format_thread
format_ttcc around layout ev =
    (if is_empty layout.date_format
      then around.format_relative ev
      else around.format_time layout.date_format ev layout.use_gmtime)
    ++ format_thread around layout ev
