-- ===== src/Tests/Appenders.antt =====
-- Filters and appenders with a concrete event.
use log4cplus.Common.{
  ◌+◌, ◌%◌, length, ◌≡◌, ◌≢◌, ◌↔◌, refl, true, false, List, [], ◌∷◌, codes, pos, arith,
}
use log4cplus.Event.{LoggingEvent}
use log4cplus.Filter.{decide, deny, Filter, deny_all, log_level_match, string_match, check_filter}
use log4cplus.Filter.Chain.{Denied, check_filter-Denied}
use log4cplus.Appender.{
  Appender, new_appender, sync_do_append, is_finished, queued, dropped, rethrown, size_t_values,
}
use log4cplus.Appender.Delivery.{Passes, sync_do_append-Passes, sync_do_append_else}
use log4cplus.Appender.InFlight.{logs, runs, acts, drops, rethrows, Action, finished_iff}

abbrev event : LoggingEvent
event = record {
  logger_name = codes "a.b";
  ll = pos 20000;
  ndc = codes "request";
  mdc = [];
  message = codes "disk full";
  thread = codes "7";
  thread2 = [];
  seconds = 5;
  microseconds = 6;
  file = codes "disk.cxx";
  line = pos 12;
  function = codes "write";
}

abbrev chain : List Filter
chain = string_match true (codes "net") ∷ log_level_match false (pos 20000) ∷ []

check_filter-Denied_example : (check_filter chain event ≡ deny) ↔ Denied event chain
check_filter-Denied_example = check_filter-Denied event chain

abbrev filtered : Appender
filtered = record (new_appender (codes "A")) { filter = chain }

sync_do_append-Passes_example :
    ((sync_do_append true event filtered).appended ≡ event ∷ []) ↔ Passes true event filtered
sync_do_append-Passes_example = sync_do_append-Passes true event filtered refl

abbrev denying : Appender
denying = record (new_appender (codes "A")) { filter = deny_all ∷ [] }

not_appended : (sync_do_append true event denying).appended ≢ event ∷ []
unfolding sync_do_append check_filter decide
not_appended e = ground (arith, e)

sync_do_append_else_example : sync_do_append true event denying ≡ denying
sync_do_append_else_example = sync_do_append_else true event denying not_appended

abbrev history : List Action
history = logs queued event ∷ logs dropped event ∷ logs rethrown event ∷ runs true ∷ []

abbrev posting : Appender
posting = record (new_appender (codes "A")) { async = true }

finished_iff_example :
    (is_finished (acts (record { appender = posting; tasks = [] }) history).appender ≡ true) ↔ (
      (length (acts (record { appender = posting; tasks = [] }) history).tasks + drops history)
        % size_t_values
      ≡ rethrows history % size_t_values)
finished_iff_example =
    finished_iff (record { appender = posting; tasks = [] }) history refl refl (omega arith)
