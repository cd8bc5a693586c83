-- ===== src/Tests/Objects.antt =====
-- Pointers, registries, connections and configured filters.
use log4cplus.Common.{
  Bool, List, ◌≢◌, ◌≡◌, ◌++◌, refl, true, false, Option, none, some, [], ◌∷◌, Text, codes, text_eq,
  replicate, ◌==◌, if◌then◌else◌, arith,
}
use log4cplus.Common.Map.{find}
use log4cplus.StringHelper.{convert_integer_to_string}
use log4cplus.Pointer.{Heap, assign, act}
use log4cplus.Pointer.Counts.{references, Keeps, act-Keeps}
use log4cplus.Connector.{Act, event, ended, start, thread, append, acts}
use log4cplus.Connector.Runs.{append-reconnected}
use log4cplus.Property.{Properties}
use log4cplus.Filter.{Filter, deny_all, string_match}
use log4cplus.Appender.{new_appender}
use log4cplus.Appender.Configured.{built, configure_filters, configure_filters-numbered}

-- One variable points to object 7, and is assigned that object again.
abbrev one_pointer : Heap
one_pointer = record {
  count = λ o. if 7 == o then 1 else 0;
  destroyed = λ o. false;
  pointers = some 7 ∷ [];
}

act-Keeps_example : Keeps one_pointer (act (assign 0 (some 7)) one_pointer)
act-Keeps_example =
    act-Keeps (assign 0 (some 7)) one_pointer (λ o. unfold references in ground arith) (omega arith)

-- The first connection fails, and so does the second one, after which the thread sleeps.
abbrev failures : List Act
failures =
    event true true
    ∷ event true true
    ∷ thread false
    ∷ thread false
    ∷ thread false
    ∷ thread false
    ∷ []

failures_run :
    ((acts failures (start false)).exit_flag ≡ false)
    × ((acts failures (start false)).place ≢ ended)
unfolding acts
failures_run = (refl, λ e. cc)

append-reconnected_example :
    ((acts (replicate 6 (thread true)) (acts failures (start false))).connected ≡ true)
    × ((append true true (acts (replicate 6 (thread true)) (acts failures (start false)))).1 ≡ true)
    × ((sends : Bool)
        → append false sends (acts (replicate 6 (thread true)) (acts failures (start false)))
          ≡ (acts (replicate 6 (thread true)) (acts failures (start false)), false))
append-reconnected_example = append-reconnected false failures failures_run.0 failures_run.1

abbrev two_filters : Properties
two_filters =
    (codes "filters.2", codes "deny")
    ∷ (codes "filters.1", codes "text")
    ∷ (codes "filters.4", codes "deny")
    ∷ []

abbrev factories : Text → Properties → Option Filter
factories name props =
    if text_eq name (codes "deny")
    then some deny_all
    else if text_eq name (codes "text")
    then some (string_match true (codes "x"))
    else none

configure_filters-numbered_example :
    configure_filters factories 3 two_filters (new_appender (codes "a"))
    ≡ built (record (new_appender (codes "a")) {
      filter = [] ++ (string_match true (codes "x") ∷ deny_all ∷ []);
    })
unfolding text_eq find convert_integer_to_string
configure_filters-numbered_example =
    configure_filters-numbered factories 3 two_filters
      (string_match true (codes "x") ∷ deny_all ∷ []) (new_appender (codes "a")) (omega arith)
      ((codes "text", refl, refl), ((codes "deny", refl, refl), refl))
