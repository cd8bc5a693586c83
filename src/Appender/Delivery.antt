-- ===== src/Appender/Delivery.antt =====
-- When an event reaches the derived appender.
use log4cplus.Common.{
  ◌+◌, ◌≡◌, ◌≢◌, ◌↔◌, refl, Bool, true, false, not, ◌&&◌, List, [], ◌∷◌, ◌++◌, arith, ◌≤ℤ◌,
  if◌then◌else◌,
}
use log4cplus.Common.Int.{eq_ℤ_iff, leb_ℤ_iff}
use log4cplus.Event.{LoggingEvent}
use log4cplus.Filter.{FilterResult, deny, neutral, accept, Filter, decide, check_filter}
use log4cplus.Filter.Chain.{append_filter-eq-append}
use log4cplus.Hierarchy.{not_set_log_level}
use log4cplus.Appender.{Appender, sync_do_append, is_as_severe_as_threshold, add_filter, is_deny}

-- The first verdict of a chain that is not neutral, or neutral.
unfoldable pub verdict : List Filter → LoggingEvent → FilterResult
verdict [] ev = neutral
verdict (f ∷ next) ev = elim (decide f ev) [
  | neutral ↦ verdict next ev
  | deny ↦ deny
  | accept ↦ accept
]

check_filter-append :
    (fs gs : List Filter) (ev : LoggingEvent)
    → check_filter (fs ++ gs) ev
      ≡ elim (verdict fs ev) [ neutral ↦ check_filter gs ev | deny ↦ deny | accept ↦ accept ]
unfolding check_filter verdict
check_filter-append [] gs ev = refl
check_filter-append (f ∷ fs) gs ev = ground (arith, check_filter-append fs gs ev)

-- A filter that is added is asked last: the chain answers as before where it had a verdict, and
-- with the answer of what was added where every filter was neutral.
pub check_filter-add_filter :
    (fs : List Filter) (ev : LoggingEvent) (a : Appender)
    → check_filter (add_filter fs a).filter ev
      ≡ elim (verdict a.filter ev) [ neutral ↦ check_filter fs ev | deny ↦ deny | accept ↦ accept ]
unfolding add_filter
check_filter-add_filter fs ev a = go a.filter refl
  where
    go :
        (l : List Filter)
        → a.filter ≡ l
        → check_filter (add_filter fs a).filter ev ≡ elim (verdict a.filter ev) [
          | neutral ↦ check_filter fs ev
          | deny ↦ deny
          | accept ↦ accept
        ]
    go [] e = ground (arith, e, check_filter-append [] fs ev)
    go (g ∷ next) e =
        ground (arith, e, append_filter-eq-append g next fs, check_filter-append (g ∷ next) fs ev)

-- What an open appender asks of an event.
pub record Passes (locks : Bool) (ev : LoggingEvent) (a : Appender) : Type 0 where
  pub level_set : ev.ll ≢ not_set_log_level
  pub severe : a.threshold ≤ℤ ev.ll
  pub filtered : check_filter a.filter ev ≢ deny
  pub locked : (a.use_lock_file && a.has_lock_file ≡ true) → locks ≡ true

cons_ne : (x : LoggingEvent) (l : List LoggingEvent) → l ≢ x ∷ l
cons_ne x [] e = cc
cons_ne x (y ∷ l) e = cons_ne y l (ground (arith, e))

appends : (locks : Bool) (ev : LoggingEvent) (a : Appender) → Bool
unfolding is_as_severe_as_threshold
appends locks ev a =
    is_as_severe_as_threshold ev.ll a
    && not (is_deny (check_filter a.filter ev))
    && not (a.use_lock_file && a.has_lock_file && not locks)

sync_do_append-if :
    (locks : Bool) (ev : LoggingEvent) (a : Appender)
    → a.closed ≡ false
    → sync_do_append locks ev a
      ≡ (if appends locks ev a then record a { appended = ev ∷ a.appended } else a)
unfolding sync_do_append appends
sync_do_append-if locks ev a c = ground arith

appends-Passes :
    (locks : Bool) (ev : LoggingEvent) (a : Appender)
    → appends locks ev a ≡ true
    → Passes locks ev a
unfolding appends
appends-Passes locks ev a h = record {
  level_set = ground (arith, eq_ℤ_iff ev.ll not_set_log_level);
  severe = (leb_ℤ_iff a.threshold ev.ll).0 (ground (arith));
  filtered = ground arith;
  locked = ground arith;
}

Passes-appends :
    (locks : Bool) (ev : LoggingEvent) (a : Appender)
    → Passes locks ev a
    → appends locks ev a ≡ true
unfolding appends
Passes-appends locks ev a p = ground (
  arith,
  p.filtered,
  p.locked,
  p.level_set,
  eq_ℤ_iff ev.ll not_set_log_level,
  (leb_ℤ_iff a.threshold ev.ll).1 p.severe,
)

-- An open appender hands an event to the derived class exactly when the event's level is set and
-- not below the threshold, the filters do not deny it and the lock file, if there is one, is
-- locked. An event without a level is refused also where no threshold is set, unlike documented.
pub sync_do_append-Passes :
    (locks : Bool) (ev : LoggingEvent) (a : Appender)
    → a.closed ≡ false
    → ((sync_do_append locks ev a).appended ≡ ev ∷ a.appended) ↔ Passes locks ev a
sync_do_append-Passes locks ev a c = (
  λ e.
      appends-Passes locks ev a
        (ground (arith, sync_do_append-if locks ev a c, cons_ne ev a.appended, e)),
  λ p. ground (arith, sync_do_append-if locks ev a c, Passes-appends locks ev a p),
)

-- Where an event is not handed to the derived class, an open appender is left as it was, and a
-- closed one only counts an error.
pub sync_do_append_else :
    (locks : Bool) (ev : LoggingEvent) (a : Appender)
    → (sync_do_append locks ev a).appended ≢ ev ∷ a.appended
    → sync_do_append locks ev a ≡ (if a.closed then record a { refused = a.refused + 1 } else a)
unfolding sync_do_append
sync_do_append_else locks ev a h = ground (arith, h)
