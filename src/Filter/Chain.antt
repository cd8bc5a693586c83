-- ===== src/Filter/Chain.antt =====
-- What a chain of filters decides.
use log4cplus.Common.{◌≡◌, ◌↔◌, ◌⊎◌, ◌≢◌, refl, Bool, List, [], ◌∷◌, ◌++◌, arith, ℤ, ◌≤ℤ◌}
use log4cplus.Common.Int.{leb_ℤ_iff, eq_ℤ_iff}
use log4cplus.Event.{LoggingEvent}
use log4cplus.Hierarchy.{not_set_log_level}
use log4cplus.Filter.{
  FilterResult, deny, neutral, accept, Filter, decide, check_filter, append_filter,
  decide_log_level_range,
}

-- A filter denies the event, and every filter before it is neutral.
pub data Denied (ev : LoggingEvent) : List Filter → Type 0 where
  here : {f : Filter} {next : List Filter} → decide f ev ≡ deny → Denied ev (f ∷ next)
  later :
      {f : Filter} {next : List Filter}
      → decide f ev ≡ neutral
      → Denied ev next
      → Denied ev (f ∷ next)

Denied-check : (ev : LoggingEvent) (fs : List Filter) → Denied ev fs → check_filter fs ev ≡ deny
unfolding check_filter
Denied-check ev [] d = elim d [ ]
Denied-check ev (f ∷ next) (here e) = ground (arith, e)
Denied-check ev (f ∷ next) (later e d) = ground (arith, e, Denied-check ev next d)

check-cases :
    (ev : LoggingEvent) (f : Filter) (next : List Filter) (r : FilterResult)
    → decide f ev ≡ r
    → check_filter (f ∷ next) ev ≡ deny
    → (check_filter next ev ≡ deny → Denied ev next)
    → Denied ev (f ∷ next)
unfolding check_filter
check-cases ev f next deny e h ih = here e
check-cases ev f next neutral e h ih = later e (ih (ground (arith, e)))
check-cases ev f next accept e h ih = ground (arith, e)

check-Denied : (ev : LoggingEvent) (fs : List Filter) → check_filter fs ev ≡ deny → Denied ev fs
unfolding check_filter
check-Denied ev [] h = cc
check-Denied ev (f ∷ next) h = check-cases ev f next (decide f ev) refl h (check-Denied ev next)

-- A chain denies an event exactly when some filter of it denies the event and every filter before
-- that one is neutral.
pub check_filter-Denied :
    (ev : LoggingEvent) (fs : List Filter) → (check_filter fs ev ≡ deny) ↔ Denied ev fs
check_filter-Denied ev fs = (check-Denied ev fs, Denied-check ev fs)

check_filter-ne-neutral : (ev : LoggingEvent) (fs : List Filter) → check_filter fs ev ≢ neutral
unfolding check_filter
check_filter-ne-neutral ev [] = ground arith
check_filter-ne-neutral ev (f ∷ next) = ground (arith, check_filter-ne-neutral ev next)

pub append_filter-eq-append :
    (f : Filter) (next filter : List Filter) → append_filter f next filter ≡ (f ∷ next) ++ filter
unfolding append_filter
append_filter-eq-append f [] filter = refl
append_filter-eq-append f (g ∷ next) filter = ground (arith, append_filter-eq-append g next filter)

-- The filters that are set bound the level from below and from above, and a level is denied
-- exactly when it is out of bounds; NOT_SET stands for no bound.
pub log_level_range_lem :
    (a : Bool) (lo hi ll : ℤ)
    → (decide_log_level_range a lo hi ll ≡ deny)
      ↔ (((lo ≢ not_set_log_level) × (¬ (lo ≤ℤ ll))) ⊎ ((hi ≢ not_set_log_level) × (¬ (ll ≤ℤ hi))))
unfolding decide_log_level_range
log_level_range_lem a lo hi ll = (
  λ e. ground (
    arith,
    eq_ℤ_iff lo not_set_log_level,
    eq_ℤ_iff hi not_set_log_level,
    leb_ℤ_iff lo ll,
    leb_ℤ_iff ll hi,
  ),
  λ e. ground (
    arith,
    eq_ℤ_iff lo not_set_log_level,
    eq_ℤ_iff hi not_set_log_level,
    leb_ℤ_iff lo ll,
    leb_ℤ_iff ll hi,
  ),
)
