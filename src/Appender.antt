-- ===== src/Appender.antt =====
-- src/appender.cxx: the path of an event through an appender.
--
-- `appended` lists the events that were handed to the derived class's `append`, the last first, and
-- `refused` counts the error messages about appending to a closed appender. Whether the lock file
-- can be locked is an argument, as is what the thread pool (a git submodule) does with a task.
pub mod Configured
pub mod Delivery
pub mod InFlight
use log4cplus.Common.{
  ℕ, suc, ◌+◌, ◌-◌, ◌%◌, Bool, true, false, not, ◌&&◌, ◌||◌, List, [], ◌∷◌, ◌++◌, Text, ℤ, leb_ℤ,
  eq_ℤ, ◌==◌, if◌then◌else◌,
}
use log4cplus.Event.{LoggingEvent}
use log4cplus.Filter.{FilterResult, deny, neutral, accept, Filter, check_filter, append_filter}
use log4cplus.Hierarchy.{not_set_log_level}

pub record Appender : Type 0 where
  pub name : Text
  pub threshold : ℤ
  pub filter : List Filter
  pub use_lock_file : Bool
  pub has_lock_file : Bool
  pub async : Bool
  pub in_flight : ℕ
  pub closed : Bool
  pub appended : List LoggingEvent
  pub refused : ℕ

-- The default constructor.
abbrev pub new_appender : Text → Appender
new_appender name = record {
  name = name;
  threshold = not_set_log_level;
  filter = [];
  use_lock_file = false;
  has_lock_file = false;
  async = false;
  in_flight = 0;
  closed = false;
  appended = [];
  refused = 0;
}

-- include/log4cplus/appender.h
unfoldable pub is_as_severe_as_threshold : ℤ → Appender → Bool
is_as_severe_as_threshold ll a = not (eq_ℤ ll not_set_log_level) && leb_ℤ a.threshold ll

abbrev pub is_deny : FilterResult → Bool
is_deny deny = true
is_deny neutral = false
is_deny accept = false

-- `locks` says whether the system wide lock can be taken.
unfoldable pub sync_do_append : Bool → LoggingEvent → Appender → Appender
unfolding is_as_severe_as_threshold check_filter
sync_do_append locks ev a =
    if a.closed
    then record a { refused = a.refused + 1 }
    else if not (is_as_severe_as_threshold ev.ll a)
    then a
    else if is_deny (check_filter a.filter ev)
    then a
    else if a.use_lock_file && a.has_lock_file && not locks
    then a
    else record a { appended = ev ∷ a.appended }

-- `in_flight` is a size_t, of 64 bits, and wraps around.
abbrev pub size_t_values : ℕ
size_t_values = 18446744073709551616

unfoldable pub subtract_in_flight : Appender → Appender
subtract_in_flight a = record a { in_flight = (a.in_flight + (size_t_values - 1)) % size_t_values }

unfoldable pub async_do_append : Bool → LoggingEvent → Appender → Appender
unfolding subtract_in_flight
async_do_append locks ev a = subtract_in_flight (sync_do_append locks ev a)

-- What becomes of the task that `enqueueAsyncDoAppend` hands to the pool: it is queued; the pool is
-- full and the task is dropped, which `enqueueAsyncDoAppend` notes and does not pass on; an exception
-- leaves `enqueueAsyncDoAppend` before there is a task; or the pool has run the task by the time that
-- its future is looked at, and the exception that ended the task leaves `enqueueAsyncDoAppend`.
pub data Enqueue : Type 0 where
  queued dropped failed rethrown : Enqueue

-- An appender and its tasks in the pool, the oldest first.
pub record Posted : Type 0 where
  pub appender : Appender
  pub tasks : List LoggingEvent

unfoldable pub do_append : Enqueue → Bool → LoggingEvent → Posted → Posted
unfolding subtract_in_flight async_do_append
do_append enqueue locks ev s =
    let a = s.appender in
    let counted = record a { in_flight = (a.in_flight + 1) % size_t_values } in
    if a.async
    then elim enqueue [
      | queued ↦ record { appender = counted; tasks = s.tasks ++ ev ∷ [] }
      | dropped ↦ record { appender = counted; tasks = s.tasks }
      | failed ↦ record { appender = subtract_in_flight counted; tasks = s.tasks }
      | rethrown ↦ record {
        appender = subtract_in_flight (async_do_append locks ev counted);
        tasks = s.tasks;
      }
    ]
    else record { appender = sync_do_append locks ev a; tasks = s.tasks }

-- A pool thread runs the oldest task.
unfoldable pub run_task : Bool → Posted → Posted
unfolding async_do_append
run_task locks s = elim s.tasks [
  | [] ↦ s
  | ev ∷ rest ↦ record { appender = async_do_append locks ev s.appender; tasks = rest }
]

-- The condition that `waitToFinishAsyncLogging` waits for.
unfoldable pub is_finished : Appender → Bool
is_finished a = not a.async || a.in_flight == 0

-- `setFilter` and `addFilter`
unfoldable pub set_filter : List Filter → Appender → Appender
set_filter f a = record a { filter = f }

unfoldable pub add_filter : List Filter → Appender → Appender
unfolding set_filter append_filter
add_filter f a = elim a.filter [
  | [] ↦ set_filter f a
  | g ∷ next ↦ set_filter (append_filter g next f) a
]
