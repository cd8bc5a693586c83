-- ===== src/Queue.antt =====
-- src/queue.cxx, and the consumer thread of src/asyncappender.cxx: the bounded event queue.
--
-- The bits EXIT, DRAIN and QUEUE of `flags` are three fields. Each operation runs with the mutex
-- held, so it is one step; a producer takes its slot of the semaphore in a step before that.
-- `holders` counts the producers that hold a slot and have not yet put their event. `accepted`,
-- `delivered` and `discarded` record, in order, the events that entered the queue, that the
-- consumer gave to the appenders, and that were thrown away at exit. Failures of the operating
-- system's primitives (ERROR_BIT, ERROR_AFTER) are not modelled, and neither is the manual-reset
-- event `ev_consumer`, on which the consumer sleeps between two rounds.
pub mod Invariant
pub mod Runs
use log4cplus.Common.{
  ℕ, ◌+◌, ◌-◌, ◌<◌, ◌≡◌, Bool, true, false, not, ◌&&◌, ◌||◌, List, [], ◌∷◌, ◌++◌, length,
  if◌then◌else◌,
}
use log4cplus.Event.{LoggingEvent}

pub record Queue : Type 0 where
  pub max : ℕ
  pub sem : ℕ
  pub holders : ℕ
  pub queue : List LoggingEvent
  pub queue_bit : Bool
  pub exit : Bool
  pub drain : Bool
  pub running : Bool
  pub accepted : List LoggingEvent
  pub delivered : List LoggingEvent
  pub discarded : List LoggingEvent

-- The constructor of `Queue`, and the consumer thread started.
unfoldable pub start : ℕ → Queue
start len = record {
  max = len;
  sem = len;
  holders = 0;
  queue = [];
  queue_bit = false;
  exit = false;
  drain = true;
  running = true;
  accepted = [];
  delivered = [];
  discarded = [];
}

-- `put_event` once the slot is taken: at exit the guard gives the slot back.
unfoldable pub put_event : LoggingEvent → Queue → Queue
put_event ev q =
    if q.exit then record q { holders = q.holders - 1; sem = q.sem + 1 } else record q {
      holders = q.holders - 1;
      queue = q.queue ++ ev ∷ [];
      queue_bit = true;
      accepted = q.accepted ++ ev ∷ [];
    }

unfoldable pub signal_exit : Bool → Queue → Queue
signal_exit drain q = if q.exit then q else record q { drain = drain; exit = true }

-- What one round of the loop of `get_events` ends with.
pub data Got : Type 0 where
  events : List LoggingEvent → Got
  cleared : Got
  exiting : Got
  waits : Got

unfoldable pub get_events : Queue → Got × Queue
get_events q =
    if q.queue_bit && not q.exit || q.exit && q.drain && q.queue_bit
    then (events q.queue, record q { queue = []; queue_bit = false; sem = q.sem + length q.queue })
    else if q.exit && q.queue_bit
    then (
      cleared,
      record q {
        queue = [];
        queue_bit = false;
        sem = q.sem + 1;
        discarded = q.discarded ++ q.queue;
      },
    )
    else if q.exit
    then (exiting, q)
    else (waits, q)

-- The rest of one round of the loop of `QueueThread::run`: with events in hand the thread goes on
-- unless EXIT is set without DRAIN; without, it ends at EXIT.
unfoldable pub finish : Got × Queue → Queue
finish (events buf, q) = record q {
  delivered = q.delivered ++ buf;
  running = not (q.exit && not q.drain);
}
finish (cleared, q) = record q { running = not q.exit }
finish (exiting, q) = record q { running = not q.exit }
finish (waits, q) = q

unfoldable pub consume : Queue → Queue
consume q = finish (get_events q)

-- The steps of producers, of `AsyncAppender::close` and `append`, and of the consumer thread.
pub data Step : Queue → Queue → Type 0 where
  takes_slot :
      (q : Queue) → 0 < q.sem → Step q (record q { sem = q.sem - 1; holders = q.holders + 1 })
  puts : (q : Queue) (ev : LoggingEvent) → 0 < q.holders → Step q (put_event ev q)
  exits : (q : Queue) (drain : Bool) → Step q (signal_exit drain q)
  consumes : (q : Queue) → q.running ≡ true → Step q (consume q)

pub data Reach (s : Queue) : Queue → Type 0 where
  here : Reach s s
  next : {t u : Queue} → Reach s t → Step t u → Reach s u
