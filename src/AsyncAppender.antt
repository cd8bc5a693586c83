-- ===== src/AsyncAppender.antt =====
-- src/asyncappender.cxx: `AsyncAppender`, its queue and the thread that empties the queue.
--
-- One thread appends; between its calls the consumer thread goes through rounds. An append that
-- finds no free slot waits, which is `none` here. The primitives of the system do not fail. `handed`
-- are the events that the appenders were given outside of the present queue thread.
pub mod Draining
use log4cplus.Common.{
  ℕ, zero, suc, ◌+◌, ◌-◌, Bool, true, false, Option, none, some, List, [], ◌∷◌, ◌++◌, is_empty,
  ◌==◌, if◌then◌else◌,
}
use log4cplus.Event.{LoggingEvent}
use log4cplus.Queue.{Queue, start, put_event, signal_exit, consume}

pub record AsyncAppender : Type 0 where
  pub queue : Option Queue
  pub handed : List LoggingEvent
  pub appenders : List ℕ

-- `addAppender` and `init_queue_thread`
unfoldable pub new_async_appender : ℕ → ℕ → AsyncAppender
unfolding start
new_async_appender appender queue_len = record {
  queue = some (start queue_len);
  handed = [];
  appenders = appender ∷ [];
}

-- `appendLoopOnAppenders`
unfoldable pub hand_over : LoggingEvent → AsyncAppender → AsyncAppender
hand_over ev a = if is_empty a.appenders then a else record a { handed = a.handed ++ ev ∷ [] }

-- `put_event` with the slot that it takes.
unfoldable pub put_in_slot : LoggingEvent → Queue → Option Queue
unfolding put_event
put_in_slot ev q =
    if q.sem == 0
    then none
    else some (put_event ev (record q { sem = q.sem - 1; holders = q.holders + 1 }))

-- `append`
unfoldable pub append : LoggingEvent → AsyncAppender → Option AsyncAppender
unfolding hand_over put_in_slot
append ev a = elim a.queue [
  | none ↦ some (hand_over ev a)
  | some q ↦
      if q.running
      then (elim (put_in_slot ev q) [ none ↦ none | some q' ↦ some (record a { queue = some q' }) ])
      else some (hand_over ev a)
]

-- A round of the queue thread, which does nothing once it has ended.
unfoldable pub round : Queue → Queue
unfolding consume
round q = if q.running then consume q else q

-- `close`: the exit, the thread's last rounds until `join` returns, and the removal of the
-- appenders. `rounds` are as many as the thread is waited for.
unfoldable pub join_thread : ℕ → Queue → Option Queue
unfolding round
join_thread zero q = if q.running then none else some q
join_thread (suc rounds) q = join_thread rounds (round q)

unfoldable pub close : ℕ → AsyncAppender → Option AsyncAppender
unfolding signal_exit join_thread
close rounds a = elim a.queue [
  | none ↦ some (record a { appenders = [] })
  | some q ↦ elim (join_thread rounds (signal_exit true q)) [
    | none ↦ none
    | some q' ↦ some (record { queue = none; handed = q'.delivered ++ a.handed; appenders = [] })
  ]
]

-- What a caller and the queue thread do.
pub data Act : Type 0 where
  appends : LoggingEvent → Act
  consumes : Act

unfoldable pub act : Act → AsyncAppender → Option AsyncAppender
unfolding append round
act (appends ev) a = append ev a
act consumes a = some (elim a.queue [ none ↦ a | some q ↦ record a { queue = some (round q) } ])
