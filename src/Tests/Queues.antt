-- ===== src/Tests/Queues.antt =====
-- A run of the queue: an event is put, the exit drains, the consumer stops.
use log4cplus.Common.{
  some, List, ◌∷◌, ◌+◌, ◌-◌, ◌≡◌, refl, true, false, [], ◌++◌, codes, pos, if◌then◌else◌, arith,
}
use log4cplus.Event.{LoggingEvent}
use log4cplus.Queue.{
  Queue, start, put_event, signal_exit, consume, finish, get_events, Reach, here, next, takes_slot,
  puts, exits, consumes,
}
use log4cplus.AsyncAppender.{
  AsyncAppender, Act, appends, new_async_appender, act, append, put_in_slot, round, close,
}
use log4cplus.AsyncAppender.Draining.{run_acts, working, closed, appended, close-delivers}
use log4cplus.Queue.Invariant.{Inv}
use log4cplus.Queue.Runs.{Reach-Inv, drained_exit, exit_in_two_rounds}

abbrev event : LoggingEvent
event = record {
  logger_name = codes "a.b";
  ll = pos 20000;
  ndc = [];
  mdc = [];
  message = codes "full";
  thread = codes "7";
  thread2 = [];
  seconds = 5;
  microseconds = 6;
  file = codes "d";
  line = pos 12;
  function = codes "w";
}

abbrev taken : Queue
taken = record (start 2) { sem = (start 2).sem - 1; holders = (start 2).holders + 1 }

abbrev closing : Queue
closing = signal_exit true (put_event event taken)

closing-Reach : Reach (start 2) closing
unfolding start
closing-Reach =
    next (next (next here (takes_slot (start 2) (omega arith))) (puts taken event (omega arith)))
      (exits (put_event event taken) true)

stopped-Reach : Reach (start 2) (consume (consume closing))
unfolding start put_event signal_exit consume finish get_events
stopped-Reach = next (next closing-Reach (consumes closing refl)) (consumes (consume closing) refl)

Reach-Inv_example : Inv (consume (consume closing))
Reach-Inv_example = Reach-Inv 2 stopped-Reach

drained_exit_example : (consume (consume closing)).delivered ≡ (consume (consume closing)).accepted
unfolding start put_event signal_exit consume finish get_events
drained_exit_example = drained_exit 2 stopped-Reach refl refl

exit_in_two_rounds_example :
    ((consume (consume closing)).running ≡ false)
    × ((consume (consume closing)).queue ≡ [])
    × ((consume (consume closing)).delivered
        ≡ (if closing.drain then closing.delivered ++ closing.queue else closing.delivered))
unfolding start put_event signal_exit
exit_in_two_rounds_example = exit_in_two_rounds 2 closing-Reach refl

abbrev acts : List Act
acts = appends event ∷ Act.consumes ∷ appends event ∷ []

abbrev in_slot : Queue → Queue
in_slot q = put_event event (record q { sem = q.sem - 1; holders = q.holders + 1 })

abbrev last_queue : Queue
last_queue = in_slot (round (in_slot (start 1)))

acts-run : run_acts acts (new_async_appender 7 1) ≡ some (working 7 last_queue)
unfolding new_async_appender act append put_in_slot round start put_event consume finish get_events
acts-run = refl

close-delivers_example :
    (close 2 (working 7 last_queue) ≡ some (closed (appended acts)))
    × ((ev : LoggingEvent)
        → (c : AsyncAppender) × (run_acts (Act.consumes ∷ appends ev ∷ []) (working 7 last_queue)
            ≡ some c))
close-delivers_example = close-delivers 7 1 acts (working 7 last_queue) (omega arith) acts-run
