-- ===== src/Queue/Runs.antt =====
-- The theorems on every run of the queue, its producers and its consumer.
use mathlib.Core.List.{append-nil}
use log4cplus.Common.{
  ℕ, ◌≡◌, inr, refl, sym, ap, ◌∙◌, Bool, true, false, not, List, [], ◌++◌, is_empty, if◌then◌else◌,
}
use log4cplus.Event.{LoggingEvent}
use log4cplus.Queue.{Queue, start, finish, consume, get_events, Reach, here, next}
use log4cplus.Queue.Invariant.{
  Inv, start-Inv, Step-Inv, nothing_discarded, is_clear, is_empty-nil, with_bits,
}

all_delivered :
    (a d : List LoggingEvent) {c q : List LoggingEvent}
    → a ≡ d ++ (c ++ q)
    → c ≡ []
    → q ≡ []
    → d ≡ a
all_delivered a d {q = q} e f g =
    sym (e ∙ (ap (λ l. d ++ (l ++ q)) f ∙ (ap (λ l. d ++ l) g ∙ append-nil d)))

-- Whatever the interleaving of the producers, the exit and the consumer: the bit QUEUE is set
-- exactly when the queue holds an event, the free slots, the taken ones and the queued events
-- together never exceed the queue's maximum, the events that were accepted are, in order, those
-- delivered, then those thrown away, then those queued, an event is thrown away only after an exit
-- without draining, and the consumer stops only after the exit with an empty queue.
pub Reach-Inv : (len : ℕ) {q : Queue} → Reach (start len) q → Inv q
Reach-Inv len here = start-Inv len
Reach-Inv len (next r s) = Step-Inv s (Reach-Inv len r)

-- In every run from a new queue: once the consumer has stopped after an exit that drains the
-- queue, it has given the appenders every event that was accepted, in the order of acceptance.
pub drained_exit :
    (len : ℕ) {q : Queue}
    → Reach (start len) q
    → q.running ≡ false
    → q.drain ≡ true
    → q.delivered ≡ q.accepted
drained_exit len {q} r stop d =
    let v = Reach-Inv len r in
    let none_lost = nothing_discarded q.discarded q.queue v.thrown (inr d) in
    let (_, emptied) = v.stopped stop in
    all_delivered q.accepted q.delivered v.order none_lost emptied

-- What two rounds of the consumer do once EXIT is set.
Ends : Queue → Type 0
Ends q =
    ((consume (consume q)).running ≡ false)
    × ((consume (consume q)).queue ≡ [])
    × ((consume (consume q)).delivered ≡ (if q.drain then q.delivered ++ q.queue else q.delivered))

two_rounds :
    (max sem holders : ℕ) (queue accepted delivered discarded : List LoggingEvent)
    (bit x d r : Bool)
    → x ≡ true
    → (bit ≡ not (is_empty queue))
    → Ends (with_bits max sem holders queue accepted delivered discarded bit x d r)
unfolding Ends with_bits consume finish get_events
two_rounds m s h q a del dis bit false d r t f = cc
two_rounds m s h q a del dis true true true r t f = (refl, refl, refl)
two_rounds m s h q a del dis true true false r t f = (refl, refl, refl)
two_rounds m s h q a del dis false true true r t f =
    let emptied = is_empty-nil q (is_clear q f) in (refl, emptied, rw (emptied, append-nil) refl)
two_rounds m s h q a del dis false true false r t f = (refl, is_empty-nil q (is_clear q f), refl)

-- In every run from a new queue: once EXIT is set, two rounds of the consumer thread end it and
-- leave the queue empty; if the exit drains, the appenders have been given every event that was
-- queued, behind those given before, and otherwise no further one.
pub exit_in_two_rounds :
    (len : ℕ) {q : Queue}
    → Reach (start len) q
    → q.exit ≡ true
    → ((consume (consume q)).running ≡ false)
      × ((consume (consume q)).queue ≡ [])
      × ((consume (consume q)).delivered
          ≡ (if q.drain then q.delivered ++ q.queue else q.delivered))
unfolding Ends with_bits
exit_in_two_rounds len {q} r e =
    two_rounds q.max q.sem q.holders q.queue q.accepted q.delivered q.discarded q.queue_bit q.exit
      q.drain q.running e (Reach-Inv len r).flagged
