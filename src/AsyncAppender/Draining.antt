-- ===== src/AsyncAppender/Draining.antt =====
-- Every event that was appended reaches the appenders, in order.
use mathlib.Core.List.{append-nil, append_assoc}
use log4cplus.Common.{
  ℕ, ◌+◌, ◌-◌, ◌<◌, ◌≡◌, ◌⊎◌, refl, sym, ap, ◌∙◌, true, false, not, Option, none, some, List, [],
  ◌∷◌, ◌++◌, is_empty, length, length-append, ◌==◌, if◌then◌else◌, Bool-cases, inl, inr, arith,
}
use log4cplus.Event.{LoggingEvent}
use log4cplus.Queue.{Queue, start, put_event, signal_exit, consume, get_events, finish}
use log4cplus.Queue.Invariant.{is_empty-nil, is_clear}
use log4cplus.AsyncAppender.{
  AsyncAppender, new_async_appender, hand_over, put_in_slot, append, round, join_thread, close, Act,
  appends, consumes, act,
}

-- A queue of `len` slots in use, through which the events `done` have been put.
pub record Serves (len : ℕ) (done : List LoggingEvent) (q : Queue) : Type 0 where
  pub serving : q.exit ≡ false
  pub running : q.running ≡ true
  pub flagged : q.queue_bit ≡ not (is_empty q.queue)
  pub slots : q.sem + length q.queue ≡ len
  pub order : q.delivered ++ q.queue ≡ done

empty-snoc : (l : List LoggingEvent) (ev : LoggingEvent) → is_empty (l ++ ev ∷ []) ≡ false
empty-snoc [] ev = refl
empty-snoc (e ∷ l) ev = refl

start-Serves : (len : ℕ) → Serves len [] (start len)
unfolding start
start-Serves len = record {
  serving = refl;
  running = refl;
  flagged = refl;
  slots = omega arith;
  order = refl;
}

put-Serves :
    (len : ℕ) (done : List LoggingEvent) (ev : LoggingEvent) (q : Queue)
    → Serves len done q
    → ((q.sem ≡ 0) × (put_in_slot ev q ≡ none))
      ⊎ ((q' : Queue) × (put_in_slot ev q ≡ some q') × Serves len (done ++ ev ∷ []) q')
unfolding put_in_slot put_event
put-Serves len done ev q s = elim (Bool-cases (q.sem == 0)) [
  | inl e ↦ inl (ground (arith, e), rw e refl)
  | inr e ↦
      rw (e, s.serving)
        (inr (
          record q {
            sem = q.sem - 1;
            holders = q.holders + 1 - 1;
            queue = q.queue ++ ev ∷ [];
            queue_bit = true;
            accepted = q.accepted ++ ev ∷ [];
            exit = false;
          },
          refl,
          record {
            serving = refl;
            running = s.running;
            flagged = sym (ap not (empty-snoc q.queue ev));
            slots = ground (arith, e, s.slots, length-append q.queue (ev ∷ []));
            order =
                sym (append_assoc q.delivered q.queue (ev ∷ [])) ∙ ap (λ l. l ++ ev ∷ []) s.order;
          },
        ))
]

consume-Serves :
    (len : ℕ) (done : List LoggingEvent) (q : Queue)
    → Serves len done q
    → Serves len done (consume q) × ((consume q).queue ≡ [])
unfolding consume finish get_events
consume-Serves len done q s = elim (Bool-cases q.queue_bit) [
  | inl e ↦
      rw (e, s.serving)
        (
          record {
            serving = refl;
            running = refl;
            flagged = refl;
            slots = omega (arith, s.slots);
            order = append-nil (q.delivered ++ q.queue) ∙ s.order;
          },
          refl,
        )
  | inr e ↦
      let clear : false ≡ not (is_empty q.queue) = sym e ∙ s.flagged in
      rw (e, s.serving)
        (
          record {
            serving = refl;
            running = s.running;
            flagged = clear;
            slots = s.slots;
            order = s.order;
          },
          is_empty-nil q.queue (is_clear q.queue clear),
        )
]

-- The appender while it works: only the queue thread has given events away.
abbrev pub working : ℕ → Queue → AsyncAppender
working appender q = record { queue = some q; handed = []; appenders = appender ∷ [] }

-- The events that have been appended.
abbrev pub appended : List Act → List LoggingEvent
appended [] = []
appended (appends ev ∷ acts) = ev ∷ appended acts
appended (consumes ∷ acts) = appended acts

-- What callers and the queue thread do one after the other; `none` is an append that waits.
abbrev pub run_acts : List Act → AsyncAppender → Option AsyncAppender
run_acts [] a = some a
run_acts (x ∷ acts) a = elim (act x a) [ none ↦ none | some a' ↦ run_acts acts a' ]

round_runs : (q : Queue) → q.running ≡ true → round q ≡ consume q
unfolding round
round_runs q e = ap (λ r. if r then consume q else q) e

round-Serves :
    (len : ℕ) (done : List LoggingEvent) (q : Queue) → Serves len done q → Serves len done (round q)
round-Serves len done q s = rw (round_runs q s.running) ((consume-Serves len done q s).0)

act_appends :
    (appender : ℕ) (ev : LoggingEvent) (q : Queue) (o : Option Queue)
    → q.running ≡ true
    → put_in_slot ev q ≡ o
    → act (appends ev) (working appender q)
      ≡ elim o [ none ↦ none | some q' ↦ some (working appender q') ]
unfolding act append
act_appends appender ev q o runs e =
    ap
      (λ r.
        if r
        then (elim (put_in_slot ev q) [ none ↦ none | some q' ↦ some (working appender q') ])
        else some (hand_over ev (working appender q)))
      runs
    ∙ ap (λ p. elim p [ none ↦ none | some q' ↦ some (working appender q') ]) e

run_acts-Serves :
    (appender len : ℕ) (acts : List Act) (done : List LoggingEvent) (q : Queue) (b : AsyncAppender)
    → Serves len done q
    → run_acts acts (working appender q) ≡ some b
    → (q' : Queue) × (b ≡ working appender q') × Serves len (done ++ appended acts) q'
run_acts-Serves appender len [] done q b s h = (q, cc, rw (append-nil done) s)
run_acts-Serves appender len (consumes ∷ acts) done q b s h =
    run_acts-Serves appender len acts done (round q) b (round-Serves len done q s) (unfold act in h)
run_acts-Serves appender len (appends ev ∷ acts) done q b s h =
    let continue : Option AsyncAppender → Option AsyncAppender =
      λ o. elim o [ none ↦ none | some a' ↦ run_acts acts a' ] in
    elim (put-Serves len done ev q s) [
      | inl (full, e) ↦
          absurd
            (let stops = sym (ap continue (act_appends appender ev q none s.running e)) ∙ h in cc)
      | inr (q', e, s') ↦
          let (q'', same, s'') =
            run_acts-Serves appender len acts (done ++ ev ∷ []) q' b s'
              (sym (ap continue (act_appends appender ev q (some q') s.running e)) ∙ h) in
          (q'', same, rw (sym (append_assoc done (ev ∷ []) (appended acts))) s'')
    ]

-- The exit and two rounds end the thread with everything delivered.
join_thread-Serves :
    (len : ℕ) (done : List LoggingEvent) (q : Queue)
    → Serves len done q
    → (q' : Queue) × (join_thread 2 (signal_exit true q) ≡ some q') × (q'.delivered ≡ done)
unfolding join_thread signal_exit round consume finish get_events
join_thread-Serves len done q s = elim (Bool-cases q.queue_bit) [
  | inl e ↦
      rw (e, s.serving, s.running)
        (
          record q {
            sem = q.sem + length q.queue;
            queue = [];
            queue_bit = false;
            exit = true;
            drain = true;
            running = false;
            delivered = q.delivered ++ q.queue;
          },
          refl,
          s.order,
        )
  | inr e ↦
      let clear : false ≡ not (is_empty q.queue) = sym e ∙ s.flagged in
      let emptied = is_empty-nil q.queue (is_clear q.queue clear) in
      let all_given =
        sym (append-nil q.delivered) ∙ (ap (λ l. q.delivered ++ l) (sym emptied) ∙ s.order) in
      rw (e, s.serving, s.running)
        (
          record q { queue_bit = false; exit = true; drain = true; running = false },
          refl,
          all_given,
        )
]

abbrev pub closed : List LoggingEvent → AsyncAppender
closed handed = record { queue = none; handed = handed; appenders = [] }

close-working :
    (appender : ℕ) (q q' : Queue)
    → join_thread 2 (signal_exit true q) ≡ some q'
    → close 2 (working appender q) ≡ some (closed q'.delivered)
unfolding close
close-working appender q q' e =
    let ends : Option Queue → Option AsyncAppender =
      λ o. elim o [ none ↦ none | some r ↦ some (closed (r.delivered ++ [])) ] in
    ap ends e ∙ ap (λ l. some (closed l)) (append-nil q'.delivered)

-- Behind a round of the queue thread an append finds a slot.
append-round :
    (appender len : ℕ) (done : List LoggingEvent) (ev : LoggingEvent) (q : Queue)
    → 0 < len
    → Serves len done q
    → (c : AsyncAppender) × (run_acts (consumes ∷ appends ev ∷ []) (working appender q) ≡ some c)
append-round appender len done ev q h s =
    let (s1, emptied) = consume-Serves len done q s in
    let continue : Option AsyncAppender → Option AsyncAppender =
      λ o. elim o [ none ↦ none | some a' ↦ some a' ] in
    elim (put-Serves len done ev (consume q) s1) [
      | inl (full, e) ↦ absurd (omega (arith, full, h, s1.slots, ap length emptied))
      | inr (q', e, s') ↦ (
        working appender q',
        unfold act in
            (ap (λ r. continue (act (appends ev) (working appender r))) (round_runs q s.running)
              ∙ ap continue (act_appends appender ev (consume q) (some q') s1.running e)),
      )
    ]

-- Whatever events are appended and however the rounds of the queue thread fall between, `close`
-- returns after at most two more rounds; then the appenders have been given every event that was
-- appended, in that order, and are detached. Where the queue has a slot, an append that waits goes on
-- after one round.
pub close-delivers :
    (appender len : ℕ) (acts : List Act) (b : AsyncAppender)
    → 0 < len
    → run_acts acts (new_async_appender appender len) ≡ some b
    → (close 2 b ≡ some (closed (appended acts)))
      × ((ev : LoggingEvent)
          → (c : AsyncAppender) × (run_acts (consumes ∷ appends ev ∷ []) b ≡ some c))
unfolding new_async_appender
close-delivers appender len acts b h e =
    let begins : Serves len [] (start len) = start-Serves len in
    let (q, same, s) = run_acts-Serves appender len acts [] (start len) b begins e in
    let (q', joined, given) = join_thread-Serves len (appended acts) q s in
    rw same (
      close-working appender q q' joined ∙ ap (λ l. some (closed l)) given,
      λ ev. append-round appender len (appended acts) ev q h s,
    )
