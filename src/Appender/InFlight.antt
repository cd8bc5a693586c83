-- ===== src/Appender/InFlight.antt =====
-- The count of events in flight, against the tasks in the pool.
use log4cplus.Common.{
  ℕ, suc, ◌+◌, ◌%◌, ◌<◌, ◌≡◌, ◌↔◌, refl, ap, ◌∙◌, Bool, true, List, [], ◌∷◌, length, length-append,
  arith,
}
use native.Mathlib.Nat.{add-zero}
use log4cplus.Event.{LoggingEvent}
use log4cplus.Appender.{
  Appender, Posted, Enqueue, queued, dropped, failed, rethrown, size_t_values, do_append, run_task,
  sync_do_append, is_finished,
}

-- What threads do to an appender that logs asynchronously, in some order.
pub data Action : Type 0 where
  logs : Enqueue → LoggingEvent → Action
  runs : Bool → Action

unfoldable pub act : Posted → Action → Posted
unfolding do_append run_task
act s (logs enqueue ev) = do_append enqueue true ev s
act s (runs locks) = run_task locks s

unfoldable pub acts : Posted → List Action → Posted
unfolding act
acts s [] = s
acts s (a ∷ as') = acts (act s a) as'

-- The events that the full pool dropped.
unfoldable pub drops : List Action → ℕ
drops [] = 0
drops (logs queued ev ∷ as') = drops as'
drops (logs dropped ev ∷ as') = suc (drops as')
drops (logs failed ev ∷ as') = drops as'
drops (logs rethrown ev ∷ as') = drops as'
drops (runs locks ∷ as') = drops as'

-- The exceptions of tasks that came back to the caller.
unfoldable pub rethrows : List Action → ℕ
rethrows [] = 0
rethrows (logs queued ev ∷ as') = rethrows as'
rethrows (logs dropped ev ∷ as') = rethrows as'
rethrows (logs failed ev ∷ as') = rethrows as'
rethrows (logs rethrown ev ∷ as') = suc (rethrows as')
rethrows (runs locks ∷ as') = rethrows as'

sync_do_append-frame :
    (locks : Bool) (ev : LoggingEvent) (a : Appender)
    → ((sync_do_append locks ev a).async ≡ a.async)
      × ((sync_do_append locks ev a).in_flight ≡ a.in_flight)
unfolding sync_do_append
sync_do_append-frame locks ev a = ground arith

-- The count, against the tasks, the dropped events and the exceptions that came back, each of which
-- took one more off.
record Counted (lost back : ℕ) (s : Posted) : Type 0 where
  asynchronous : s.appender.async ≡ true
  in_range : s.appender.in_flight < size_t_values
  count : (s.appender.in_flight + back) % size_t_values ≡ (length s.tasks + lost) % size_t_values

-- The number that is in flight behind an addition, a subtraction and both.
steps :
    (n back : ℕ)
    → (((n + 1) % 18446744073709551616 + back) % 18446744073709551616
        ≡ (n + back + 1) % 18446744073709551616)
      × (((n + 18446744073709551615) % 18446744073709551616 + (back + 1)) % 18446744073709551616
          ≡ (n + back) % 18446744073709551616)
      × (((n + 18446744073709551615) % 18446744073709551616 + back + 1) % 18446744073709551616
          ≡ (n + back) % 18446744073709551616)
      × ((((n + 1) % 18446744073709551616 + 18446744073709551615) % 18446744073709551616 + back)
            % 18446744073709551616
          ≡ (n + back) % 18446744073709551616)
steps n back = (omega arith, omega arith, omega arith, omega arith)

twice :
    (n back : ℕ)
    → ((((n + 1) % 18446744073709551616 + 18446744073709551615) % 18446744073709551616
              + 18446744073709551615)
            % 18446744073709551616
          + (back + 1))
        % 18446744073709551616
      ≡ (n + back) % 18446744073709551616
twice n back = omega arith

run_task-Counted :
    (locks : Bool) (lost back : ℕ) (s : Posted) (l : List LoggingEvent)
    → s.tasks ≡ l
    → Counted lost back s
    → Counted lost back (run_task locks s)
unfolding run_task
run_task-Counted locks lost back s [] e c = record {
  asynchronous = ground (arith, e, c.asynchronous);
  in_range = ground (arith, e, c.in_range);
  count = ground (arith, e, c.count);
}
run_task-Counted locks lost back s (ev ∷ rest) e c =
    let frame = sync_do_append-frame locks ev s.appender in
    let off = (steps s.appender.in_flight back).2 in
    let size : length s.tasks ≡ suc (length rest) = ap length e in
    rw e (record {
      asynchronous = frame.0 ∙ c.asynchronous;
      in_range = omega arith;
      count = rw (frame.1) (omega (arith, c.count, off, size));
    })

act-Counted :
    (lost back : ℕ) (s : Posted) (a : Action)
    → Counted lost back s
    → Counted (lost + drops (a ∷ [])) (back + rethrows (a ∷ [])) (act s a)
unfolding act do_append drops rethrows
act-Counted lost back s (logs queued ev) c =
    let size = length-append s.tasks (ev ∷ []) in
    let on = (steps s.appender.in_flight back).0 in
    rw (c.asynchronous) (record {
      asynchronous = refl;
      in_range = omega arith;
      count = omega (arith, c.count, size, on);
    })
act-Counted lost back s (logs dropped ev) c =
    let on = (steps s.appender.in_flight back).0 in
    rw (c.asynchronous)
      (record { asynchronous = refl; in_range = omega arith; count = omega (arith, c.count, on) })
act-Counted lost back s (logs failed ev) c =
    let both = (steps s.appender.in_flight back).3 in
    rw (c.asynchronous)
      (record { asynchronous = refl; in_range = omega arith; count = omega (arith, c.count, both) })
act-Counted lost back s (logs rethrown ev) c =
    let counted = record s.appender {
      async = true;
      in_flight = (s.appender.in_flight + 1) % size_t_values;
    } in
    let frame = sync_do_append-frame true ev counted in
    rw (c.asynchronous) (record {
      asynchronous = frame.0;
      in_range = omega arith;
      count = rw (frame.1) (omega (arith, c.count, twice s.appender.in_flight back));
    })
act-Counted lost back s (runs locks) c =
    rw (add-zero lost, add-zero back) (run_task-Counted locks lost back s s.tasks refl c)

drops-cons : (a : Action) (later : List Action) → drops (a ∷ later) ≡ drops (a ∷ []) + drops later
unfolding drops
drops-cons (logs queued ev) later = omega arith
drops-cons (logs dropped ev) later = omega arith
drops-cons (logs failed ev) later = omega arith
drops-cons (logs rethrown ev) later = omega arith
drops-cons (runs locks) later = omega arith

rethrows-cons :
    (a : Action) (later : List Action) → rethrows (a ∷ later) ≡ rethrows (a ∷ []) + rethrows later
unfolding rethrows
rethrows-cons (logs queued ev) later = omega arith
rethrows-cons (logs dropped ev) later = omega arith
rethrows-cons (logs failed ev) later = omega arith
rethrows-cons (logs rethrown ev) later = omega arith
rethrows-cons (runs locks) later = omega arith

acts-Counted :
    (lost back : ℕ) (s : Posted) (later : List Action)
    → Counted lost back s
    → Counted (lost + drops later) (back + rethrows later) (acts s later)
unfolding acts
acts-Counted lost back s [] c =
    unfold drops in unfold rethrows in rw (add-zero lost, add-zero back) c
acts-Counted lost back s (a ∷ later) c =
    let d : lost + drops (a ∷ later) ≡ lost + drops (a ∷ []) + drops later =
      omega (arith, drops-cons a later) in
    let r : back + rethrows (a ∷ later) ≡ back + rethrows (a ∷ []) + rethrows later =
      omega (arith, rethrows-cons a later) in
    rw (d, r)
      (acts-Counted (lost + drops (a ∷ [])) (back + rethrows (a ∷ [])) (act s a) later
        (act-Counted lost back s a c))

-- Take an asynchronous appender with as many tasks in the pool as it counts in flight, and any
-- sequence of log calls and finished tasks. Afterwards the wait of close and shutdown can end exactly
-- when the tasks that are left in the pool and the events that the full pool dropped are together
-- as many, modulo 2^64, as the exceptions of tasks that came back to the caller of `doAppend`: an
-- event that is dropped is counted as in flight ever after, and one whose task's exception comes
-- back is taken off twice.
pub finished_iff :
    (s : Posted) (later : List Action)
    → s.appender.async ≡ true
    → s.appender.in_flight ≡ length s.tasks
    → s.appender.in_flight < size_t_values
    → (is_finished (acts s later).appender ≡ true) ↔ (
        (length (acts s later).tasks + drops later) % size_t_values
        ≡ rethrows later % size_t_values)
unfolding is_finished
finished_iff s later async count range =
    let c =
      acts-Counted 0 0 s later
        (record { asynchronous = async; in_range = range; count = omega (arith, count) }) in
    let below = c.in_range in
    let total = c.count in
    (
      λ e.
          let zero_left : (acts s later).appender.in_flight ≡ 0 =
            ground (arith, c.asynchronous, e) in
          omega (arith, zero_left, total),
      λ p.
          let zero_left : (acts s later).appender.in_flight ≡ 0 = omega (arith, p, below, total) in
          ground (arith, c.asynchronous, zero_left),
    )
