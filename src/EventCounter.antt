-- ===== src/EventCounter.antt =====
-- src/eventcounter.cxx: the counter of events and the gate that lets a report through from time to
-- time. `enqueueAsyncDoAppend` reports with it how many events were dropped.
--
-- Time points are numbers. The mutex and the atomic counter make each call one step. The counter
-- has 64 bits.
use log4cplus.Common.{
  ℕ, suc, ◌+◌, ◌-◌, ◌^◌, ◌%◌, ◌<◌, ◌≡◌, ◌∙◌, Bool, not, Option, none, some, List, [], ◌∷◌, leb,
  ◌==◌, if◌then◌else◌, arith,
}

pub record Gate : Type 0 where
  pub event_count : ℕ
  pub pause_duration : ℕ
  pub timeout_point : ℕ
  pub prev_timeout_point : ℕ

pub record Info : Type 0 where
  pub count : ℕ
  pub time_span : ℕ

abbrev pub new_gate : ℕ → ℕ → Gate
new_gate pause now = record {
  event_count = 0;
  pause_duration = pause;
  timeout_point = now;
  prev_timeout_point = now;
}

-- `BaseEventCounter::record_event`
unfoldable pub record_event : Gate → Gate
record_event g = record g { event_count = (g.event_count + 1) % 2 ^ 64 }

-- `SteadyClockGate::latch_open` at the time `now`; `free` is what `try_lock` returns.
unfoldable pub latch_open : Bool → ℕ → Gate → Option Info × Gate
latch_open free now g =
    if g.event_count == 0
    then (none, g)
    else if not free
    then (none, g)
    else if leb g.timeout_point now
    then (
      some (record { count = g.event_count; time_span = now - g.prev_timeout_point }),
      record g { prev_timeout_point = now; timeout_point = g.timeout_point + g.pause_duration },
    )
    else (none, g)

-- Calls: an event, or an attempt to report at a time.
pub data Call : Type 0 where
  event : Call
  attempt : Bool → ℕ → Call

unfoldable pub call : Call → Gate → Gate
unfolding record_event latch_open
call event g = record_event g
call (attempt free now) g = (latch_open free now g).1

unfoldable pub calls : List Call → Gate → Gate
unfolding call
calls [] g = g
calls (c ∷ cs) g = calls cs (call c g)

unfoldable pub events : List Call → ℕ
events [] = 0
events (event ∷ cs) = suc (events cs)
events (attempt free now ∷ cs) = events cs

latch_open-count :
    (free : Bool) (now : ℕ) (g : Gate) → (latch_open free now g).1.event_count ≡ g.event_count
unfolding latch_open
latch_open-count free now g = ground arith

-- The counter counts every event since the gate was made: a report does not take away what it
-- reported. There are fewer than 2 ^ 64 events.
pub event_count-calls :
    (cs : List Call) (g : Gate)
    → g.event_count + events cs < 2 ^ 64
    → (calls cs g).event_count ≡ g.event_count + events cs
unfolding calls call events record_event
event_count-calls [] g h = omega arith
event_count-calls (event ∷ cs) g h =
    let small : (g.event_count + 1) % 2 ^ 64 ≡ g.event_count + 1 = omega (arith, h) in
    event_count-calls cs (record_event g) (omega (arith, h, small)) ∙ omega (arith, small)
event_count-calls (attempt free now ∷ cs) g h =
    let same = latch_open-count free now g in
    event_count-calls cs (latch_open free now g).1 (omega (arith, h, same)) ∙ omega (arith, same)

-- A report tells the number of all events since the gate was made, but the time since the report
-- before it.
pub latch_open-report :
    (cs : List Call) (pause start now : ℕ) (free : Bool) (info : Info)
    → events cs < 2 ^ 64
    → (latch_open free now (calls cs (new_gate pause start))).0 ≡ some info
    → (info.count ≡ events cs)
      × (info.time_span ≡ now - (calls cs (new_gate pause start)).prev_timeout_point)
unfolding latch_open
latch_open-report cs pause start now free info h e =
    let all = event_count-calls cs (new_gate pause start) (omega (arith, h)) in
    let counted : info.count ≡ (calls cs (new_gate pause start)).event_count = ground (arith, e) in
    (omega (arith, all, counted), ground (arith, e))
