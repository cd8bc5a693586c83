-- ===== src/Connector/Runs.antt =====
-- What holds in every run of an appender and its connector thread.
use log4cplus.Common.{
  ◌≡◌, ◌≢◌, refl, ap, ◌∙◌, Bool, true, false, List, [], ◌∷◌, replicate, map, Bool-cases, inl, inr,
  arith,
}
use log4cplus.Connector.{
  Place, waiting, woken, resetting, connecting, holding, sleeping, ended, Connection, start, write,
  append, run_at, run_step, terminate, Act, event, thread, stop, act, acts,
}

-- The places where the thread has seen the socket closed.
abbrev pub has_seen_closed : Place → Bool
has_seen_closed connecting = true
has_seen_closed holding = true
has_seen_closed sleeping = true
has_seen_closed waiting = false
has_seen_closed woken = false
has_seen_closed resetting = false
has_seen_closed ended = false

-- An open socket is known as connected; only the thread opens it, so that it is still closed where
-- the thread has seen it closed.
pub record Inv (c : Connection) : Type 0 where
  pub known : c.is_open ≡ true → c.connected ≡ true
  pub alone : has_seen_closed c.place ≡ true → c.is_open ≡ false

run_at-Inv :
    (connects : Bool) (place : Place) (c : Connection)
    → c.place ≡ place
    → Inv c
    → Inv (run_at connects place c)
unfolding run_at
run_at-Inv connects waiting c e i = record { known = i.known; alone = λ h. cc }
run_at-Inv connects woken c e i = elim (Bool-cases c.exit_flag) [
  | inl x ↦ rw x (record { known = i.known; alone = λ h. cc })
  | inr x ↦ rw x (record { known = i.known; alone = λ h. cc })
]
run_at-Inv connects resetting c e i = elim (Bool-cases c.is_open) [
  | inl x ↦ record { known = ground (arith, x, i.known x); alone = ground (arith, x) }
  | inr x ↦ record { known = ground (arith, x); alone = ground (arith, x) }
]
run_at-Inv connects connecting c e i =
    let shut = i.alone (rw e refl) in
    record { known = ground (arith, shut); alone = ground (arith, shut) }
run_at-Inv connects holding c e i = record { known = λ h. refl; alone = λ h. cc }
run_at-Inv connects sleeping c e i = record { known = i.known; alone = λ h. cc }
run_at-Inv connects ended c e i = i

append-Inv : (converts sends : Bool) (c : Connection) → Inv c → Inv (append converts sends c).0
unfolding append write
append-Inv converts sends c i = record {
  known = ground (arith, i.known);
  alone = ground (arith, i.alone);
}

-- In every run, whatever the schedule, the system and the time of the exit: an open socket is known
-- as connected, and the thread replaces the socket only where it is closed.
pub acts-Inv : (as' : List Act) (c : Connection) → Inv c → Inv (acts as' c)
unfolding acts act run_step terminate
acts-Inv [] c i = i
acts-Inv (event converts sends ∷ as') c i =
    acts-Inv as' (append converts sends c).0 (append-Inv converts sends c i)
acts-Inv (thread connects ∷ as') c i =
    acts-Inv as' (run_step connects c) (run_at-Inv connects c.place c refl i)
acts-Inv (stop ∷ as') c i = acts-Inv as' (terminate c) (record { known = i.known; alone = i.alone })

connected_again :
    (o k t : Bool) (p : Place)
    → p ≢ ended
    → (acts (replicate 6 (thread true)) (record {
      is_open = o;
      connected = k;
      triggered = t;
      exit_flag = false;
      place = p;
    })).is_open
      ≡ true
unfolding acts act run_step run_at
connected_again true k t waiting h = refl
connected_again false k t waiting h = refl
connected_again true k t woken h = refl
connected_again false k t woken h = refl
connected_again true k t resetting h = refl
connected_again false k t resetting h = refl
connected_again o k t connecting h = refl
connected_again o k t holding h = refl
connected_again true k t sleeping h = refl
connected_again false k t sleeping h = refl
connected_again o k t ended h = absurd (h refl)

start-Inv : (connects : Bool) → Inv (start connects)
start-Inv connects = record { known = λ h. refl; alone = λ h. cc }

-- Take any run of events, steps of the thread and calls of `terminate` from the start, after which
-- the thread has neither ended nor is to end. After six more steps of the thread, without an event
-- between them, in which the connections that it tries succeed, the appender is connected, and it
-- sends an event that fits in its buffer and that the system takes. An event that does not fit is
-- not sent and leaves the connection as it is.
pub append-reconnected :
    (connects : Bool) (before : List Act)
    → (acts before (start connects)).exit_flag ≡ false
    → (acts before (start connects)).place ≢ ended
    → ((acts (replicate 6 (thread true)) (acts before (start connects))).connected ≡ true)
      × ((append true true (acts (replicate 6 (thread true)) (acts before (start connects)))).1
          ≡ true)
      × ((sends : Bool)
          → append false sends (acts (replicate 6 (thread true)) (acts before (start connects)))
            ≡ (acts (replicate 6 (thread true)) (acts before (start connects)), false))
unfolding append write
append-reconnected connects before running h =
    let c = acts before (start connects) in
    let i = acts-Inv before (start connects) (start-Inv connects) in
    let c' = acts (replicate 6 (thread true)) c in
    let whole : c ≡ record c { exit_flag = false } = ground (arith, running) in
    let opened : c'.is_open ≡ true =
      ap (λ x. (acts (replicate 6 (thread true)) x).is_open) whole
      ∙ connected_again c.is_open c.connected c.triggered c.place h in
    let known = (acts-Inv (replicate 6 (thread true)) c i).known opened in
    (known, ground (arith, opened, known), λ sends. ground (arith, opened, known))

stopped :
    (a b d e f o k t : Bool) (p : Place)
    → (acts
        (map thread (a ∷ b ∷ d ∷ e ∷ f ∷ []))
        (record { is_open = o; connected = k; triggered = t; exit_flag = true; place = p })).place
      ≡ ended
unfolding acts act run_step run_at
stopped a b d e f o k t waiting = refl
stopped a b d e f o k t woken = refl
stopped a b d e f true k t resetting = refl
stopped a true d e f false k t resetting = refl
stopped a false d e f false k t resetting = refl
stopped true b d e f o k t connecting = refl
stopped false b d e f o k t connecting = refl
stopped a b d e f o k t holding = refl
stopped a b d e f o k t sleeping = refl
stopped a b d e f o k t ended = refl

-- Once `terminate` has been called the thread ends within five of its steps, wherever it is and
-- whether or not its connections succeed.
pub terminate-ends :
    (a b d e f : Bool) (c : Connection)
    → (acts (map thread (a ∷ b ∷ d ∷ e ∷ f ∷ [])) (terminate c)).place ≡ ended
unfolding terminate
terminate-ends a b d e f c = stopped a b d e f c.is_open c.connected true c.place
