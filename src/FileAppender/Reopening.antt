-- ===== src/FileAppender/Reopening.antt =====
-- When a file appender opens its file again.
use log4cplus.Common.{
  ℕ, ◌+◌, ◌*◌, ◌≤◌, ◌<◌, ◌≡◌, refl, Bool, true, false, List, [], ◌∷◌, map, leb, Bool-cases, inl,
  inr, arith,
}
use log4cplus.FileAppender.{Stream, reopen, append_event, behind_write, open_stream}

-- A series of events at given times, where the file can be opened and written at any time: which
-- of them are written.
pub written_events : ℕ → List ℕ → Stream → List Bool
written_events reopen_delay [] out = []
written_events reopen_delay (now ∷ later) out =
    let (out', written) = append_event reopen_delay now true true out in
    written ∷ written_events reopen_delay later out'

-- The times do not fall.
abbrev pub IsMonotone : ℕ → List ℕ → Type 0
IsMonotone t [] = Unit {0}
IsMonotone t (u ∷ us) = (t ≤ u) × IsMonotone u us

good-written :
    (delay bound t : ℕ) (times : List ℕ) (out : Stream)
    → out.good ≡ true
    → bound ≤ t
    → IsMonotone t times
    → written_events delay times out ≡ map (leb bound) times
unfolding written_events append_event
good-written delay bound t [] out g b m = refl
good-written delay bound t (now ∷ later) out g b (le, m) = ground (
  arith,
  g,
  b,
  le,
  good-written delay bound now later (behind_write true out) refl (omega (arith, b, le)) m,
)

waiting-written :
    (delay bound t : ℕ) (times : List ℕ) (out : Stream)
    → out.good ≡ false
    → out.reopen_time ≡ bound
    → 0 < bound
    → 0 < delay
    → IsMonotone t times
    → written_events delay times out ≡ map (leb bound) times
unfolding written_events append_event
waiting-written delay bound t [] out g e p d m = refl
waiting-written delay bound t (now ∷ later) out g e p d (le, m) =
    elim (Bool-cases (leb bound now)) [
      | inl due ↦ ground (
        arith,
        g,
        e,
        p,
        d,
        due,
        good-written delay bound now later
            (behind_write true (record (open_stream true out) { reopen_time = 0 })) refl
            (ground (arith, due)) m,
      )
      | inr early ↦
          ground (arith, g, e, p, d, early, waiting-written delay bound now later out g e p d m)
    ]

-- Where the stream is bad and no time is set, with a delay of at least a second: the first event
-- is lost and sets the time; from then on an event is lost before the delay is over, and written
-- from then on, at the first attempt and at all that follow, where the file can be opened and
-- written.
pub written_events-delay :
    (delay first : ℕ) (later : List ℕ) (out : Stream)
    → out.good ≡ false
    → out.reopen_time ≡ 0
    → 0 < delay
    → IsMonotone first later
    → written_events delay (first ∷ later) out ≡ map (leb (first + delay * 1000000)) (first ∷ later)
unfolding written_events append_event reopen
written_events-delay delay first later out g e d m =
    let due = first + delay * 1000000 in
    let out' = record out { reopen_time = due } in
    ground
      (arith, g, e, d, waiting-written delay due first later out' g refl (omega (arith, d)) d m)

-- Without a delay every event is written.
pub written_events-at_once :
    (first : ℕ) (later : List ℕ) (out : Stream)
    → out.good ≡ false
    → out.reopen_time ≡ 0
    → IsMonotone first later
    → written_events 0 (first ∷ later) out ≡ map (leb 0) (first ∷ later)
unfolding written_events append_event reopen
written_events-at_once first later out g e m =
    let out' = record (open_stream true out) { reopen_time = 0 } in
    ground (arith, g, e, good-written 0 0 first later (behind_write true out') refl (omega arith) m)
