-- ===== src/Queue/Invariant.antt =====
-- What holds of the queue whatever the interleaving.
use mathlib.Core.List.{append-nil, append_assoc}
use log4cplus.Common.{
  ℕ, ◌+◌, ◌≤◌, ◌<◌, ◌≡◌, refl, sym, ap, ◌∙◌, Bool, true, false, not, List, [], ◌∷◌, ◌++◌, length,
  length-append, is_empty, arith, inl, inr, ◌⊎◌,
}
use log4cplus.Event.{LoggingEvent}
use log4cplus.Queue.{
  Queue, start, put_event, signal_exit, get_events, finish, consume, Step, takes_slot, puts, exits,
  consumes,
}

pub record Inv (q : Queue) : Type 0 where
  pub flagged : q.queue_bit ≡ not (is_empty q.queue)
  pub slots : q.sem + q.holders + length q.queue ≤ q.max
  pub order : q.accepted ≡ q.delivered ++ (q.discarded ++ q.queue)
  pub thrown : is_empty q.discarded ≡ false → (q.exit ≡ true) × (q.drain ≡ false) × (q.queue ≡ [])
  pub stopped : q.running ≡ false → (q.exit ≡ true) × (q.queue ≡ [])

pub start-Inv : (len : ℕ) → Inv (start len)
unfolding start
start-Inv len = record {
  flagged = refl;
  slots = omega arith;
  order = refl;
  thrown = λ e. cc;
  stopped = λ e. cc;
}

empty-snoc : (l : List LoggingEvent) (ev : LoggingEvent) → is_empty (l ++ ev ∷ []) ≡ false
empty-snoc [] ev = refl
empty-snoc (x ∷ l) ev = refl

pub is_empty-nil : (l : List LoggingEvent) → is_empty l ≡ true → l ≡ []
is_empty-nil [] e = refl
is_empty-nil (x ∷ l) e = cc

snoc_order :
    (a d c q : List LoggingEvent) (ev : LoggingEvent)
    → a ≡ d ++ (c ++ q)
    → a ++ ev ∷ [] ≡ d ++ (c ++ (q ++ ev ∷ []))
snoc_order a d c q ev e =
    ap (λ l. l ++ ev ∷ []) e
    ∙ append_assoc d (c ++ q) (ev ∷ [])
    ∙ ap (λ l. d ++ l) (append_assoc c q (ev ∷ []))

drained : (a d c q : List LoggingEvent) → a ≡ d ++ (c ++ q) → c ≡ [] → a ≡ (d ++ q) ++ (c ++ [])
drained a d c q e f = rw (f, append-nil) (e ∙ ap (λ l. d ++ (l ++ q)) f)

thrown_away : (a d c q : List LoggingEvent) → a ≡ d ++ (c ++ q) → a ≡ d ++ ((c ++ q) ++ [])
thrown_away a d c q e = rw (append-nil) e

pub is_clear : (l : List LoggingEvent) → false ≡ not (is_empty l) → is_empty l ≡ true
is_clear [] e = refl
is_clear (x ∷ l) e = cc

length-nonempty : (l : List LoggingEvent) → true ≡ not (is_empty l) → 1 ≤ length l
length-nonempty [] e = cc
length-nonempty (x ∷ l) e = omega arith

-- Nothing is thrown away before EXIT, nor with DRAIN.
pub nothing_discarded :
    {x d : Bool} (c q : List LoggingEvent)
    → (is_empty c ≡ false → (x ≡ true) × (d ≡ false) × (q ≡ []))
    → (x ≡ false) ⊎ (d ≡ true)
    → c ≡ []
nothing_discarded [] q f o = refl
nothing_discarded (y ∷ c) q f (inl e) = let p = f refl in cc
nothing_discarded (y ∷ c) q f (inr e) = let p = f refl in cc

module _ (max sem holders : ℕ) (queue accepted delivered discarded : List LoggingEvent) where
  -- A queue with the given bits, the rest of it fixed.
  unfoldable pub with_bits : Bool → Bool → Bool → Bool → Queue
  with_bits bit x d r = record {
    max = max;
    sem = sem;
    holders = holders;
    queue = queue;
    queue_bit = bit;
    exit = x;
    drain = d;
    running = r;
    accepted = accepted;
    delivered = delivered;
    discarded = discarded;
  }

  put_bits :
      (bit x d r : Bool) (ev : LoggingEvent)
      → 0 < holders
      → Inv (with_bits bit x d r)
      → Inv (put_event ev (with_bits bit x d r))
  unfolding with_bits put_event
  put_bits bit true d r ev h v = record {
    flagged = v.flagged;
    slots = omega (arith, v.slots);
    order = v.order;
    thrown = v.thrown;
    stopped = v.stopped;
  }
  put_bits bit false d r ev h v = record {
    flagged = sym (ap not (empty-snoc queue ev));
    slots = rw (length-append) (omega (arith, v.slots));
    order = snoc_order accepted delivered discarded queue ev v.order;
    thrown = λ t. let p = v.thrown t in cc;
    stopped = λ t. let p = v.stopped t in cc;
  }

  exit_bits :
      (bit x d r d' : Bool) → Inv (with_bits bit x d r) → Inv (signal_exit d' (with_bits bit x d r))
  unfolding with_bits signal_exit
  exit_bits bit true d r d' v = v
  exit_bits bit false d r d' v = record {
    flagged = v.flagged;
    slots = v.slots;
    order = v.order;
    thrown = λ t. let p = v.thrown t in cc;
    stopped = λ t. let p = v.stopped t in cc;
  }

  consume_bits :
      (bit x d r : Bool) → Inv (with_bits bit x d r) → Inv (consume (with_bits bit x d r))
  unfolding with_bits consume finish get_events
  consume_bits true false d r v =
      let none_lost = nothing_discarded discarded queue v.thrown (inl refl) in
      record {
        flagged = refl;
        slots = omega (arith, v.slots);
        order = drained accepted delivered discarded queue v.order none_lost;
        thrown = λ t. let p = v.thrown t in cc;
        stopped = λ t. cc;
      }
  consume_bits true true true r v =
      let none_lost = nothing_discarded discarded queue v.thrown (inr refl) in
      record {
        flagged = refl;
        slots = omega (arith, v.slots);
        order = drained accepted delivered discarded queue v.order none_lost;
        thrown = λ t. let p = v.thrown t in cc;
        stopped = λ t. cc;
      }
  consume_bits true true false r v = record {
    flagged = refl;
    slots = omega (arith, v.slots, length-nonempty queue v.flagged);
    order = thrown_away accepted delivered discarded queue v.order;
    thrown = λ t. (refl, refl, refl);
    stopped = λ t. (refl, refl);
  }
  consume_bits false true true r v = record {
    flagged = v.flagged;
    slots = v.slots;
    order = v.order;
    thrown = v.thrown;
    stopped = λ t. (refl, is_empty-nil queue (is_clear queue v.flagged));
  }
  consume_bits false true false r v = record {
    flagged = v.flagged;
    slots = v.slots;
    order = v.order;
    thrown = v.thrown;
    stopped = λ t. (refl, is_empty-nil queue (is_clear queue v.flagged));
  }
  consume_bits false false d r v = v

pub Step-Inv : {s t : Queue} → Step s t → Inv s → Inv t
unfolding with_bits
Step-Inv (takes_slot q h) v = record {
  flagged = v.flagged;
  slots = omega (arith, v.slots);
  order = v.order;
  thrown = v.thrown;
  stopped = v.stopped;
}
Step-Inv (puts q ev h) v =
    put_bits q.max q.sem q.holders q.queue q.accepted q.delivered q.discarded q.queue_bit q.exit
      q.drain q.running ev h v
Step-Inv (exits q d) v =
    exit_bits q.max q.sem q.holders q.queue q.accepted q.delivered q.discarded q.queue_bit q.exit
      q.drain q.running d v
Step-Inv (consumes q e) v =
    consume_bits q.max q.sem q.holders q.queue q.accepted q.delivered q.discarded q.queue_bit q.exit
      q.drain q.running v
