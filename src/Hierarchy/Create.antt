-- ===== src/Hierarchy/Create.antt =====
-- Making a logger keeps the invariant of the tree: the part after `updateChildren`.
use log4cplus.Common.{
  ℕ, ◌+◌, ◌<◌, ◌≡◌, ◌≢◌, sym, ap, ◌∙◌, true, false, ◌&&◌, ◌||◌, none, some, [], Text, text_eq,
  text_eq_iff, text_eq_refl, arith, ◌==◌, if◌then◌else◌,
}
use log4cplus.Common.Map.{find, assign, find-assign}
use log4cplus.Hierarchy.Names.{prefixes}
use log4cplus.Hierarchy.Prefixes.{has}
use log4cplus.Hierarchy.Closest.{closest, pending, has-pending, pending-assign}
use log4cplus.Hierarchy.Parents.{member, Linked}
use log4cplus.Hierarchy.Inv.{Inv}
use log4cplus.Hierarchy.{Hierarchy}

-- The state between `updateChildren` and `updateParents`: the children point to the new logger.
pub record Adopted (name : Text) (h h₂ : Hierarchy) : Type 0 where
  pub next : h₂.next ≡ h.next + 1
  pub logger_ptrs : h₂.logger_ptrs ≡ assign name h.next h.logger_ptrs
  pub names : (x : ℕ) → (h₂.heap x).name ≡ (if x == h.next then name else (h.heap x).name)
  pub root_parent : (h₂.heap 0).parent ≡ none
  pub parented :
      (n : Text) (a : ℕ)
      → find n h.logger_ptrs ≡ some a
      → (h₂.heap a).parent ≡ some (closest h₂.logger_ptrs (prefixes n))
  pub members :
      (a : ℕ) (p : Text) → member a p h₂ ≡ (if text_eq name p then false else member a p h)

module _ (name : Text) (h h₂ h₃ : Hierarchy) (v : Inv h) (fresh : find name h.logger_ptrs ≡ none)
    (mid : Adopted name h h₂) (end : Linked h.next (prefixes name) h₂ h₃) where
  abbrev l : ℕ
  l = h.next

  found :
      (n : Text) → find n h₃.logger_ptrs ≡ (if text_eq name n then some l else find n h.logger_ptrs)
  found n = ground (arith, end.logger_ptrs, mid.logger_ptrs, find-assign name n l h.logger_ptrs)

  named : (x : ℕ) → (h₃.heap x).name ≡ (if x == l then name else (h.heap x).name)
  named x = rw end.heap (ground (arith, mid.names x, mid.names l))

  parent_of :
      (x : ℕ)
      → (h₃.heap x).parent
        ≡ (if x == l then some (closest h₃.logger_ptrs (prefixes name)) else (h₂.heap x).parent)
  parent_of x = rw end.heap (ground (arith, end.logger_ptrs))

  address : (n : Text) (a : ℕ) → find n h₃.logger_ptrs ≡ some a → (0 < a) × (a < h₃.next)
  address n a e = ground (arith, found n, v.address n a, v.some_room, end.next, mid.next)

  named_at : (n : Text) (a : ℕ) → find n h₃.logger_ptrs ≡ some a → (h₃.heap a).name ≡ n
  named_at n a e = ground (arith, found n, named a, v.address n a, v.named n a, text_eq_iff name n)

  parented :
      (n : Text) (a : ℕ)
      → find n h₃.logger_ptrs ≡ some a
      → (h₃.heap a).parent ≡ some (closest h₃.logger_ptrs (prefixes n))
  parented n a e = ground (
    arith,
    found n,
    parent_of a,
    v.address n a,
    mid.parented n a,
    text_eq_iff name n,
    end.logger_ptrs,
  )

  members :
      (a : ℕ) (p : Text)
      → member a p h₃
        ≡ (if text_eq name p then false else member a p h)
          || (a == l && pending h₃.logger_ptrs p (prefixes name))
  members a p = ground (arith, end.members a p, mid.members a p, end.logger_ptrs)

  now_pending :
      (n p : Text)
      → pending h₃.logger_ptrs p (prefixes n) ≡ true
      → (pending h.logger_ptrs p (prefixes n) ≡ true) × (text_eq name p ≡ false)
  now_pending n p w =
      pending-assign h.logger_ptrs name p l (prefixes n)
        (ap (λ m. pending m p (prefixes n)) (sym mid.logger_ptrs ∙ sym end.logger_ptrs) ∙ w)

  waits :
      (n : Text) (a : ℕ) (p : Text)
      → find n h₃.logger_ptrs ≡ some a
      → pending h₃.logger_ptrs p (prefixes n) ≡ true
      → member a p h₃ ≡ true
  waits n a p e w =
      ground (arith, found n, members a p, text_eq_iff name n, v.waits n a p, now_pending n p w)

  known :
      (a : ℕ) (p : Text)
      → member a p h₃ ≡ true
      → (find (h₃.heap a).name h₃.logger_ptrs ≡ some a) × (has p (prefixes (h₃.heap a).name) ≡ true)
  known a p m = ground (
    arith,
    members a p,
    named a,
    v.known a p,
    found (h.heap a).name,
    found name,
    text_eq_iff name (h.heap a).name,
    text_eq_refl name,
    v.address (h.heap a).name a,
    has-pending h₃.logger_ptrs p (prefixes name),
  )

  pub Linked-Inv : name ≢ [] → Inv h₃
  Linked-Inv nonempty = record {
    root_name = ground (arith, named 0, v.root_name, v.some_room);
    root_parent = ground (arith, parent_of 0, mid.root_parent, v.some_room);
    some_room = ground (arith, end.next, mid.next);
    no_empty = ground (arith, found [], text_eq_iff name [], v.no_empty);
    address = address;
    named = named_at;
    parented = parented;
    waits = waits;
    known = known;
  }
