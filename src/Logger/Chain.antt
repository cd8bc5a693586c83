-- ===== src/Logger/Chain.antt =====
-- The parent chain of a logger is the list of its existing ancestors by name, and then the root.
use log4cplus.Common.{
  ℕ, zero, suc, ◌-◌, ◌≤◌, ◌<◌, ◌≡◌, refl, Option, none, some, List, [], ◌∷◌, ◌++◌, Text, length,
  length-append, take, take-take, get_elem?-take, Option-cases, inl, inr, arith,
}
use log4cplus.Common.Map.{Map, find}
use log4cplus.Hierarchy.Names.{prefixes_from, prefixes}
use log4cplus.Hierarchy.Prefixes.{has-prefixes_from, length-take_le}
use log4cplus.Hierarchy.Closest.{closest, nearest, closest_at_root, closest_at_nearest}
use log4cplus.Hierarchy.Inv.{Inv}
use log4cplus.Hierarchy.{Hierarchy, LoggerImpl}

-- The loggers that exist at the given names.
unfoldable pub existing : Map ℕ → List Text → List ℕ
existing m [] = []
existing m (p ∷ ps) = elim (find p m) [ none ↦ existing m ps | some a ↦ a ∷ existing m ps ]

-- The specification: the existing ancestors by name, closest first, and the root.
abbrev pub ancestry : Map ℕ → Text → List ℕ
ancestry m n = existing m (prefixes n) ++ 0 ∷ []

-- Following parent pointers from `c` gives the list and ends at a null pointer.
abbrev pub IsChain : (ℕ → LoggerImpl) → Option ℕ → List ℕ → Type 0
IsChain heap c [] = c ≡ none
IsChain heap c (x ∷ xs) = (c ≡ some x) × IsChain heap (heap x).parent xs

existing-none : (m : Map ℕ) (ps : List Text) → nearest m ps ≡ none → existing m ps ≡ []
unfolding nearest existing
existing-none m [] e = refl
existing-none m (p ∷ ps) e = ground (arith, existing-none m ps)

-- The parent names of a parent name are those that follow it.
prefixes_from-take : (n : Text) (i j : ℕ) → i < j → prefixes_from (take j n) i ≡ prefixes_from n i
unfolding prefixes_from
prefixes_from-take n zero j h = refl
prefixes_from-take n (suc i) j h =
    ground (arith, prefixes_from-take n i j, get_elem?-take (suc i) j n, take-take (suc i) j n)

existing-nearest :
    (m : Map ℕ) (n q : Text) (k : ℕ)
    → k < length n
    → nearest m (prefixes_from n k) ≡ some q
    → existing m (prefixes_from n k) ≡ closest m (prefixes_from n k) ∷ existing m (prefixes q)
unfolding nearest existing closest prefixes_from prefixes
existing-nearest m n q zero lt e = cc
existing-nearest m n q (suc k) lt e =
    ground
      (arith, existing-nearest m n q k, prefixes_from-take n k (suc k), length-take_le n (suc k))

length-existing : (m : Map ℕ) (n : Text) (k : ℕ) → length (existing m (prefixes_from n k)) ≤ k
unfolding existing prefixes_from
length-existing m n zero = omega arith
length-existing m n (suc k) = ground (arith, length-existing m n k)

existing_name_length :
    (h : Hierarchy) (q : Text) (a : ℕ) → Inv h → find q h.logger_ptrs ≡ some a → 0 < length q
existing_name_length h [] a v e = cc (v.no_empty)
existing_name_length h (c ∷ q) a v e = omega arith

IsChain-at_root : (h : Hierarchy) → Inv h → IsChain h.heap (some 0) (0 ∷ [])
IsChain-at_root h v = (refl, v.root_parent)

IsChain-from_closest :
    (h : Hierarchy) (k : ℕ) (n : Text)
    → Inv h
    → length n ≤ k
    → 0 < length n
    → IsChain h.heap (some (closest h.logger_ptrs (prefixes n))) (ancestry h.logger_ptrs n)
unfolding prefixes
IsChain-from_closest h zero n v le pos = absurd (omega arith)
IsChain-from_closest h (suc k) n v le pos =
    let m = h.logger_ptrs in
    elim (Option-cases (nearest m (prefixes n))) [
      | inl e ↦
          rw (existing-none m (prefixes n) e, closest_at_root m (prefixes n) e)
            (IsChain-at_root h v)
      | inr (q, e) ↦
          let (f, below) = closest_at_nearest m q (prefixes n) e in
          let shorter = has-prefixes_from n q (length n - 1) (omega arith) below in
          let up =
            IsChain-from_closest h k q v (omega (arith, shorter.0))
              (existing_name_length h q _ v f) in
          rw (existing-nearest m n q (length n - 1) (omega arith) e)
            (refl, rw (v.parented q _ f) up)
    ]

-- In a tree that satisfies the invariant, following the parent pointers from the logger at `n`
-- visits that logger, the existing ancestors of `n` by name from the closest to the farthest, then
-- the root, and ends.
pub parent-IsChain :
    (h : Hierarchy) (n : Text) (a : ℕ)
    → Inv h
    → find n h.logger_ptrs ≡ some a
    → IsChain h.heap (some a) (a ∷ ancestry h.logger_ptrs n)
parent-IsChain h n a v e = (
  refl,
  rw (v.parented n a e)
      (IsChain-from_closest h (length n) n v (omega arith) (existing_name_length h n a v e)),
)

-- The chain is no longer than the name.
pub length-ancestry :
    (h : Hierarchy) (n : Text) (a : ℕ)
    → Inv h
    → find n h.logger_ptrs ≡ some a
    → length (ancestry h.logger_ptrs n) ≤ length n
unfolding prefixes
length-ancestry h n a v e = omega (
  arith,
  length-existing h.logger_ptrs n (length n - 1),
  length-append (existing h.logger_ptrs (prefixes_from n (length n - 1))) (0 ∷ []),
  existing_name_length h n a v e,
)
