-- ===== src/Hierarchy/Order.antt =====
-- The tree depends on the set of names only.
use log4cplus.Common.{
  ℕ, ◌≡◌, refl, Bool, true, false, Option, none, some, List, [], ◌∷◌, Text, Option-cases, inl, inr,
  arith, codes, if◌then◌else◌,
}
use log4cplus.Common.Map.{Map, find}
use log4cplus.Hierarchy.Names.{prefixes}
use log4cplus.Hierarchy.Closest.{closest, nearest, closest_at_root, closest_at_nearest}
use log4cplus.Hierarchy.Inv.{Inv}
use log4cplus.Hierarchy.{Hierarchy, LoggerImpl}

-- The name of the parent of the logger at a name.
name_of : (ℕ → LoggerImpl) → Option ℕ → Option Text
name_of heap none = none
name_of heap (some p) = some (heap p).name

pub parent_name : Text → Hierarchy → Option Text
unfolding name_of
parent_name n h = elim (find n h.logger_ptrs) [
  | none ↦ none
  | some a ↦ name_of h.heap (h.heap a).parent
]

abbrev pub there : Text → Map ℕ → Bool
there n m = elim (find n m) [ none ↦ false | some a ↦ true ]

nearest-there :
    (m m' : Map ℕ) (ps : List Text)
    → ((n : Text) → there n m ≡ there n m')
    → nearest m ps ≡ nearest m' ps
unfolding nearest
nearest-there m m' [] same = refl
nearest-there m m' (p ∷ ps) same = ground (arith, same p, nearest-there m m' ps same)

abbrev pub root_or : Option Text → Text
root_or none = codes "root"
root_or (some q) = q

closest_name :
    (h : Hierarchy) (ps : List Text)
    → Inv h
    → (h.heap (closest h.logger_ptrs ps)).name ≡ root_or (nearest h.logger_ptrs ps)
closest_name h ps v = elim (Option-cases (nearest h.logger_ptrs ps)) [
  | inl e ↦ ground (arith, e, closest_at_root h.logger_ptrs ps e, v.root_name)
  | inr (q, e) ↦
      ground
        (arith, e, v.named q (closest h.logger_ptrs ps) (closest_at_nearest h.logger_ptrs q ps e).0)
]

pub parent_name_lem :
    (n : Text) (h : Hierarchy)
    → Inv h
    → parent_name n h ≡ (
        if there n h.logger_ptrs then some (root_or (nearest h.logger_ptrs (prefixes n))) else none)
unfolding parent_name
parent_name_lem n h v = elim (Option-cases (find n h.logger_ptrs)) [
  | inl e ↦ ground (arith, e)
  | inr (a, e) ↦ ground (arith, e, v.parented n a e, closest_name h (prefixes n) v)
]

-- Two trees that satisfy the invariant and have loggers at the same names have, at every name,
-- parents with the same name: the order in which the loggers were made does not matter.
pub parent_name-order :
    (n : Text) (h h' : Hierarchy)
    → Inv h
    → Inv h'
    → ((p : Text) → there p h.logger_ptrs ≡ there p h'.logger_ptrs)
    → parent_name n h ≡ parent_name n h'
parent_name-order n h h' v v' same = ground (
  arith,
  same n,
  nearest-there h.logger_ptrs h'.logger_ptrs (prefixes n) same,
  parent_name_lem n h v,
  parent_name_lem n h' v',
)
