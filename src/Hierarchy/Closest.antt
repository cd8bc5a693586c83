-- ===== src/Hierarchy/Closest.antt =====
-- The specification of a parent: the closest ancestor name at which a logger exists, else the root.
use log4cplus.Common.{
  ℕ, zero, suc, ◌<◌, ◌≡◌, refl, Bool, true, false, ◌||◌, Option, none, some, List, [], ◌∷◌, Text,
  text_eq, text_eq_iff, length, take, arith, if◌then◌else◌,
}
use log4cplus.Common.Map.{Map, find, assign, find-assign}
use log4cplus.Hierarchy.Names.{starts_with, prefixes_from}
use log4cplus.Hierarchy.Prefixes.{has, has-prefixes_from, length-take_le, starts_with-take}

unfoldable pub closest : Map ℕ → List Text → ℕ
closest m [] = 0
closest m (p ∷ ps) = elim (find p m) [ none ↦ closest m ps | some a ↦ a ]

-- `p` is one of the names, and no logger exists at it nor at a name before it.
unfoldable pub pending : Map ℕ → Text → List Text → Bool
pending m p [] = false
pending m p (q ∷ qs) = elim (find q m) [ none ↦ text_eq q p || pending m p qs | some a ↦ false ]

pub has-pending : (m : Map ℕ) (p : Text) (qs : List Text) → pending m p qs ≡ true → has p qs ≡ true
unfolding pending has
has-pending m p [] h = h
has-pending m p (q ∷ qs) h = ground (arith, has-pending m p qs)

-- A new logger becomes the closest ancestor exactly where it was pending.
pub closest-assign :
    (m : Map ℕ) (k : Text) (l : ℕ) (qs : List Text)
    → find k m ≡ none
    → closest (assign k l m) qs ≡ (if pending m k qs then l else closest m qs)
unfolding closest pending
closest-assign m k l [] h = refl
closest-assign m k l (q ∷ qs) h =
    ground (arith, find-assign k q l m, text_eq_iff k q, text_eq_iff q k, closest-assign m k l qs h)

pub pending-assign :
    (m : Map ℕ) (k p : Text) (l : ℕ) (qs : List Text)
    → pending (assign k l m) p qs ≡ true
    → (pending m p qs ≡ true) × (text_eq k p ≡ false)
unfolding pending
pending-assign m k p l [] h = cc
pending-assign m k p l (q ∷ qs) h = ground (
  arith,
  find-assign k q l m,
  text_eq_iff k q,
  text_eq_iff q p,
  text_eq_iff k p,
  pending-assign m k p l qs,
)

-- The name at which `closest` finds its logger.
unfoldable pub nearest : Map ℕ → List Text → Option Text
nearest m [] = none
nearest m (q ∷ qs) = elim (find q m) [ none ↦ nearest m qs | some a ↦ some q ]

pub closest_at_root : (m : Map ℕ) (qs : List Text) → nearest m qs ≡ none → closest m qs ≡ 0
unfolding closest nearest
closest_at_root m [] h = refl
closest_at_root m (q ∷ qs) h = ground (arith, closest_at_root m qs)

pub closest_at_nearest :
    (m : Map ℕ) (q : Text) (qs : List Text)
    → nearest m qs ≡ some q
    → (find q m ≡ some (closest m qs)) × (has q qs ≡ true)
unfolding closest nearest has
closest_at_nearest m q [] h = cc
closest_at_nearest m q (p ∷ qs) h = ground (arith, text_eq_iff p q, closest_at_nearest m q qs)

-- Where `p` is pending, the closest logger above it has a shorter name.
pub nearest_far :
    (m : Map ℕ) (p q n : Text) (k : ℕ)
    → k < length n
    → pending m p (prefixes_from n k) ≡ true
    → nearest m (prefixes_from n k) ≡ some q
    → length q < length p
unfolding pending nearest prefixes_from
nearest_far m p q n zero lt h e = cc
nearest_far m p q n (suc k) lt h e = ground (
  arith,
  nearest_far m p q n k,
  text_eq_iff (take (suc k) n) p,
  length-take_le n (suc k),
  closest_at_nearest m q (prefixes_from n k),
  has-prefixes_from n q k,
)

pub pending_of_none :
    (m : Map ℕ) (p : Text) (qs : List Text)
    → nearest m qs ≡ none
    → has p qs ≡ true
    → pending m p qs ≡ true
unfolding pending nearest has
pending_of_none m p [] e h = cc
pending_of_none m p (q ∷ qs) e h = ground (arith, pending_of_none m p qs)

-- Where `p` is an ancestor name and is not pending, a logger stands below it already.
pub nearest_near :
    (m : Map ℕ) (p q n : Text) (k : ℕ)
    → k < length n
    → find p m ≡ none
    → has p (prefixes_from n k) ≡ true
    → pending m p (prefixes_from n k) ≡ false
    → nearest m (prefixes_from n k) ≡ some q
    → starts_with q p ≡ true
unfolding pending nearest prefixes_from has
nearest_near m p q n zero lt f h e r = cc
nearest_near m p q n (suc k) lt f h e r = ground (
  arith,
  nearest_near m p q n k,
  text_eq_iff (take (suc k) n) p,
  has-prefixes_from n p k,
  starts_with-take n p (suc k),
)
