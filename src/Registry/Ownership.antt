-- ===== src/Registry/Ownership.antt =====
-- Every object that is registered is deleted once.
use log4cplus.Common.{
  ℕ, ◌+◌, ◌≡◌, refl, none, List, [], ◌∷◌, Text, ◌==◌, if◌then◌else◌, Option-cases, inl, inr, arith,
}
use log4cplus.Common.Map.{Map, find, assign}
use log4cplus.Registry.{Registry, put_val, clear_loop, clear}

abbrev pub count : ℕ → List ℕ → ℕ
count o [] = 0
count o (p ∷ ps) = (if p == o then 1 else 0) + count o ps

unfoldable pub held : ℕ → Map ℕ → ℕ
held o [] = 0
held o ((name, p) ∷ m) = (if p == o then 1 else 0) + held o m

held-assign :
    (o : ℕ) (name : Text) (object : ℕ) (m : Map ℕ)
    → find name m ≡ none
    → held o (assign name object m) ≡ (if object == o then 1 else 0) + held o m
unfolding held find assign
held-assign o name object [] e = refl
held-assign o name object ((j, p) ∷ m) e = ground (arith, e, held-assign o name object m)

count-clear_loop :
    (o : ℕ) (m : Map ℕ) (deleted : List ℕ)
    → count o (clear_loop m deleted) ≡ held o m + count o deleted
unfolding clear_loop held
count-clear_loop o [] deleted = omega arith
count-clear_loop o ((name, p) ∷ m) deleted = omega (arith, count-clear_loop o m (p ∷ deleted))

-- Objects that are put one after another.
unfoldable pub puts : List (Text × ℕ) → Registry → Registry
puts [] r = r
puts ((name, object) ∷ rest) r = puts rest (put_val name object r).0

unfoldable pub objects : List (Text × ℕ) → List ℕ
objects [] = []
objects ((name, object) ∷ rest) = object ∷ objects rest

total-put_val :
    (o : ℕ) (name : Text) (object : ℕ) (r : Registry)
    → held o (put_val name object r).0.entries + count o (put_val name object r).0.deleted
      ≡ (if object == o then 1 else 0) + (held o r.entries + count o r.deleted)
unfolding put_val
total-put_val o name object r = elim (Option-cases (find name r.entries)) [
  | inl e ↦ ground (arith, e, held-assign o name object r.entries e)
  | inr (other, e) ↦ ground (arith, e)
]

total-puts :
    (o : ℕ) (given : List (Text × ℕ)) (r : Registry)
    → held o (puts given r).entries + count o (puts given r).deleted
      ≡ count o (objects given) + (held o r.entries + count o r.deleted)
unfolding puts objects
total-puts o [] r = omega arith
total-puts o ((name, object) ∷ rest) r =
    omega (arith, total-puts o rest (put_val name object r).0, total-put_val o name object r)

abbrev pub fresh : Registry
fresh = record { entries = []; deleted = [] }

-- Put any objects under any names into a new registry, and clear it: every object has been deleted
-- as often as it was put, whether its name was free or taken.
pub clear-puts :
    (given : List (Text × ℕ)) (o : ℕ)
    → count o (clear (puts given fresh)).deleted ≡ count o (objects given)
unfolding clear held
clear-puts given o = omega (
  arith,
  count-clear_loop o (puts given fresh).entries (puts given fresh).deleted,
  total-puts o given fresh,
)

-- Clearing a second time deletes again every object that is registered, since `clear` keeps the map.
pub clear-clear :
    (r : Registry) (o : ℕ)
    → count o (clear (clear r)).deleted ≡ held o r.entries + count o (clear r).deleted
unfolding clear
clear-clear r o = count-clear_loop o r.entries (clear_loop r.entries r.deleted)
