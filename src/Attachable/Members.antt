-- ===== src/Attachable/Members.antt =====
-- The list of appenders as a set.
use log4cplus.Common.{
  ℕ, ◌≡◌, refl, Bool, true, false, not, ◌&&◌, ◌||◌, Option, none, some, List, [], ◌∷◌, ◌++◌, Text,
  ◌==◌, Bool-cases, inl, inr, arith,
}
use log4cplus.Hierarchy.Children.{mem}
use log4cplus.Attachable.{
  add_appender, get_appender, erase_first, remove_appender, remove_appender_named,
}

-- No appender stands in the list twice.
unfoldable pub distinct : List ℕ → Bool
unfolding mem
distinct [] = true
distinct (a ∷ l) = not (mem a l) && distinct l

mem-snoc : (b a : ℕ) (l : List ℕ) → mem b (l ++ a ∷ []) ≡ (a == b || mem b l)
unfolding mem
mem-snoc b a [] = ground arith
mem-snoc b a (c ∷ l) = ground (arith, mem-snoc b a l)

distinct-snoc :
    (a : ℕ) (l : List ℕ) → mem a l ≡ false → distinct l ≡ true → distinct (l ++ a ∷ []) ≡ true
unfolding distinct mem
distinct-snoc a [] e d = ground arith
distinct-snoc a (c ∷ l) e d = ground (arith, mem-snoc c a l, distinct-snoc a l, e, d)

mem-erase_first :
    (b a : ℕ) (l : List ℕ) → distinct l ≡ true → mem b (erase_first a l) ≡ (not (a == b) && mem b l)
unfolding distinct mem erase_first
mem-erase_first b a [] d = ground arith
mem-erase_first b a (c ∷ l) d = ground (arith, mem-erase_first b a l, d)

distinct-erase_first : (a : ℕ) (l : List ℕ) → distinct l ≡ true → distinct (erase_first a l) ≡ true
unfolding distinct erase_first
distinct-erase_first a [] d = refl
distinct-erase_first a (c ∷ l) d =
    ground (arith, distinct-erase_first a l, mem-erase_first c a l, d)

pub mem-add_appender :
    (a b : ℕ) (l : List ℕ) → mem b (add_appender (some a) l) ≡ (a == b || mem b l)
unfolding add_appender
mem-add_appender a b l = elim (Bool-cases (a == b)) [
  | inl e ↦ ground (arith, mem-snoc b a l, e)
  | inr e ↦ ground (arith, mem-snoc b a l, e)
]

pub distinct-add_appender :
    (a : ℕ) (l : List ℕ) → distinct l ≡ true → distinct (add_appender (some a) l) ≡ true
unfolding add_appender
distinct-add_appender a l d = ground (arith, distinct-snoc a l, d)

-- The calls that change the list.
pub data Change : Type 0 where
  adds : Option ℕ → Change
  removes : Option ℕ → Change
  removes_named : Text → Change
  removes_all : Change

unfoldable pub change : (ℕ → Text) → Change → List ℕ → List ℕ
unfolding add_appender remove_appender remove_appender_named
change name (adds a) l = add_appender a l
change name (removes a) l = remove_appender a l
change name (removes_named key) l = remove_appender_named name key l
change name removes_all l = []

abbrev is_at : ℕ → Option ℕ → Bool
is_at b none = false
is_at b (some a) = a == b

-- Whether an appender is in the list afterwards.
pub stays : (ℕ → Text) → Change → ℕ → List ℕ → Bool
stays name (adds a) b l = is_at b a || mem b l
stays name (removes a) b l = not (is_at b a) && mem b l
stays name (removes_named key) b l = not (is_at b (get_appender name key l)) && mem b l
stays name removes_all b l = false

removed :
    (a : Option ℕ) (l : List ℕ)
    → distinct l ≡ true
    → (distinct (remove_appender a l) ≡ true)
      × ((b : ℕ) → mem b (remove_appender a l) ≡ (not (is_at b a) && mem b l))
unfolding remove_appender
removed none l d = (d, λ b. refl)
removed (some a) l d = (distinct-erase_first a l d, λ b. mem-erase_first b a l d)

-- Where no appender is attached twice, none is after addAppender, removeAppender or
-- removeAllAppenders; then an appender is attached if it was, or was the one added, and was not the
-- one removed. Removing by a name removes the one that getAppender finds. A null pointer changes
-- nothing.
pub change_lem :
    (name : ℕ → Text) (c : Change) (l : List ℕ)
    → distinct l ≡ true
    → (distinct (change name c l) ≡ true) × ((b : ℕ) → mem b (change name c l) ≡ stays name c b l)
unfolding change stays
change_lem name (adds none) l d = (unfold add_appender in d, λ b. unfold add_appender in refl)
change_lem name (adds (some a)) l d = (distinct-add_appender a l d, λ b. mem-add_appender a b l)
change_lem name (removes a) l d = removed a l d
change_lem name (removes_named key) l d =
    unfold remove_appender_named in removed (get_appender name key l) l d
change_lem name removes_all l d = (unfold distinct in refl, λ b. unfold mem in refl)
