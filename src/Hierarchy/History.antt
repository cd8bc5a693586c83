-- ===== src/Hierarchy/History.antt =====
-- The tree that a history of `getInstance` calls builds, in terms of the names alone.
use log4cplus.Common.{
  ℕ, ◌≡◌, refl, Bool, false, not, ◌&&◌, ◌||◌, Option, none, some, List, [], ◌∷◌, Text, text_eq,
  text_eq_iff, is_empty, Bool-cases, inl, inr, arith, if◌then◌else◌, All,
}
use log4cplus.Common.Map.{find}
use log4cplus.Hierarchy.Names.{prefixes}
use log4cplus.Hierarchy.Closest.{nearest}
use log4cplus.Hierarchy.Inv.{Inv}
use log4cplus.Hierarchy.GetInstance.{Gets, Safe, get_instances, get_instance-Gets, init-Inv}
use log4cplus.Hierarchy.Order.{there, root_or, parent_name, parent_name_lem}
use log4cplus.Hierarchy.{Hierarchy, init}

-- A logger other than the root was asked for.
unfoldable pub asked : Text → List Text → Bool
asked p [] = false
asked p (name ∷ names) = (not (is_empty p) && text_eq p name) || asked p names

-- The first of some names that was asked for, or the root's.
unfoldable pub first_asked : List Text → List Text → Option Text
unfolding asked
first_asked names [] = none
first_asked names (q ∷ qs) = if asked q names then some q else first_asked names qs

there-Gets :
    (p name : Text) (h h' : Hierarchy) (a : ℕ)
    → Inv h
    → Gets name h a h'
    → there p h'.logger_ptrs ≡ there p h.logger_ptrs || (not (is_empty p) && text_eq p name)
there-Gets [] name h h' a v g = ground (arith, v.no_empty, g.inv.no_empty)
there-Gets (c ∷ cs) name h h' a v g = elim (Bool-cases (text_eq (c ∷ cs) name)) [
  | inl e ↦ ground (arith, e, (text_eq_iff (c ∷ cs) name).0 e, g.there)
  | inr e ↦ ground (arith, e, g.only (c ∷ cs), text_eq_iff (c ∷ cs) name)
]

-- The loggers after some calls are those before and those asked for.
pub get_instances-there :
    (names : List Text) (h : Hierarchy)
    → Inv h
    → All Safe names
    → (h' : Hierarchy) × (get_instances names h ≡ some h')
      × Inv h'
      × ((p : Text) → there p h'.logger_ptrs ≡ there p h.logger_ptrs || asked p names)
unfolding get_instances asked
get_instances-there [] h v safe = (h, refl, v, λ p. ground arith)
get_instances-there (name ∷ names) h v safe =
    let (a, h₁, g) = get_instance-Gets name h v safe.0 in
    let (h', run, v', grown) = get_instances-there names h₁ g.inv safe.1 in
    (
      h',
      rw (g.run, get_instances) run,
      v',
      λ p. ground (arith, there-Gets p name h h₁ a v g, grown p),
    )

nearest-asked :
    (names : List Text) (h : Hierarchy) (ps : List Text)
    → ((p : Text) → there p h.logger_ptrs ≡ asked p names)
    → nearest h.logger_ptrs ps ≡ first_asked names ps
unfolding nearest first_asked
nearest-asked names h [] same = refl
nearest-asked names h (p ∷ ps) same = ground (arith, same p, nearest-asked names h ps same)

there-init : (p : Text) → there p init.logger_ptrs ≡ false
unfolding init find
there-init p = refl

-- Any sequence of getInstance calls from the initial hierarchy, with names none of which is r, ro
-- or roo, returns; then the logger of a name that was asked for has as its parent the logger of the
-- longest proper dotted prefix of the name that was asked for, or the root where none was, and no
-- other name has a logger.
pub parent_name-get_instances :
    (names : List Text)
    → All Safe names
    → (h : Hierarchy) × (get_instances names init ≡ some h)
      × ((n : Text)
          → parent_name n h
            ≡ (if asked n names then some (root_or (first_asked names (prefixes n))) else none))
parent_name-get_instances names safe =
    let (h, run, v, grown) = get_instances-there names init init-Inv safe in
    let same : (p : Text) → there p h.logger_ptrs ≡ asked p names =
      λ p. ground (arith, grown p, there-init p) in
    (
      h,
      run,
      λ n. ground (arith, parent_name_lem n h v, same n, nearest-asked names h (prefixes n) same),
    )
