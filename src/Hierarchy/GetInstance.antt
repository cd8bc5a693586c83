-- ===== src/Hierarchy/GetInstance.antt =====
-- `Hierarchy::getInstance` on a tree that satisfies the invariant.
use log4cplus.Common.{
  ℕ, ◌≡◌, ◌≢◌, refl, ◌∙◌, Bool, false, not, ◌&&◌, Option, none, some, List, [], ◌∷◌, Text, is_empty,
  text_eq_refl, text_eq_iff, Option-cases, inl, inr, arith, if◌then◌else◌, All,
}
use log4cplus.Common.Map.{find, assign, find-assign}
use log4cplus.Hierarchy.Names.{prefixes}
use log4cplus.Hierarchy.Parents.{member, Linked, update_parents_loop_lem}
use log4cplus.Hierarchy.Inv.{Inv, root_clash}
use log4cplus.Hierarchy.Create.{Linked-Inv}
use log4cplus.Hierarchy.Adopt.{create-Adopted}
use log4cplus.Hierarchy.{Hierarchy, init, update_parents, create, get_instance}

-- The logger that a name stands for, if there is one.
abbrev pub logger_at : Text → Hierarchy → Option ℕ
logger_at name h = if is_empty name then some 0 else find name h.logger_ptrs

pub init-Inv : Inv init
unfolding init find member
init-Inv = record {
  root_name = refl;
  root_parent = refl;
  some_room = omega arith;
  no_empty = refl;
  address = λ n a e. cc;
  named = λ n a e. cc;
  parented = λ n a e. cc;
  waits = λ n a p e w. cc;
  known = λ a p m. cc;
}

create-Inv :
    (name : Text) (h : Hierarchy)
    → Inv h
    → name ≢ []
    → find name h.logger_ptrs ≡ none
    → root_clash name ≡ false
    → (h' : Hierarchy) × (create name h ≡ some (h.next, h'))
      × Inv h'
      × (h'.logger_ptrs ≡ assign name h.next h.logger_ptrs)
unfolding update_parents
create-Inv name h v nonempty fresh safe =
    let (h₂, run, mid) = create-Adopted name h v fresh safe in
    let named : (h₂.heap h.next).name ≡ name = ground (arith, mid.names h.next) in
    let done : Linked h.next (prefixes name) h₂ (update_parents h.next h₂) =
      rw (named, update_parents) (update_parents_loop_lem (prefixes name) h.next h₂) in
    (
      update_parents h.next h₂,
      run,
      Linked-Inv name h h₂ (update_parents h.next h₂) v fresh mid done nonempty,
      done.logger_ptrs ∙ mid.logger_ptrs,
    )

-- The names r, ro and roo: `startsWith` takes the root logger's name, "root", for one below them.
abbrev pub clashes : Text → Bool
clashes name = not (is_empty name) && root_clash name

-- What `getInstance` promises.
pub record Gets (name : Text) (h : Hierarchy) (a : ℕ) (h' : Hierarchy) : Type 0 where
  pub run : get_instance name h ≡ some (a, h')
  pub inv : Inv h'
  pub there : logger_at name h' ≡ some a
  pub kept : (n : Text) (b : ℕ) → logger_at n h ≡ some b → logger_at n h' ≡ some b
  pub only : (n : Text) → n ≢ name → logger_at n h' ≡ logger_at n h

create-Gets :
    (name : Text) (h h' : Hierarchy)
    → name ≢ []
    → find name h.logger_ptrs ≡ none
    → create name h ≡ some (h.next, h')
    → Inv h'
    → h'.logger_ptrs ≡ assign name h.next h.logger_ptrs
    → Gets name h h.next h'
unfolding get_instance
create-Gets [] h h' nonempty fresh run inv ptrs = absurd (nonempty refl)
create-Gets (c ∷ cs) h h' nonempty fresh run inv ptrs = record {
  run = rw (fresh, get_instance) run;
  inv = inv;
  there = rw ptrs (simp (find-assign, text_eq_refl));
  kept = λ n b e.
      ground (arith, ptrs, find-assign (c ∷ cs) n h.next h.logger_ptrs, text_eq_iff (c ∷ cs) n);
  only = λ n d.
      ground (arith, ptrs, find-assign (c ∷ cs) n h.next h.logger_ptrs, text_eq_iff (c ∷ cs) n);
}

present-Gets :
    (name : Text) (h : Hierarchy) (a : ℕ) → Inv h → logger_at name h ≡ some a → Gets name h a h
unfolding get_instance
present-Gets name h a v e = record {
  run = ground arith;
  inv = v;
  there = e;
  kept = λ n b k. k;
  only = λ n d. refl;
}

-- From a tree that satisfies the invariant, and for a name that is not r, ro or roo, getInstance
-- returns: the tree it leaves satisfies the invariant, the name stands for the logger returned,
-- every name that stood for a logger still stands for the same one, and no other name changes.
pub get_instance-Gets :
    (name : Text) (h : Hierarchy)
    → Inv h
    → clashes name ≡ false
    → (a : ℕ) × (h' : Hierarchy) × Gets name h a h'
get_instance-Gets name h v safe = elim (Option-cases (logger_at name h)) [
  | inr (a, e) ↦ (a, h, present-Gets name h a v e)
  | inl e ↦
      let fresh : find name h.logger_ptrs ≡ none = ground arith in
      let nonempty : name ≢ [] = λ p. ground arith in
      let (h', run, inv, ptrs) = create-Inv name h v nonempty fresh (ground arith) in
      (h.next, h', create-Gets name h h' nonempty fresh run inv ptrs)
]

-- From a tree that satisfies the invariant, and for a name that is not r, ro or roo, a second
-- getInstance call with the name of the first returns the same logger and changes nothing.
pub get_instance_again :
    (name : Text) (h : Hierarchy)
    → Inv h
    → clashes name ≡ false
    → (a : ℕ) × (h' : Hierarchy) × (get_instance name h ≡ some (a, h'))
      × (get_instance name h' ≡ some (a, h'))
get_instance_again name h v safe =
    let (a, h', g) = get_instance-Gets name h v safe in
    (a, h', g.run, (present-Gets name h' a g.inv g.there).run)

-- A history of calls.
unfoldable pub get_instances : List Text → Hierarchy → Option Hierarchy
get_instances [] h = some h
get_instances (name ∷ names) h = elim (get_instance name h) [
  | none ↦ none
  | some (a, h') ↦ get_instances names h'
]

abbrev pub Safe : Text → Type 0
Safe name = clashes name ≡ false

-- From a tree that satisfies the invariant, any sequence of getInstance calls whose names are none
-- of r, ro and roo returns, and leaves a tree that satisfies the invariant: the parent of each
-- logger is the closest existing ancestor by name, whatever the order of the calls.
pub get_instances-Inv :
    (names : List Text) (h : Hierarchy)
    → Inv h
    → All Safe names
    → (h' : Hierarchy) × (get_instances names h ≡ some h') × Inv h'
unfolding get_instances
get_instances-Inv [] h v safe = (h, refl, v)
get_instances-Inv (name ∷ names) h v safe =
    let (a, h₁, g) = get_instance-Gets name h v safe.0 in
    let (h', run, v') = get_instances-Inv names h₁ g.inv safe.1 in
    (h', rw (g.run, get_instances) run, v')
