-- ===== src/Hierarchy/Children.antt =====
-- What `Hierarchy::updateChildren` does to each parent pointer.
use native.Mathlib.Decide.{ℕ_discrete}
use mathlib.Core.Path.{subst}
use log4cplus.Common.{
  ℕ, ◌≡◌, ◌≢◌, refl, sym, ◌∙◌, Bool, true, false, inl, inr, Option-cases, not, ◌&&◌, ◌||◌, Option,
  none, some, List, [], ◌∷◌, Bool-cases, arith, ◌==◌, if◌then◌else◌,
}
use log4cplus.Hierarchy.Names.{starts_with}
use log4cplus.Hierarchy.Prefixes.{not-starts_with_short}
use log4cplus.Hierarchy.{Hierarchy, set_parent, update_child, update_children}

unfoldable pub mem : ℕ → List ℕ → Bool
mem a [] = false
mem a (b ∷ l) = a == b || mem a l

mem_head : (c : ℕ) (pn : List ℕ) → mem c (c ∷ pn) ≡ true
unfolding mem
mem_head c pn = ground arith

mem_tail : (d c : ℕ) (pn : List ℕ) → mem d pn ≡ true → mem d (c ∷ pn) ≡ true
unfolding mem
mem_tail d c pn m = ground arith

-- Two hierarchies that differ in parent pointers alone.
pub record Frame (h h' : Hierarchy) : Type 0 where
  pub name : (x : ℕ) → (h'.heap x).name ≡ (h.heap x).name
  pub ll : (x : ℕ) → (h'.heap x).ll ≡ (h.heap x).ll
  pub additive : (x : ℕ) → (h'.heap x).additive ≡ (h.heap x).additive
  pub appenders : (x : ℕ) → (h'.heap x).appenders ≡ (h.heap x).appenders
  pub next : h'.next ≡ h.next
  pub logger_ptrs : h'.logger_ptrs ≡ h.logger_ptrs
  pub provision_nodes : h'.provision_nodes ≡ h.provision_nodes
  pub disable_value : h'.disable_value ≡ h.disable_value
  pub warning : h'.emitted_no_appender_warning ≡ h.emitted_no_appender_warning

Frame-refl : (h : Hierarchy) → Frame h h
Frame-refl h = record {
  name = λ x. refl;
  ll = λ x. refl;
  additive = λ x. refl;
  appenders = λ x. refl;
  next = refl;
  logger_ptrs = refl;
  provision_nodes = refl;
  disable_value = refl;
  warning = refl;
}

Frame-trans : {a b c : Hierarchy} → Frame a b → Frame b c → Frame a c
Frame-trans f g = record {
  name = λ x. cc (f.name x, g.name x);
  ll = λ x. cc (f.ll x, g.ll x);
  additive = λ x. cc (f.additive x, g.additive x);
  appenders = λ x. cc (f.appenders x, g.appenders x);
  next = cc (f.next, g.next);
  logger_ptrs = cc (f.logger_ptrs, g.logger_ptrs);
  provision_nodes = cc (f.provision_nodes, g.provision_nodes);
  disable_value = cc (f.disable_value, g.disable_value);
  warning = cc (f.warning, g.warning);
}

-- The parent's name begins with the logger's name.
unfoldable pub parent_is_lower : Hierarchy → ℕ → ℕ → Bool
parent_is_lower h l x = elim (h.heap x).parent [
  | none ↦ false
  | some p ↦ starts_with (h.heap p).name (h.heap l).name
]

unfoldable pub reparent : Hierarchy → ℕ → List ℕ → ℕ → Option ℕ
unfolding mem
reparent h l pn x = if mem x pn && not (parent_is_lower h l x) then some l else (h.heap x).parent

child_updated : ℕ → ℕ → ℕ → Hierarchy → Hierarchy
child_updated l c p h =
    if starts_with (h.heap p).name (h.heap l).name then h else set_parent c l (set_parent l p h)

update_child-eq :
    (l c p : ℕ) (h : Hierarchy)
    → (h.heap c).parent ≡ some p
    → update_child l c h ≡ some (child_updated l c p h)
unfolding update_child child_updated
update_child-eq l c p h e = ground arith

child_updated-Frame : (l c p : ℕ) (h : Hierarchy) → Frame h (child_updated l c p h)
unfolding child_updated
child_updated-Frame l c p h = record {
  name = λ x. ground arith;
  ll = λ x. ground arith;
  additive = λ x. ground arith;
  appenders = λ x. ground arith;
  next = ground arith;
  logger_ptrs = ground arith;
  provision_nodes = ground arith;
  disable_value = ground arith;
  warning = ground arith;
}

-- The parents after one round.
child_updated-parent :
    (l c p x : ℕ) (h : Hierarchy)
    → (h.heap c).parent ≡ some p
    → x ≢ l
    → ((child_updated l c p h).heap x).parent
      ≡ (if x == c && not (parent_is_lower h l c) then some l else (h.heap x).parent)
unfolding child_updated parent_is_lower
child_updated-parent l c p x h e d = ground arith

child_updated-some_self :
    (l c p q : ℕ) (h : Hierarchy)
    → (h.heap c).parent ≡ some p
    → (h.heap l).parent ≡ some q
    → (r : ℕ) × (((child_updated l c p h).heap l).parent ≡ some r)
unfolding child_updated
child_updated-some_self l c p q h e k =
    elim (Bool-cases (starts_with (h.heap p).name (h.heap l).name)) [
      | inl lower ↦ (q, rw lower k)
      | inr higher ↦ elim (Bool-cases (l == c)) [
        | inl at_child ↦ (l, ground arith)
        | inr other ↦ (p, ground arith)
      ]
    ]

child_updated-some_other :
    (l c p x q : ℕ) (h : Hierarchy)
    → (h.heap c).parent ≡ some p
    → (h.heap x).parent ≡ some q
    → x ≢ l
    → (r : ℕ) × (((child_updated l c p h).heap x).parent ≡ some r)
child_updated-some_other l c p x q h e k d =
    let moved = child_updated-parent l c p x h e d in
    elim (Bool-cases (x == c && not (parent_is_lower h l c))) [
      | inl yes' ↦ (l, ground arith)
      | inr no' ↦ (q, ground arith)
    ]

child_updated-some :
    (l c p x : ℕ) (h : Hierarchy)
    → (h.heap c).parent ≡ some p
    → (q : ℕ) × ((h.heap x).parent ≡ some q)
    → (q : ℕ) × (((child_updated l c p h).heap x).parent ≡ some q)
child_updated-some l c p x h e (q, k) = elim (ℕ_discrete x l) [
  | yes same ↦
      subst (λ (y : ℕ). (r : ℕ) × (((child_updated l c p h).heap y).parent ≡ some r)) (sym same)
        (child_updated-some_self l c p q h e (cc))
  | no other ↦ child_updated-some_other l c p x q h e k other
]

-- The rounds that are left see the parents of this round.
reparent-child_updated :
    (l c p x : ℕ) (pn : List ℕ) (h h' : Hierarchy)
    → Frame h h'
    → x ≢ l
    → (h'.heap x).parent
      ≡ (if x == c && not (parent_is_lower h l c) then some l else (h.heap x).parent)
    → reparent h' l pn x ≡ reparent h l (c ∷ pn) x
unfolding reparent parent_is_lower
reparent-child_updated l c p x pn h h' f d e = elim (Option-cases (h.heap x).parent) [
  | inl lone ↦ ground (arith, f.name l, not-starts_with_short (h.heap l).name (h.heap l).name)
  | inr (q, up) ↦
      ground (arith, f.name l, f.name q, not-starts_with_short (h.heap l).name (h.heap l).name)
]

-- All the loggers of the node whose parent is not below the new logger get it as their parent.
-- Only parent pointers change.
pub update_children_lem :
    (pn : List ℕ) (l : ℕ) (h : Hierarchy)
    → ((c : ℕ) → mem c pn ≡ true → (p : ℕ) × ((h.heap c).parent ≡ some p))
    → (h' : Hierarchy) × (update_children pn l h ≡ some h')
      × Frame h h'
      × ((x : ℕ) → x ≢ l → (h'.heap x).parent ≡ reparent h l pn x)
unfolding update_children reparent
update_children_lem [] l h have = (h, refl, Frame-refl h, λ x d. refl)
update_children_lem (c ∷ pn) l h have =
    let (p, e) = have c (mem_head c pn) in
    let h₁ = child_updated l c p h in
    let (h₂, run, frame, parents) =
      update_children_lem pn l h₁
        (λ d m. child_updated-some l c p d h e (have d (mem_tail d c pn m))) in
    (
      h₂,
      rw (update_child-eq l c p h e, update_children) run,
      Frame-trans (child_updated-Frame l c p h) frame,
      λ x d.
          parents x d
          ∙ reparent-child_updated l c p x pn h h₁ (child_updated-Frame l c p h) d
              (child_updated-parent l c p x h e d),
    )
