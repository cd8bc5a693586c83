-- ===== src/Hierarchy/Parents.antt =====
-- What `Hierarchy::updateParents` does to the new logger's parent and to the provision nodes.
use log4cplus.Common.{
  ℕ, ◌≡◌, refl, ◌∙◌, ap, Bool, false, ◌&&◌, ◌||◌, none, some, List, [], ◌∷◌, ◌++◌, Text, text_eq,
  text_eq_iff, Option-cases, inl, inr, arith, ◌==◌, if◌then◌else◌,
}
use mathlib.Core.Path.{ap₂}
use log4cplus.Common.Map.{find, find-erase, find-assign}
use log4cplus.Hierarchy.Closest.{closest, pending}
use log4cplus.Hierarchy.Children.{mem}
use log4cplus.Hierarchy.{
  Hierarchy, LoggerImpl, set_parent, push_provision, update_parents_loop, unprovisioned,
}

-- The logger at `a` waits at the provision node of `p`.
unfoldable pub member : ℕ → Text → Hierarchy → Bool
member a p h = elim (find p h.provision_nodes) [ none ↦ false | some pn ↦ mem a pn ]

mem-append : (a b : ℕ) (l : List ℕ) → mem a (l ++ b ∷ []) ≡ mem a l || a == b
unfolding mem
mem-append a b [] = ground arith
mem-append a b (c ∷ l) = ground (arith, mem-append a b l)

member-push_provision :
    (a l : ℕ) (p s : Text) (h : Hierarchy)
    → member a p (push_provision s l h) ≡ member a p h || (a == l && text_eq s p)
unfolding member push_provision mem
member-push_provision a l p s h = elim (Option-cases (find s h.provision_nodes)) [
  | inl e ↦
      rw (e, push_provision)
        (ground (arith, find-assign s p (l ∷ []) h.provision_nodes, text_eq_iff s p))
  | inr (pn, e) ↦
      rw (e, push_provision)
        (ground (
          arith,
          find-assign s p (pn ++ l ∷ []) h.provision_nodes,
          text_eq_iff s p,
          mem-append a l pn,
        ))
]

pub member-unprovisioned :
    (a : ℕ) (k p : Text) (h : Hierarchy)
    → member a p (unprovisioned k h) ≡ (if text_eq k p then false else member a p h)
unfolding member
member-unprovisioned a k p h = ground (arith, find-erase k p h.provision_nodes)

-- The loop sets the parent to the closest logger, and leaves the logger waiting at every name
-- that is closer.
pub record Linked (l : ℕ) (ps : List Text) (h h' : Hierarchy) : Type 0 where
  pub heap : h'.heap ≡ (set_parent l (closest h.logger_ptrs ps) h).heap
  pub next : h'.next ≡ h.next
  pub logger_ptrs : h'.logger_ptrs ≡ h.logger_ptrs
  pub disable_value : h'.disable_value ≡ h.disable_value
  pub warning : h'.emitted_no_appender_warning ≡ h.emitted_no_appender_warning
  pub members :
      (a : ℕ) (p : Text) → member a p h' ≡ member a p h || (a == l && pending h.logger_ptrs p ps)

Linked-nil : (l : ℕ) (h : Hierarchy) → Linked l [] h (set_parent l 0 h)
unfolding closest pending
Linked-nil l h = record {
  heap = refl;
  next = refl;
  logger_ptrs = refl;
  disable_value = refl;
  warning = refl;
  members = λ a p. unfold member in ground arith;
}

Linked-found :
    (l b : ℕ) (q : Text) (ps : List Text) (h : Hierarchy)
    → find q h.logger_ptrs ≡ some b
    → Linked l (q ∷ ps) h (set_parent l b h)
unfolding closest pending
Linked-found l b q ps h e = record {
  heap = ap (λ (r : ℕ). (set_parent l r h).heap) (ground arith);
  next = refl;
  logger_ptrs = refl;
  disable_value = refl;
  warning = refl;
  members = λ a p. unfold member in ground arith;
}

record SameLoggers (h h' : Hierarchy) : Type 0 where
  heap : h'.heap ≡ h.heap
  next : h'.next ≡ h.next
  logger_ptrs : h'.logger_ptrs ≡ h.logger_ptrs
  disable_value : h'.disable_value ≡ h.disable_value
  warning : h'.emitted_no_appender_warning ≡ h.emitted_no_appender_warning

push_provision-SameLoggers :
    (s : Text) (l : ℕ) (h : Hierarchy) → SameLoggers h (push_provision s l h)
unfolding push_provision
push_provision-SameLoggers s l h = ground arith

Linked-missing :
    (l : ℕ) (q : Text) (ps : List Text) (h h₁ h' : Hierarchy)
    → find q h.logger_ptrs ≡ none
    → SameLoggers h h₁
    → ((a : ℕ) (p : Text) → member a p h₁ ≡ member a p h || (a == l && text_eq q p))
    → Linked l ps h₁ h'
    → Linked l (q ∷ ps) h h'
unfolding closest pending
Linked-missing l q ps h h₁ h' e same pushed step = record {
  heap =
      step.heap
      ∙ ap₂ {C = ℕ → LoggerImpl}
          (λ (k : ℕ → LoggerImpl) (r : ℕ) (x : ℕ).
            if x == l then record (k l) { parent = some r } else k x)
          same.heap (ground (arith, same.logger_ptrs));
  next = cc (step.next, same.next);
  logger_ptrs = cc (step.logger_ptrs, same.logger_ptrs);
  disable_value = cc (step.disable_value, same.disable_value);
  warning = cc (step.warning, same.warning);
  members = λ a p. ground (arith, step.members a p, pushed a p, same.logger_ptrs);
}

pub update_parents_loop_lem :
    (ps : List Text) (l : ℕ) (h : Hierarchy) → Linked l ps h (update_parents_loop ps l h)
unfolding update_parents_loop
update_parents_loop_lem [] l h = Linked-nil l h
update_parents_loop_lem (q ∷ ps) l h = elim (Option-cases (find q h.logger_ptrs)) [
  | inr (b, e) ↦ rw (e, update_parents_loop) (Linked-found l b q ps h e)
  | inl e ↦
      rw (e, update_parents_loop)
        (Linked-missing l q ps h (push_provision q l h) _ e (push_provision-SameLoggers q l h)
          (λ a p. member-push_provision a l p q h)
          (update_parents_loop_lem ps l (push_provision q l h)))
]
