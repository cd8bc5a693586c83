-- ===== src/Hierarchy/Clash.antt =====
-- The names r, ro and roo: `updateChildren` leaves the root as the parent of the loggers below.
use log4cplus.Common.{
  ℕ, ◌≡◌, ◌≢◌, ap, ◌∙◌, true, none, some, List, Text, Option-cases, inl, inr, arith,
}
use log4cplus.Common.Map.{find}
use log4cplus.Hierarchy.Names.{prefixes}
use log4cplus.Hierarchy.Prefixes.{has}
use log4cplus.Hierarchy.Closest.{
  closest, pending, nearest, closest-assign, closest_at_nearest, pending_of_none,
}
use log4cplus.Hierarchy.Children.{parent_is_lower, reparent, update_children_lem}
use log4cplus.Hierarchy.Parents.{member, update_parents_loop_lem}
use log4cplus.Hierarchy.Inv.{Inv, root_clash}
use log4cplus.Hierarchy.Adopt.{have_parents}
use log4cplus.Hierarchy.GetInstance.{clashes}
use log4cplus.Hierarchy.{Hierarchy, inserted, unprovisioned, update_parents, create, get_instance}

module _ (m n : Text) (c : ℕ) (h : Hierarchy) (v : Inv h) (clash : clashes m ≡ true)
    (fresh : find m h.logger_ptrs ≡ none) (at_name : find n h.logger_ptrs ≡ some c)
    (below : has m (prefixes n) ≡ true) (top : closest h.logger_ptrs (prefixes n) ≡ 0) where
  no_closer : nearest h.logger_ptrs (prefixes n) ≡ none
  no_closer = elim (Option-cases (nearest h.logger_ptrs (prefixes n))) [
    | inl e ↦ e
    | inr (q, e) ↦ ground (
      arith,
      closest_at_nearest h.logger_ptrs q (prefixes n) e,
      v.address q (closest h.logger_ptrs (prefixes n)),
    )
  ]

  waiting : pending h.logger_ptrs m (prefixes n) ≡ true
  waiting = pending_of_none h.logger_ptrs m (prefixes n) no_closer below

  node_there : (pn : List ℕ) × (find m h.provision_nodes ≡ some pn)
  unfolding member
  node_there = elim (Option-cases (find m h.provision_nodes)) [
    | inl e ↦ ground (arith, v.waits n c m at_name waiting)
    | inr found ↦ found
  ]

  child_parent : ((inserted m h).heap c).parent ≡ some 0
  child_parent = ground (arith, v.parented n c at_name, v.address n c at_name)

  kept_parent : (pn : List ℕ) → reparent (inserted m h) h.next pn c ≡ some 0
  unfolding reparent parent_is_lower root_clash
  kept_parent pn =
      ground (arith, child_parent, v.root_name, v.some_room, v.address n c at_name, clash)

  -- From a tree that satisfies the invariant, make a logger named r, ro or roo above an existing
  -- logger that has no closer ancestor. The call returns and the new logger is the closest
  -- ancestor by name, but the parent pointer of the logger below it still points to the root.
  pub clash_keeps_root :
      (h' : Hierarchy) × (get_instance m h ≡ some (h.next, h'))
      × ((h'.heap c).parent ≡ some 0)
      × (closest h'.logger_ptrs (prefixes n) ≡ h.next)
      × (h.next ≢ 0)
  unfolding get_instance create update_parents
  clash_keeps_root =
      let (pn, node) = node_there in
      let (h₁, run, frame, parents) =
        update_children_lem pn h.next (inserted m h) (have_parents m h v fresh pn node) in
      let h₂ = unprovisioned m h₁ in
      let done = update_parents_loop_lem (prefixes (h₂.heap h.next).name) h.next h₂ in
      (
        update_parents h.next h₂,
        ground (arith, clash, fresh, node, run),
        rw (done.heap, update_parents)
            (ground (arith, v.address n c at_name, parents c, kept_parent pn)),
        ap (λ t. closest t (prefixes n)) (done.logger_ptrs ∙ frame.logger_ptrs)
            ∙ ground (arith, closest-assign h.logger_ptrs m h.next (prefixes n) fresh, waiting),
        λ e. ground (arith, v.some_room),
      )
