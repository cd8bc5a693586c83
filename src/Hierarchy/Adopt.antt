-- ===== src/Hierarchy/Adopt.antt =====
-- Making a logger keeps the invariant of the tree: `updateChildren`, and the whole of
-- `Hierarchy::getInstanceImpl`.
use log4cplus.Common.{
  ℕ, ◌≡◌, ◌≢◌, refl, sym, ap, ◌∙◌, Bool, true, false, not, none, some, List, Text, text_eq,
  text_eq_iff, Option-cases, inl, inr, arith, if◌then◌else◌,
}
use log4cplus.Common.Map.{find, assign}
use log4cplus.Hierarchy.Names.{prefixes}
use log4cplus.Hierarchy.Closest.{closest, pending, closest-assign}
use log4cplus.Hierarchy.Children.{mem, Frame, parent_is_lower, reparent, update_children_lem}
use log4cplus.Hierarchy.Parents.{member, member-unprovisioned}
use log4cplus.Hierarchy.Inv.{Inv, root_clash, closest_is_lower, closest-lt-next}
use log4cplus.Hierarchy.Create.{Adopted}
use log4cplus.Hierarchy.{Hierarchy, inserted, unprovisioned, update_parents, create}

member-same :
    (a : ℕ) (p : Text) (h h' : Hierarchy)
    → h'.provision_nodes ≡ h.provision_nodes
    → member a p h' ≡ member a p h
unfolding member
member-same a p h h' e = ground arith

module _ (name : Text) (h : Hierarchy) (v : Inv h) (fresh : find name h.logger_ptrs ≡ none) where
  abbrev l : ℕ
  l = h.next

  closest-inserted :
      (n : Text)
      → closest (assign name l h.logger_ptrs) (prefixes n) ≡ (
          if pending h.logger_ptrs name (prefixes n) then l else closest h.logger_ptrs (prefixes n))
  closest-inserted n = closest-assign h.logger_ptrs name l (prefixes n) fresh

  -- No provision node: no logger waits for the new one.
  inserted-Adopted : find name h.provision_nodes ≡ none → Adopted name h (inserted name h)
  unfolding member
  inserted-Adopted e = record {
    next = refl;
    logger_ptrs = refl;
    names = λ x. ground arith;
    root_parent = ground (arith, v.root_parent, v.some_room);
    parented = λ n a f.
        ground
          (arith, closest-inserted n, v.parented n a f, v.address n a f, v.waits n a name f, e);
    members = λ a p. ground (arith, text_eq_iff name p, e);
  }

  module _ (pn : List ℕ) (node : find name h.provision_nodes ≡ some pn) where
    pub mem-member : (a : ℕ) → mem a pn ≡ member a name h
    unfolding member
    mem-member a = ground (arith, node)

    pub have_parents :
        (c : ℕ) → mem c pn ≡ true → (p : ℕ) × (((inserted name h).heap c).parent ≡ some p)
    have_parents c m =
        let (f, _) = v.known c name (sym (mem-member c) ∙ m) in
        (
          closest h.logger_ptrs (prefixes (h.heap c).name),
          ground (arith, v.parented (h.heap c).name c f, v.address (h.heap c).name c f),
        )

  module _ (pn : List ℕ) (node : find name h.provision_nodes ≡ some pn)
      (safe : root_clash name ≡ false) where
    lower_inserted :
        (n : Text) (a : ℕ)
        → find n h.logger_ptrs ≡ some a
        → member a name h ≡ true
        → parent_is_lower (inserted name h) l a ≡ not (pending h.logger_ptrs name (prefixes n))
    unfolding parent_is_lower
    lower_inserted n a f m = ground (
      arith,
      v.parented n a f,
      v.address n a f,
      v.named n a f,
      v.known a name m,
      closest-lt-next h (prefixes n) v,
      closest_is_lower h name n v fresh safe,
    )

    children-Adopted :
        (h' : Hierarchy)
        → Frame (inserted name h) h'
        → ((x : ℕ) → x ≢ l → (h'.heap x).parent ≡ reparent (inserted name h) l pn x)
        → Adopted name h (unprovisioned name h')
    unfolding reparent
    children-Adopted h' frame parents = record {
      next = frame.next;
      logger_ptrs = frame.logger_ptrs;
      names = λ x. ground (arith, frame.name x);
      root_parent = ground (
        arith,
        parents 0,
        mem-member pn node 0,
        v.known 0 name,
        v.address (h.heap 0).name 0,
        v.root_parent,
        v.some_room,
      );
      parented = λ n a f. ground (
        arith,
        parents a,
        mem-member pn node a,
        v.address n a f,
        v.parented n a f,
        closest-inserted n,
        lower_inserted n a f,
        v.waits n a name f,
        frame.logger_ptrs,
      );
      members = λ a p.
          member-unprovisioned a name p h'
          ∙ ap (λ (b : Bool). if text_eq name p then false else b)
              (member-same a p h h' frame.provision_nodes);
    }

  pub create-Adopted :
      root_clash name ≡ false
      → (h₂ : Hierarchy) × (create name h ≡ some (l, update_parents l h₂)) × Adopted name h h₂
  unfolding create
  create-Adopted safe = elim (Option-cases (find name h.provision_nodes)) [
    | inl e ↦ (inserted name h, rw (e, create), inserted-Adopted e)
    | inr (pn, e) ↦
        let (h', run, frame, parents) =
          update_children_lem pn l (inserted name h) (have_parents pn e) in
        (unprovisioned name h', ground (arith, e, run), children-Adopted pn e safe h' frame parents)
  ]
