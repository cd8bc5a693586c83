-- ===== src/Hierarchy/Reset.antt =====
-- What shutdown and reset do to the tree.
use log4cplus.Common.{
  ℕ, ◌+◌, ◌<◌, ◌≡◌, refl, sym, true, ◌&&◌, not, some, List, [], ◌∷◌, ◌++◌, Text, Option-cases, inl,
  inr, arith, if◌then◌else◌, ◌==◌, length,
}
use mathlib.Core.Path.{subst}
use log4cplus.Common.Int.{eq_ℤ_iff}
use log4cplus.Common.Map.{Map, find}
use log4cplus.Hierarchy.Names.{prefixes}
use log4cplus.Hierarchy.Children.{mem}
use log4cplus.Hierarchy.Inv.{Inv}
use log4cplus.Hierarchy.Operations.{
  close_nested_appenders, remove_all_appenders, shutdown_loop, shutdown, reset_loop,
  reset_configuration, addresses,
}
use log4cplus.Hierarchy.{Hierarchy, LoggerImpl, debug_log_level, not_set_log_level, disable_off}
use log4cplus.Logger.{set_log_level, set_additivity, returns, get_chained_log_level}
use log4cplus.Logger.Chain.{existing}
use log4cplus.Logger.Walks.{first_level, effective_level}
use log4cplus.Hierarchy.SameTree.{
  SameTree, SameTree-trans, SameTree-Inv, set_log_level-SameTree, shutdown_loop-SameTree,
  reset_loop-SameTree,
}

-- The appenders that are left, and the fields that shutdown leaves alone.
shutdown_loop-fields :
    (loggers closed : List ℕ) (h : Hierarchy) (x : ℕ)
    → (((shutdown_loop loggers (closed, h)).1.heap x).appenders
        ≡ (if mem x loggers then [] else (h.heap x).appenders))
      × (((shutdown_loop loggers (closed, h)).1.heap x).ll ≡ (h.heap x).ll)
      × ((shutdown_loop loggers (closed, h)).1.disable_value ≡ h.disable_value)
unfolding shutdown_loop remove_all_appenders mem
shutdown_loop-fields [] closed h x = (refl, refl, refl)
shutdown_loop-fields (a ∷ loggers) closed h x =
    let rest =
      shutdown_loop-fields loggers (close_nested_appenders (h.heap a).appenders closed)
        (remove_all_appenders a h) x in
    (ground (arith, rest.0), ground (arith, rest.1), rest.2)

-- Every logger of the list but the root is reset.
reset_loop-fields :
    (loggers : List ℕ) (h : Hierarchy) (x : ℕ)
    → (((reset_loop loggers h).heap x).ll
        ≡ (if mem x loggers && not (x == 0) then not_set_log_level else (h.heap x).ll))
      × (((reset_loop loggers h).heap x).additive
          ≡ (if mem x loggers then true else (h.heap x).additive))
      × (((reset_loop loggers h).heap x).appenders ≡ (h.heap x).appenders)
      × ((reset_loop loggers h).disable_value ≡ h.disable_value)
unfolding reset_loop set_log_level set_additivity mem
reset_loop-fields [] h x = (refl, refl, refl, refl)
reset_loop-fields (a ∷ loggers) h x =
    let rest =
      reset_loop-fields loggers (set_additivity true a (set_log_level not_set_log_level a h)) x in
    (ground (arith, rest.0), ground (arith, rest.1), ground (arith, rest.2), ground (arith, rest.3))

mem-addresses : (m : Map ℕ) (n : Text) (a : ℕ) → find n m ≡ some a → mem a (addresses m) ≡ true
unfolding find mem addresses
mem-addresses [] n a e = cc
mem-addresses ((k, b) ∷ m) n a e = ground (arith, mem-addresses m n a)

first_level_all_unset :
    (heap : ℕ → LoggerImpl) (m : Map ℕ) (ps : List Text)
    → ((n : Text) (a : ℕ) → find n m ≡ some a → (heap a).ll ≡ not_set_log_level)
    → first_level heap (existing m ps ++ 0 ∷ []) ≡ (heap 0).ll
unfolding first_level existing
first_level_all_unset heap m [] unset = ground (arith, eq_ℤ_iff (heap 0).ll not_set_log_level)
first_level_all_unset heap m (p ∷ ps) unset = elim (Option-cases (find p m)) [
  | inl e ↦ rw (e, existing) (first_level_all_unset heap m ps unset)
  | inr (a, e) ↦
      rw (e, existing) (ground (arith, unset p a e, first_level_all_unset heap m ps unset))
]

-- The state after the first two lines of `resetConfiguration`.
abbrev started : Hierarchy → Hierarchy
started h = record (set_log_level debug_log_level 0 h) { disable_value = disable_off }

started-SameTree : (h : Hierarchy) → SameTree h (started h)
started-SameTree h =
    let same = set_log_level-SameTree debug_log_level 0 h in
    record {
      name = same.name;
      parent = same.parent;
      next = same.next;
      logger_ptrs = same.logger_ptrs;
      provision_nodes = same.provision_nodes;
    }

pub record IsReset (h h' : Hierarchy) : Type 0 where
  pub same : SameTree h h'
  pub unset :
      (n : Text) (a : ℕ) → find n h.logger_ptrs ≡ some a → (h'.heap a).ll ≡ not_set_log_level
  pub additive : (n : Text) (a : ℕ) → find n h.logger_ptrs ≡ some a → (h'.heap a).additive ≡ true
  pub detached : (n : Text) (a : ℕ) → find n h.logger_ptrs ≡ some a → (h'.heap a).appenders ≡ []
  pub root_level : (h'.heap 0).ll ≡ debug_log_level
  pub root_detached : (h'.heap 0).appenders ≡ []
  pub enabled : h'.disable_value ≡ disable_off

loop-IsReset :
    (closed : List ℕ) (h s m : Hierarchy)
    → Inv h
    → SameTree h s
    → (s.heap 0).ll ≡ debug_log_level
    → s.disable_value ≡ disable_off
    → m ≡ (shutdown_loop (0 ∷ addresses s.logger_ptrs) (closed, s)).1
    → IsReset h (reset_loop (addresses m.logger_ptrs) m)
unfolding mem
loop-IsReset closed h s m v same level off is_m =
    let halt = shutdown_loop-fields (0 ∷ addresses s.logger_ptrs) closed s in
    let back = reset_loop-fields (addresses m.logger_ptrs) m in
    let kept : SameTree s m =
      subst (SameTree s) (sym is_m)
        (shutdown_loop-SameTree (0 ∷ addresses s.logger_ptrs) closed s) in
    let listed = λ (n : Text) (a : ℕ). mem-addresses m.logger_ptrs n a in
    let listed_s = λ (n : Text) (a : ℕ). mem-addresses s.logger_ptrs n a in
    record {
      same =
          SameTree-trans same
            (SameTree-trans kept (reset_loop-SameTree (addresses m.logger_ptrs) m));
      unset = λ n a e.
          ground (arith, (back a).0, listed n a, same.logger_ptrs, kept.logger_ptrs, v.address n a);
      additive =
          λ n a e. ground (arith, (back a).1, listed n a, same.logger_ptrs, kept.logger_ptrs);
      detached =
          λ n a e. ground (arith, (back a).2, (halt a).0, is_m, listed_s n a, same.logger_ptrs);
      root_level = ground (arith, (back 0).0, (halt 0).1, is_m);
      root_detached = ground (arith, (back 0).2, (halt 0).0, is_m);
      enabled = ground (arith, (back 0).3, (halt 0).2, is_m);
    }

-- From a tree that satisfies the invariant resetConfiguration keeps the loggers, their names and
-- their parents; it leaves every logger but the root with no level of its own, additive and
-- without appenders, the root with level DEBUG and without appenders, and no level disabled.
pub reset_configuration-IsReset :
    (closed : List ℕ) (h : Hierarchy) → Inv h → IsReset h (reset_configuration (closed, h)).1
unfolding reset_configuration
reset_configuration-IsReset closed h v =
    loop-IsReset closed h (started h) (shutdown (closed, started h)).1 v (started-SameTree h)
      (unfold set_log_level in ground arith) refl refl

level_after :
    (h h' : Hierarchy) (n : Text) (a fuel : ℕ)
    → Inv h
    → IsReset h h'
    → find n h.logger_ptrs ≡ some a
    → length n + 1 < fuel
    → get_chained_log_level fuel a h' ≡ returns debug_log_level
unfolding first_level
level_after h h' n a fuel v r e enough =
    let e' : find n h'.logger_ptrs ≡ some a = cc (r.same.logger_ptrs, e) in
    let level =
      effective_level h' n a fuel (SameTree-Inv h h' r.same v) e' enough
        (λ q. ground (arith, q, r.root_level)) in
    let along =
      first_level_all_unset h'.heap h'.logger_ptrs (prefixes n)
        (λ k b f. r.unset k b (cc (r.same.logger_ptrs, f))) in
    ground (arith, level.0, along, r.unset n a e, r.root_level)

-- After resetConfiguration, from a tree that satisfies the invariant, the effective level of every
-- logger is DEBUG. Fuel above the length of the logger's name plus one is enough.
pub reset_level :
    (closed : List ℕ) (h : Hierarchy) (n : Text) (a fuel : ℕ)
    → Inv h
    → find n h.logger_ptrs ≡ some a
    → length n + 1 < fuel
    → get_chained_log_level fuel a (reset_configuration (closed, h)).1 ≡ returns debug_log_level
reset_level closed h n a fuel v e enough =
    level_after h (reset_configuration (closed, h)).1 n a fuel v
      (reset_configuration-IsReset closed h v) e enough
