-- ===== src/Hierarchy/Locker.antt =====
-- src/hierarchylocker.cxx: `HierarchyLocker`, which resets the configuration while it holds the locks.
use log4cplus.Common.{ℕ, true, List, [], ◌∷◌, arith}
use log4cplus.Hierarchy.{Hierarchy, debug_log_level, not_set_log_level, disable_off}
use log4cplus.Hierarchy.Inv.{Inv}
use log4cplus.Hierarchy.Operations.{
  disable, close_nested_appenders, remove_all_appenders, get_current_loggers, shutdown_loop,
  reset_loop,
}
use log4cplus.Hierarchy.SameTree.{
  SameTree, SameTree-trans, SameTree-Inv, set_log_level-SameTree, shutdown_loop-SameTree,
  reset_loop-SameTree,
}
use log4cplus.Logger.{set_log_level, set_additivity}

-- The loop of `resetConfiguration` over the loggers that the constructor has listed; the first list
-- are the appenders that have been closed.
unfoldable pub locker_loop : List ℕ → List ℕ × Hierarchy → List ℕ × Hierarchy
unfolding close_nested_appenders remove_all_appenders set_log_level set_additivity
locker_loop [] s = s
locker_loop (a ∷ loggers) (closed, h) = locker_loop loggers (
  close_nested_appenders (h.heap a).appenders closed,
  set_additivity true a (set_log_level not_set_log_level a (remove_all_appenders a h)),
)

-- `resetConfiguration`
unfoldable pub locker_reset_configuration : List ℕ × Hierarchy → List ℕ × Hierarchy
unfolding locker_loop disable get_current_loggers
locker_reset_configuration (closed, h) =
    let h' = set_log_level debug_log_level 0 (disable disable_off h) in
    locker_loop (get_current_loggers h)
      (close_nested_appenders (h'.heap 0).appenders closed, remove_all_appenders 0 h')

disable-SameTree : (h : Hierarchy) → SameTree h (disable disable_off h)
unfolding disable
disable-SameTree h = record {
  name = λ x. ground arith;
  parent = λ x. ground arith;
  next = ground arith;
  logger_ptrs = ground arith;
  provision_nodes = ground arith;
}

locker_loop-SameTree :
    (loggers closed : List ℕ) (h : Hierarchy) → SameTree h (locker_loop loggers (closed, h)).1
unfolding locker_loop shutdown_loop reset_loop
locker_loop-SameTree [] closed h = reset_loop-SameTree [] h
locker_loop-SameTree (a ∷ loggers) closed h =
    let h₁ = remove_all_appenders a h in
    let h₂ = set_additivity true a (set_log_level not_set_log_level a h₁) in
    let closed' = close_nested_appenders (h.heap a).appenders closed in
    SameTree-trans (shutdown_loop-SameTree (a ∷ []) closed h)
      (SameTree-trans (reset_loop-SameTree (a ∷ []) h₁) (locker_loop-SameTree loggers closed' h₂))

-- Under the lock of the hierarchy the reset keeps the tree and its invariant.
pub locker_reset-Inv :
    (closed : List ℕ) (h : Hierarchy) → Inv h → Inv (locker_reset_configuration (closed, h)).1
unfolding locker_reset_configuration shutdown_loop
locker_reset-Inv closed h v =
    let off = disable disable_off h in
    let h₁ = set_log_level debug_log_level 0 off in
    let closed' = close_nested_appenders (h₁.heap 0).appenders closed in
    let same = SameTree-trans (disable-SameTree h) (
      SameTree-trans (set_log_level-SameTree debug_log_level 0 off) (
        SameTree-trans (shutdown_loop-SameTree (0 ∷ []) closed h₁)
          (locker_loop-SameTree (get_current_loggers h) closed' (remove_all_appenders 0 h₁)))) in
    SameTree-Inv h (locker_reset_configuration (closed, h)).1 same v
