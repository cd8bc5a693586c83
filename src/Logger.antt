-- ===== src/Logger.antt =====
-- src/loggerimpl.cxx and src/rootlogger.cxx: the walks from a logger to the root.
--
-- A walk follows parent pointers, so it is bounded by fuel here; `diverges` says that the fuel ran
-- out. `throws` is the exception that `getLogLog().error (..., true)` raises.
pub mod Chain
pub mod Walks
use log4cplus.Common.{
  ℕ, zero, suc, Bool, true, false, not, ◌&&◌, Option, none, some, List, [], ◌++◌, ℤ, leb_ℤ, eq_ℤ,
  is_empty, ◌==◌, if◌then◌else◌,
}
use log4cplus.Hierarchy.{
  Hierarchy, LoggerImpl, not_set_log_level, store, debug_log_level, disable_off, disable_override,
}

pub data Outcome {ℓ} (A : Type ℓ) : Type ℓ where
  returns : A → Outcome A
  throws : Outcome A
  diverges : Outcome A

-- The loop of `LoggerImpl::getChainedLogLevel`.
unfoldable pub chained_loop : ℕ → (ℕ → LoggerImpl) → Option ℕ → Outcome ℤ
chained_loop zero heap c = diverges
chained_loop (suc fuel) heap none = throws
chained_loop (suc fuel) heap (some a) =
    let rest = chained_loop fuel heap (heap a).parent in
    if eq_ℤ (heap a).ll not_set_log_level then rest else returns (heap a).ll

-- `getChainedLogLevel`, which `RootLogger` overrides.
unfoldable pub get_chained_log_level : ℕ → ℕ → Hierarchy → Outcome ℤ
unfolding chained_loop
get_chained_log_level fuel a h =
    if a == 0 then returns (h.heap 0).ll else chained_loop fuel h.heap (some a)

unfoldable pub is_enabled_for : ℕ → ℤ → ℕ → Hierarchy → Outcome Bool
is_enabled_for fuel loglevel a h =
    if leb_ℤ loglevel h.disable_value
    then returns false
    else elim (get_chained_log_level fuel a h) [
      | returns chained ↦ returns (leb_ℤ chained loglevel)
      | throws ↦ throws
      | diverges ↦ diverges
    ]

-- The loop of `LoggerImpl::callAppenders`: the appenders that are given the event, in order.
unfoldable pub call_appenders_loop : ℕ → (ℕ → LoggerImpl) → Option ℕ → Option (List ℕ)
call_appenders_loop zero heap c = none
call_appenders_loop (suc fuel) heap none = some []
call_appenders_loop (suc fuel) heap (some a) =
    let rest = call_appenders_loop fuel heap (heap a).parent in
    if (heap a).additive
    then elim rest [ none ↦ none | some later ↦ some ((heap a).appenders ++ later) ]
    else some (heap a).appenders

-- The warning is given, and remembered, when no appender was given the event.
abbrev pub warn_once : Bool → Hierarchy → Hierarchy
warn_once no_writes h =
    if not h.emitted_no_appender_warning && no_writes
    then record h { emitted_no_appender_warning = true }
    else h

unfoldable pub call_appenders : ℕ → ℕ → Hierarchy → Outcome (List ℕ × Hierarchy)
call_appenders fuel a h = elim (call_appenders_loop fuel h.heap (some a)) [
  | none ↦ diverges
  | some writes ↦ returns (writes, warn_once (is_empty writes) h)
]

-- `LoggerImpl::log`
unfoldable pub log : ℕ → ℤ → ℕ → Hierarchy → Outcome (List ℕ × Hierarchy)
log fuel loglevel a h = elim (is_enabled_for fuel loglevel a h) [
  | returns true ↦ call_appenders fuel a h
  | returns false ↦ returns ([], h)
  | throws ↦ throws
  | diverges ↦ diverges
]

-- `setLogLevel`, which `RootLogger` overrides to refuse NOT_SET_LOG_LEVEL.
unfoldable pub set_log_level : ℤ → ℕ → Hierarchy → Hierarchy
set_log_level loglevel a h =
    if a == 0 && eq_ℤ loglevel not_set_log_level
    then h
    else store a (record (h.heap a) { ll = loglevel }) h

unfoldable pub set_additivity : Bool → ℕ → Hierarchy → Hierarchy
set_additivity additive a h = store a (record (h.heap a) { additive = additive }) h
