-- ===== src/Hierarchy/Operations.antt =====
-- The other operations of src/hierarchy.cxx: disabling levels, shutdown and reset.
--
-- `closed` lists the appenders that were closed, the last first. Waiting for asynchronous logging
-- to finish is not modelled, nor what closing an appender does.
use log4cplus.Common.{ℕ, Bool, true, not, List, [], ◌∷◌, ℤ, pos, leb_ℤ, eq_ℤ, if◌then◌else◌}
use log4cplus.Common.Map.{Map}
use log4cplus.Hierarchy.Children.{mem}
use log4cplus.Hierarchy.{
  Hierarchy, store, debug_log_level, not_set_log_level, disable_off, disable_override, int_max,
}
use log4cplus.Logger.{set_log_level, set_additivity}

abbrev pub info_log_level : ℤ
info_log_level = pos 20000

unfoldable pub disable : ℤ → Hierarchy → Hierarchy
disable ll h =
    if not (eq_ℤ h.disable_value disable_override) then record h { disable_value = ll } else h

unfoldable pub disable_all : Hierarchy → Hierarchy
unfolding disable
disable_all h = disable int_max h

unfoldable pub disable_debug : Hierarchy → Hierarchy
unfolding disable
disable_debug h = disable debug_log_level h

unfoldable pub disable_info : Hierarchy → Hierarchy
unfolding disable
disable_info h = disable info_log_level h

unfoldable pub enable_all : Hierarchy → Hierarchy
enable_all h = record h { disable_value = disable_off }

unfoldable pub is_disabled : ℤ → Hierarchy → Bool
is_disabled level h = leb_ℤ level h.disable_value

unfoldable pub clear : Hierarchy → Hierarchy
clear h = record h { provision_nodes = []; logger_ptrs = [] }

unfoldable pub addresses : Map ℕ → List ℕ
addresses [] = []
addresses ((n, a) ∷ m) = a ∷ addresses m

unfoldable pub get_current_loggers : Hierarchy → List ℕ
unfolding addresses
get_current_loggers h = addresses h.logger_ptrs

-- `LoggerImpl::closeNestedAppenders` over the appenders of one logger.
unfoldable pub close_nested_appenders : List ℕ → List ℕ → List ℕ
unfolding mem
close_nested_appenders [] closed = closed
close_nested_appenders (app ∷ apps) closed =
    close_nested_appenders apps (if mem app closed then closed else app ∷ closed)

unfoldable pub remove_all_appenders : ℕ → Hierarchy → Hierarchy
remove_all_appenders a h = store a (record (h.heap a) { appenders = [] }) h

-- The loop of `shutdown` over loggers.
unfoldable pub shutdown_loop : List ℕ → List ℕ × Hierarchy → List ℕ × Hierarchy
unfolding close_nested_appenders remove_all_appenders
shutdown_loop [] s = s
shutdown_loop (a ∷ loggers) (closed, h) =
    shutdown_loop loggers
      (close_nested_appenders (h.heap a).appenders closed, remove_all_appenders a h)

unfoldable pub shutdown : List ℕ × Hierarchy → List ℕ × Hierarchy
unfolding shutdown_loop get_current_loggers
shutdown (closed, h) = shutdown_loop (0 ∷ get_current_loggers h) (closed, h)

unfoldable pub reset_loop : List ℕ → Hierarchy → Hierarchy
reset_loop [] h = h
reset_loop (a ∷ loggers) h =
    reset_loop loggers (set_additivity true a (set_log_level not_set_log_level a h))

unfoldable pub reset_configuration : List ℕ × Hierarchy → List ℕ × Hierarchy
unfolding reset_loop shutdown
reset_configuration (closed, h) =
    let (closed', h') =
      shutdown
        (closed, record (set_log_level debug_log_level 0 h) { disable_value = disable_off }) in
    (closed', reset_loop (get_current_loggers h') h')
