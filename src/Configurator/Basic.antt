-- ===== src/Configurator/Basic.antt =====
-- src/configurator.cxx: `BasicConfigurator`.
use log4cplus.Common.{
  ℕ, ◌≡◌, refl, ap, ◌∙◌, Bool, true, false, Option, none, some, [], ◌∷◌, Text, codes, text_eq, map,
  if◌then◌else◌, ◌==◌, arith,
}
use log4cplus.Common.Map.{Map, find, assign}
use log4cplus.Configurator.Configure.{
  Settings, Surroundings, configure_settings, no_appenders, configure,
}
use log4cplus.Configurator.{
  configure_appenders, configure_appenders_loop, configure_appender, has_dot, configure_loggers,
  configure_named, configure_additivity, additivity_loop, configure_logger, configure_tokens,
  configured_level, add_named, add_to_logger, without_spaces,
}
use log4cplus.Attachable.{add_appender}
use log4cplus.Hierarchy.Children.{mem}
use log4cplus.Hierarchy.Operations.{remove_all_appenders}
use log4cplus.Hierarchy.{Hierarchy, debug_log_level}
use log4cplus.LogLevel.{new_manager, from_string, from_upper, from_string_by, default_from_string}
use log4cplus.Logger.{set_log_level}
use log4cplus.Property.Values.{get_bool}
use log4cplus.Property.{
  Properties, set_property, get_property, get_property_subset, subset_loop, property_names, exists,
  text_lt, cut_at,
}
use log4cplus.StringHelper.{tokenize, tokenize_loop}

-- The properties that the constructor sets.
unfoldable pub basic_properties : Bool → Properties
unfolding set_property
basic_properties log_to_std_err =
    set_property (codes "appender.STDOUT.logToStdErr")
      (if log_to_std_err then codes "1" else codes "0")
      (set_property (codes "appender.STDOUT") (codes "log4cplus::ConsoleAppender")
        (set_property (codes "rootLogger") (codes "DEBUG, STDOUT") []))

-- `BasicConfigurator::doConfigure`
unfoldable pub do_configure :
    Surroundings → Bool → ℕ → (ℕ → Text) → Settings × Hierarchy → Option (Settings × Hierarchy)
unfolding configure basic_properties
do_configure around log_to_std_err fresh names s =
    configure around (basic_properties log_to_std_err) fresh names s

-- The property of the appender.
abbrev pub console_properties : Bool → Properties
console_properties log_to_std_err =
    (codes "logToStdErr", if log_to_std_err then codes "1" else codes "0") ∷ []

module _ (around : Surroundings) (create : Properties → Bool) (b : Bool) (fresh : ℕ)
    (names : ℕ → Text) where
  made_appenders :
      around.factories (codes "log4cplus::ConsoleAppender") ≡ some create
      → create (console_properties b) ≡ true
      → (configure_appenders around.factories
          (basic_properties b)
          (no_appenders fresh names)).appenders
        ≡ (codes "STDOUT", fresh) ∷ []
  unfolding configure_appenders configure_appenders_loop configure_appender basic_properties
      get_property_subset subset_loop property_names get_property set_property text_lt find text_eq
      cut_at assign has_dot
  made_appenders e f = rw (e, f) refl

  abbrev basic_hierarchy : Hierarchy → Hierarchy
  basic_hierarchy h =
      add_to_logger 0 fresh (remove_all_appenders 0 (set_log_level debug_log_level 0 h))

  debug_level :
      (appenders : Map ℕ)
      → around.translators ≡ new_manager
      → map around.upper (codes "DEBUG") ≡ codes "DEBUG"
      → configured_level around.upper around.translators appenders (codes "DEBUG") ≡ debug_log_level
  unfolding configured_level from_string from_upper from_string_by default_from_string text_eq
  debug_level appenders t u =
      ap (λ ts. configured_level around.upper ts appenders (codes "DEBUG")) t
      ∙ ap (from_upper new_manager) u

  basic_tokens :
      tokenize b',' true (without_spaces (codes "DEBUG, STDOUT"))
      ≡ codes "DEBUG" ∷ codes "STDOUT" ∷ []
  unfolding tokenize tokenize_loop without_spaces
  basic_tokens = refl

  root_configured :
      (h : Hierarchy)
      → around.translators ≡ new_manager
      → map around.upper (codes "DEBUG") ≡ codes "DEBUG"
      → configure_logger around.upper around.translators
          ((codes "STDOUT", fresh) ∷ [])
          0
          (codes "DEBUG, STDOUT")
          h
        ≡ basic_hierarchy h
  unfolding configure_logger configure_tokens add_named find text_eq
  root_configured h t u =
      ap
        (λ ts.
          configure_tokens around.upper around.translators ((codes "STDOUT", fresh) ∷ []) 0 ts h)
        basic_tokens
      ∙ ap (λ l. add_to_logger 0 fresh (remove_all_appenders 0 (set_log_level l 0 h)))
          (debug_level ((codes "STDOUT", fresh) ∷ []) t u)

  loggers_configured :
      (h : Hierarchy)
      → around.translators ≡ new_manager
      → map around.upper (codes "DEBUG") ≡ codes "DEBUG"
      → configure_loggers around.upper around.translators
          ((codes "STDOUT", fresh) ∷ [])
          (basic_properties b)
          h
        ≡ some (basic_hierarchy h)
  unfolding configure_loggers configure_named basic_properties get_property_subset subset_loop
      property_names get_property set_property exists text_lt find text_eq
  loggers_configured h t u = ap some (root_configured h t u)

  additivity_configured :
      (read_bool : Text → Properties → Option Bool) (h : Hierarchy)
      → configure_additivity read_bool (basic_properties b) h ≡ some h
  unfolding configure_additivity additivity_loop basic_properties get_property_subset subset_loop
      property_names get_property set_property text_lt text_eq
  additivity_configured read_bool h = refl

  no_override :
      get_bool around.lower around.read_long (codes "disableOverride") (basic_properties b) ≡ none
  unfolding get_bool basic_properties exists set_property text_lt find text_eq
  no_override = refl

  basic_appenders : (h : Hierarchy) → ((basic_hierarchy h).heap 0).appenders ≡ fresh ∷ []
  unfolding remove_all_appenders add_appender mem
  basic_appenders h = ground arith

  basic_level : (h : Hierarchy) → ((basic_hierarchy h).heap 0).ll ≡ debug_log_level
  unfolding remove_all_appenders set_log_level
  basic_level h = ground arith

  basic_others : (h : Hierarchy) (x : ℕ) → (0 == x) ≡ false → (basic_hierarchy h).heap x ≡ h.heap x
  unfolding remove_all_appenders set_log_level
  basic_others h x n = ground (arith, n)

-- `BasicConfigurator` sets the root logger to the level DEBUG with one new appender, that of the
-- console, in place of those that it had, and leaves every other logger as it is. The factory of
-- the console appender is registered and makes one, and the names of levels are the standard ones,
-- of which toUpper leaves DEBUG alone.
pub do_configure-root :
    (around : Surroundings) (create : Properties → Bool) (b : Bool) (fresh : ℕ) (names : ℕ → Text)
    (s : Settings) (h : Hierarchy)
    → around.factories (codes "log4cplus::ConsoleAppender") ≡ some create
    → create (console_properties b) ≡ true
    → around.translators ≡ new_manager
    → map around.upper (codes "DEBUG") ≡ codes "DEBUG"
    → (h' : Hierarchy) × (do_configure around b fresh names (s, h)
        ≡ some (configure_settings around (basic_properties b) s, h'))
      × ((h'.heap 0).ll ≡ debug_log_level)
      × ((h'.heap 0).appenders ≡ fresh ∷ [])
      × ((x : ℕ) → (0 == x) ≡ false → h'.heap x ≡ h.heap x)
unfolding do_configure
do_configure-root around create b fresh names s h e f t u =
    let run =
      ap (λ apps. configure_loggers around.upper around.translators apps (basic_properties b) h)
        (made_appenders around create b fresh names e f)
      ∙ loggers_configured around create b fresh names h t u in
    let run' =
      additivity_configured around create b fresh names (get_bool around.lower around.read_long)
        (basic_hierarchy around create b fresh names h) in
    (
      basic_hierarchy around create b fresh names h,
      rw (run, configure, run', no_override around create b fresh names) refl,
      basic_level around create b fresh names h,
      basic_appenders around create b fresh names h,
      basic_others around create b fresh names h,
    )
