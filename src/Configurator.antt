-- ===== src/Configurator.antt =====
-- src/configurator.cxx: the property configurator.
--
-- `replace_environ_variables` has fuel for the substitution in each text and for its own rounds. A
-- factory makes an appender of its properties or fails, by a null pointer or an exception; appenders
-- are numbered in the order in which they are made. What the thread pool does with its settings and
-- what the log of the library prints are not modelled.
pub mod Variables
pub mod Expanding
pub mod Loggers
pub mod Words
pub mod OneLogger
pub mod Configure
pub mod Tree
pub mod Basic
pub mod WatchDog
use log4cplus.Attachable.{add_appender}
use log4cplus.Common.{
  ℕ, zero, suc, ◌+◌, Bool, true, false, not, ◌&&◌, ◌||◌, Option, none, some, List, [], ◌∷◌, ◌++◌,
  Text, codes, text_eq, is_empty, min, max, ℤ, ◌==◌, if◌then◌else◌,
}
use log4cplus.Common.Map.{Map, find, assign}
use log4cplus.Hierarchy.Operations.{disable, remove_all_appenders}
use log4cplus.Hierarchy.{Hierarchy, not_set_log_level, disable_override, store, get_instance}
use log4cplus.LogLevel.{Translator, from_string}
use log4cplus.Logger.{set_log_level, set_additivity}
use log4cplus.Property.Values.{get_bool, get_type_val}
use log4cplus.Property.{
  Properties, Flags, Substituted, result, diverges, exists, get_property, property_names,
  set_property, remove_property, get_property_subset, cut_at, subst_vars,
}
use log4cplus.StringHelper.{tokenize}

-- What the loop of `replaceEnvironVariables` does for one key, and whether it changed something.
unfoldable pub replace_key :
    (Text → Option Text) → Flags → (Text → ℕ) → Text → Properties → Option (Properties × Bool)
unfolding subst_vars get_property set_property remove_property
replace_key env flags fuel key props =
    let val = get_property key props in
    elim (subst_vars env props flags (fuel key) key) [
      | diverges ↦ none
      | result sub_key key_changed ↦
          let props' =
            if key_changed then set_property sub_key val (remove_property key props) else props in
          elim (subst_vars env props' flags (fuel val) val) [
            | diverges ↦ none
            | result sub_val val_changed ↦ some (
              if val_changed then set_property sub_key sub_val props' else props',
              key_changed || val_changed,
            )
          ]
    ]

unfoldable pub replace_keys :
    (Text → Option Text)
    → Flags
    → (Text → ℕ)
    → List Text
    → Properties × Bool
    → Option (Properties × Bool)
unfolding replace_key
replace_keys env flags fuel [] s = some s
replace_keys env flags fuel (key ∷ keys) (props, changed) =
    elim (replace_key env flags fuel key props) [
      | none ↦ none
      | some (props', changed') ↦ replace_keys env flags fuel keys (props', changed || changed')
    ]

-- `replaceEnvironVariables`, the rounds of its loop on fuel.
unfoldable pub replace_environ_variables :
    (Text → Option Text) → Flags → (Text → ℕ) → ℕ → Properties → Option Properties
unfolding replace_keys property_names
replace_environ_variables env flags fuel zero props = none
replace_environ_variables env flags fuel (suc rounds) props =
    elim (replace_keys env flags fuel (property_names props) (props, false)) [
      | none ↦ none
      | some (props', changed) ↦ elim (changed && flags.rec_exp) [
        | true ↦ replace_environ_variables env flags fuel rounds props'
        | false ↦ some props'
      ]
    ]

-- `PropertyConfigurator::init`
unfoldable pub init : (Text → Option Text) → Flags → (Text → ℕ) → ℕ → Properties → Option Properties
unfolding replace_environ_variables get_property_subset
init env flags fuel rounds props = elim (replace_environ_variables env flags fuel rounds props) [
  | none ↦ none
  | some props' ↦ some (get_property_subset (codes "log4cplus.") props')
]

-- The appenders that the configurator has made, by name.
pub record Appenders : Type 0 where
  pub next : ℕ
  pub appenders : Map ℕ
  pub names : ℕ → Text

unfoldable pub without_spaces : Text → Text
without_spaces [] = []
without_spaces (c ∷ s) = let rest = without_spaces s in if c == b' ' then rest else c ∷ rest

-- `Logger::addAppender`
abbrev pub add_to_logger : ℕ → ℕ → Hierarchy → Hierarchy
add_to_logger a app h =
    store a (record (h.heap a) { appenders = add_appender (some app) (h.heap a).appenders }) h

-- The loop of `configureLogger` over the names of appenders.
unfoldable pub add_named : Map ℕ → ℕ → List Text → Hierarchy → Hierarchy
unfolding add_appender find
add_named appenders a [] h = h
add_named appenders a (token ∷ tokens) h = elim (find token appenders) [
  | none ↦ add_named appenders a tokens h
  | some app ↦ add_named appenders a tokens (add_to_logger a app h)
]

module _ (upper : ℕ → ℕ) (translators : List Translator) (appenders : Map ℕ) where
  -- The level that the first token of a logger's configuration names.
  unfoldable pub configured_level : Text → ℤ
  unfolding from_string
  configured_level loglevel =
      if not (text_eq loglevel (codes "INHERITED"))
      then from_string upper translators loglevel
      else not_set_log_level

  unfoldable pub configure_tokens : ℕ → List Text → Hierarchy → Hierarchy
  unfolding configured_level set_log_level remove_all_appenders add_named
  configure_tokens a [] h = h
  configure_tokens a (loglevel ∷ tokens) h =
      add_named appenders a tokens
        (remove_all_appenders a (set_log_level (configured_level loglevel) a h))

  unfoldable pub configure_logger : ℕ → Text → Hierarchy → Hierarchy
  unfolding configure_tokens without_spaces tokenize
  configure_logger a config h = configure_tokens a (tokenize b',' true (without_spaces config)) h

  -- The loop of `configureLoggers`.
  unfoldable pub configure_named : Properties → List Text → Hierarchy → Option Hierarchy
  unfolding configure_logger get_property get_instance
  configure_named props [] h = some h
  configure_named props (name ∷ names) h = elim (get_instance name h) [
    | none ↦ none
    | some (a, h') ↦ configure_named props names (configure_logger a (get_property name props) h')
  ]

  unfoldable pub configure_loggers : Properties → Hierarchy → Option Hierarchy
  unfolding configure_named configure_logger exists get_property get_property_subset property_names
  configure_loggers props h =
      let logger_props = get_property_subset (codes "logger.") props in
      configure_named logger_props (property_names logger_props) (
        if exists (codes "rootLogger") props
        then configure_logger 0 (get_property (codes "rootLogger") props) h
        else h)

abbrev pub has_dot : Text → Bool
unfolding cut_at
has_dot name = elim (cut_at (codes ".") name) [ none ↦ false | some (s, t) ↦ true ]

-- What `configureAppenders` does for one name: `factories` tells for a factory that is registered
-- whether it makes an appender of its properties.
unfoldable pub configure_appender :
    (Text → Option (Properties → Bool)) → Properties → Text → Appenders → Appenders
unfolding cut_at get_property get_property_subset assign
configure_appender factories props name s =
    if has_dot name then s else (elim (factories (get_property name props)) [
      | none ↦ s
      | some create ↦
          if create (get_property_subset (name ++ codes ".") props)
          then record {
            next = suc s.next;
            appenders = assign name s.next s.appenders;
            names = λ app. if app == s.next then name else s.names app;
          }
          else s
    ])

unfoldable pub configure_appenders_loop :
    (Text → Option (Properties → Bool)) → Properties → List Text → Appenders → Appenders
unfolding configure_appender
configure_appenders_loop factories props [] s = s
configure_appenders_loop factories props (name ∷ names) s =
    configure_appenders_loop factories props names (configure_appender factories props name s)

unfoldable pub configure_appenders :
    (Text → Option (Properties → Bool)) → Properties → Appenders → Appenders
unfolding configure_appenders_loop get_property_subset property_names
configure_appenders factories props s =
    let appender_props = get_property_subset (codes "appender.") props in
    configure_appenders_loop factories appender_props (property_names appender_props) s

-- The loop of `configureAdditivity`; `read_bool` is `getBool`.
unfoldable pub additivity_loop :
    (Text → Properties → Option Bool) → Properties → List Text → Hierarchy → Option Hierarchy
unfolding get_instance set_additivity
additivity_loop read_bool props [] h = some h
additivity_loop read_bool props (name ∷ names) h = elim (get_instance name h) [
  | none ↦ none
  | some (a, h') ↦ elim (read_bool name props) [
    | none ↦ additivity_loop read_bool props names h'
    | some additivity ↦ additivity_loop read_bool props names (set_additivity additivity a h')
  ]
]

unfoldable pub configure_additivity :
    (Text → Properties → Option Bool) → Properties → Hierarchy → Option Hierarchy
unfolding additivity_loop get_property_subset property_names
configure_additivity read_bool props h =
    let additivity_props = get_property_subset (codes "additivity.") props in
    additivity_loop read_bool additivity_props (property_names additivity_props) h
