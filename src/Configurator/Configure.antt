-- ===== src/Configurator/Configure.antt =====
-- src/configurator.cxx: `PropertyConfigurator::configure`, which configures appenders, loggers and
-- additivity in this order, and the settings outside of the hierarchy.
use log4cplus.Common.{
  ℕ, Bool, false, Option, none, some, List, [], Text, codes, min, max, ℤ, if◌then◌else◌,
}
use log4cplus.Configurator.{Appenders, configure_loggers, configure_appenders, configure_additivity}
use log4cplus.Hierarchy.Operations.{disable}
use log4cplus.Hierarchy.{Hierarchy, disable_override}
use log4cplus.LogLevel.{Translator}
use log4cplus.Property.Values.{get_bool, get_type_val}
use log4cplus.Property.{Properties}

-- The settings of the library's log and of the thread pool.
pub record Settings : Type 0 where
  pub internal_debugging : Bool
  pub quiet_mode : Bool
  pub thread_pool_size : ℕ
  pub block_on_full : Bool
  pub queue_size_limit : ℕ

-- What the configurator takes from elsewhere.
pub record Surroundings : Type 0 where
  pub upper : ℕ → ℕ
  pub lower : ℕ → ℕ
  pub translators : List Translator
  pub read_long : Text → Option (ℤ × Text)
  pub read_uint : Text → Option (ℕ × Text)
  pub factories : Text → Option (Properties → Bool)

abbrev pub value_or {ℓ} : {A : Type ℓ} → A → Option A → A
value_or old none = old
value_or old (some new) = new

unfoldable pub configure_settings : Surroundings → Properties → Settings → Settings
unfolding get_bool get_type_val
configure_settings around props s = record {
  internal_debugging =
      value_or s.internal_debugging
        (get_bool around.lower around.read_long (codes "configDebug") props);
  quiet_mode =
      value_or s.quiet_mode (get_bool around.lower around.read_long (codes "quietMode") props);
  thread_pool_size = elim (get_type_val around.read_uint (codes "threadPoolSize") props) [
    | none ↦ 4
    | some n ↦ min n 1024
  ];
  block_on_full =
      value_or s.block_on_full
        (get_bool around.lower around.read_long (codes "threadPoolBlockOnFull") props);
  queue_size_limit = elim (get_type_val around.read_uint (codes "threadPoolQueueSizeLimit") props) [
    | none ↦ s.queue_size_limit
    | some n ↦ max n 100
  ];
}

-- The appenders at the start of a configuration: `fresh` is the number of the next one.
abbrev pub no_appenders : ℕ → (ℕ → Text) → Appenders
no_appenders fresh names = record { next = fresh; appenders = []; names = names }

unfoldable pub configure :
    Surroundings
    → Properties
    → ℕ
    → (ℕ → Text)
    → Settings × Hierarchy
    → Option (Settings × Hierarchy)
unfolding configure_settings configure_appenders configure_loggers configure_additivity disable
    get_bool
configure around props fresh names (s, h) =
    let read_bool = get_bool around.lower around.read_long in
    let made = configure_appenders around.factories props (no_appenders fresh names) in
    let overrides = value_or false (read_bool (codes "disableOverride") props) in
    elim (configure_loggers around.upper around.translators made.appenders props h) [
      | none ↦ none
      | some h₁ ↦ elim (configure_additivity read_bool props h₁) [
        | none ↦ none
        | some h₂ ↦ some (
          configure_settings around props s,
          if overrides then disable disable_override h₂ else h₂,
        )
      ]
    ]
