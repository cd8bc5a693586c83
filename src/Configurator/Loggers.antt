-- ===== src/Configurator/Loggers.antt =====
-- What the configuration of loggers does to the hierarchy.
use log4cplus.Common.{
  ℕ, ◌≡◌, refl, Bool, true, false, Option, some, List, [], ◌∷◌, Text, codes, All, if◌then◌else◌,
  Option-cases, inl, inr, arith,
}
use log4cplus.Common.Map.{Map, find}
use log4cplus.Configurator.{
  add_to_logger, add_named, configured_level, configure_tokens, configure_logger, configure_named,
  configure_loggers, additivity_loop, configure_additivity, without_spaces,
}
use log4cplus.Hierarchy.GetInstance.{get_instance-Gets, Safe}
use log4cplus.Hierarchy.Inv.{Inv}
use log4cplus.Hierarchy.Operations.{remove_all_appenders}
use log4cplus.Hierarchy.SameTree.{
  SameTree, SameTree-refl, SameTree-trans, SameTree-Inv, remove-SameTree, set_log_level-SameTree,
  set_additivity-SameTree,
}
use log4cplus.Hierarchy.{Hierarchy}
use log4cplus.LogLevel.{Translator}
use log4cplus.Logger.{set_log_level, set_additivity}
use log4cplus.Property.{Properties, exists, get_property, property_names, get_property_subset}
use log4cplus.StringHelper.{tokenize}

add_to_logger-SameTree : (a app : ℕ) (h : Hierarchy) → SameTree h (add_to_logger a app h)
add_to_logger-SameTree a app h = record {
  name = λ x. ground arith;
  parent = λ x. ground arith;
  next = refl;
  logger_ptrs = refl;
  provision_nodes = refl;
}

add_named-SameTree :
    (appenders : Map ℕ) (a : ℕ) (tokens : List Text) (h : Hierarchy)
    → SameTree h (add_named appenders a tokens h)
unfolding add_named
add_named-SameTree appenders a [] h = SameTree-refl h
add_named-SameTree appenders a (token ∷ tokens) h = elim (Option-cases (find token appenders)) [
  | inl e ↦ rw (e, add_named) (add_named-SameTree appenders a tokens h)
  | inr (app, e) ↦
      rw (e, add_named)
        (SameTree-trans (add_to_logger-SameTree a app h)
          (add_named-SameTree appenders a tokens (add_to_logger a app h)))
]

module _ (upper : ℕ → ℕ) (translators : List Translator) (appenders : Map ℕ) where
  configure_tokens-SameTree :
      (a : ℕ) (tokens : List Text) (h : Hierarchy)
      → SameTree h (configure_tokens upper translators appenders a tokens h)
  unfolding configure_tokens
  configure_tokens-SameTree a [] h = SameTree-refl h
  configure_tokens-SameTree a (loglevel ∷ tokens) h =
      let level = configured_level upper translators appenders loglevel in
      SameTree-trans (set_log_level-SameTree level a h) (
        SameTree-trans (remove-SameTree a (set_log_level level a h)) (
          add_named-SameTree appenders a tokens (remove_all_appenders a (set_log_level level a h))))

  configure_logger-SameTree :
      (a : ℕ) (config : Text) (h : Hierarchy)
      → SameTree h (configure_logger upper translators appenders a config h)
  unfolding configure_logger
  configure_logger-SameTree a config h =
      configure_tokens-SameTree a (tokenize b',' true (without_spaces config)) h

  configure_logger-Inv :
      (a : ℕ) (config : Text) (h : Hierarchy)
      → Inv h
      → Inv (configure_logger upper translators appenders a config h)
  configure_logger-Inv a config h v =
      SameTree-Inv h (configure_logger upper translators appenders a config h)
        (configure_logger-SameTree a config h) v

  configure_named-Inv :
      (props : Properties) (names : List Text) (h : Hierarchy)
      → Inv h
      → All Safe names
      → (h' : Hierarchy) × (configure_named upper translators appenders props names h ≡ some h')
        × Inv h'
  unfolding configure_named
  configure_named-Inv props [] h v safe = (h, refl, v)
  configure_named-Inv props (name ∷ names) h v safe =
      let (a, h₁, g) = get_instance-Gets name h v safe.0 in
      let (h', run, v') =
        configure_named-Inv props names
          (configure_logger upper translators appenders a (get_property name props) h₁)
          (configure_logger-Inv a (get_property name props) h₁ g.inv) safe.1 in
      (h', rw (g.run, configure_named) run, v')

  root_configured :
      (b : Bool) (props : Properties) (h : Hierarchy)
      → Inv h
      → Inv (
          if b
          then configure_logger upper translators appenders 0
              (get_property (codes "rootLogger") props)
              h
          else h)
  root_configured true props h v =
      configure_logger-Inv 0 (get_property (codes "rootLogger") props) h v
  root_configured false props h v = v

  pub configure_loggers-Inv :
      (props : Properties) (h : Hierarchy)
      → Inv h
      → All Safe (property_names (get_property_subset (codes "logger.") props))
      → (h' : Hierarchy) × (configure_loggers upper translators appenders props h ≡ some h')
        × Inv h'
  unfolding configure_loggers
  configure_loggers-Inv props h v safe =
      configure_named-Inv (get_property_subset (codes "logger.") props)
        (property_names (get_property_subset (codes "logger.") props))
        (if exists (codes "rootLogger") props
          then configure_logger upper translators appenders 0
              (get_property (codes "rootLogger") props) h
          else h)
        (root_configured (exists (codes "rootLogger") props) props h v) safe

additivity_loop-Inv :
    (read_bool : Text → Properties → Option Bool) (props : Properties) (names : List Text)
    (h : Hierarchy)
    → Inv h
    → All Safe names
    → (h' : Hierarchy) × (additivity_loop read_bool props names h ≡ some h') × Inv h'
unfolding additivity_loop
additivity_loop-Inv read_bool props [] h v safe = (h, refl, v)
additivity_loop-Inv read_bool props (name ∷ names) h v safe =
    let (a, h₁, g) = get_instance-Gets name h v safe.0 in
    elim (Option-cases (read_bool name props)) [
      | inl e ↦
          let (h', run, v') = additivity_loop-Inv read_bool props names h₁ g.inv safe.1 in
          (h', rw (g.run, additivity_loop, e) run, v')
      | inr (b, e) ↦
          let (h', run, v') =
            additivity_loop-Inv read_bool props names (set_additivity b a h₁)
              (SameTree-Inv h₁ (set_additivity b a h₁) (set_additivity-SameTree b a h₁) g.inv)
              safe.1 in
          (h', rw (g.run, additivity_loop, e) run, v')
    ]

pub configure_additivity-Inv :
    (read_bool : Text → Properties → Option Bool) (props : Properties) (h : Hierarchy)
    → Inv h
    → All Safe (property_names (get_property_subset (codes "additivity.") props))
    → (h' : Hierarchy) × (configure_additivity read_bool props h ≡ some h') × Inv h'
unfolding configure_additivity
configure_additivity-Inv read_bool props h v safe =
    additivity_loop-Inv read_bool (get_property_subset (codes "additivity.") props)
      (property_names (get_property_subset (codes "additivity.") props)) h v safe
