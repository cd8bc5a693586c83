-- ===== src/Configurator/Tree.antt =====
-- A whole configuration keeps the tree of loggers.
use log4cplus.Common.{
  ℕ, ℤ, ◌≡◌, refl, arith, Bool, true, false, some, Text, codes, All, if◌then◌else◌,
}
use log4cplus.Configurator.Configure.{
  Settings, Surroundings, value_or, configure_settings, no_appenders, configure,
}
use log4cplus.Configurator.Loggers.{configure_loggers-Inv, configure_additivity-Inv}
use log4cplus.Configurator.{configure_appenders}
use log4cplus.Hierarchy.GetInstance.{Safe}
use log4cplus.Hierarchy.Inv.{Inv}
use log4cplus.Hierarchy.Operations.{disable}
use log4cplus.Hierarchy.SameTree.{SameTree-Inv}
use log4cplus.Hierarchy.{Hierarchy, disable_override}
use log4cplus.Property.Values.{get_bool}
use log4cplus.Property.{Properties, property_names, get_property_subset}

disable-Inv : (ll : ℤ) (h : Hierarchy) → Inv h → Inv (disable ll h)
unfolding disable
disable-Inv ll h v =
    SameTree-Inv h (disable ll h)
      (record {
        name = λ x. ground arith;
        parent = λ x. ground arith;
        next = ground arith;
        logger_ptrs = ground arith;
        provision_nodes = ground arith;
      })
      v

if_disabled-Inv :
    (b : Bool) (h : Hierarchy) → Inv h → Inv (if b then disable disable_override h else h)
if_disabled-Inv true h v = disable-Inv disable_override h v
if_disabled-Inv false h v = v

-- From a tree that satisfies the invariant a configuration of appenders, loggers and additivity
-- returns, whatever its properties hold, and leaves a tree that satisfies the invariant: the parent
-- of each logger is its closest existing ancestor by name. The names of loggers in the properties
-- are none of r, ro and roo.
pub configure-Inv :
    (around : Surroundings) (props : Properties) (fresh : ℕ) (names : ℕ → Text) (s : Settings)
    (h : Hierarchy)
    → Inv h
    → All Safe (property_names (get_property_subset (codes "logger.") props))
    → All Safe (property_names (get_property_subset (codes "additivity.") props))
    → (h' : Hierarchy) × (configure around props fresh names (s, h)
        ≡ some (configure_settings around props s, h'))
      × Inv h'
unfolding configure
configure-Inv around props fresh names s h v loggers additivity =
    let made = configure_appenders around.factories props (no_appenders fresh names) in
    let read_bool = get_bool around.lower around.read_long in
    let (h₁, run, v₁) =
      configure_loggers-Inv around.upper around.translators made.appenders props h v loggers in
    let (h₂, run', v₂) = configure_additivity-Inv read_bool props h₁ v₁ additivity in
    let overrides = value_or false (read_bool (codes "disableOverride") props) in
    (
      if overrides then disable disable_override h₂ else h₂,
      rw (run, configure, run') refl,
      if_disabled-Inv overrides h₂ v₂,
    )
