-- ===== src/Tests/Resets.antt =====
-- A tree of two loggers, reset.
use log4cplus.Common.{ℕ, refl, [], codes, text_eq}
use log4cplus.Hierarchy.Names.{starts_with}
use log4cplus.Hierarchy.Inv.{root_clash}
use log4cplus.Hierarchy.GetInstance.{Gets, init-Inv, get_instance-Gets}
use log4cplus.Hierarchy.Operations.{reset_configuration}
use log4cplus.Hierarchy.Reset.{IsReset, reset_configuration-IsReset}
use log4cplus.Hierarchy.{Hierarchy, init}

first_call : (a : ℕ) × (h : Hierarchy) × Gets (codes "a.b") init a h
unfolding root_clash starts_with text_eq
first_call = get_instance-Gets (codes "a.b") init init-Inv refl

abbrev second : (a : ℕ) × (h : Hierarchy) × Gets (codes "a.b") init a h → Hierarchy
second (a, h, g) = h

abbrev two : Hierarchy
two = second first_call

gets :
    (c : (a : ℕ) × (h : Hierarchy) × Gets (codes "a.b") init a h)
    → Gets (codes "a.b") init c.0 (second c)
gets (a, h, g) = g

two-Gets : Gets (codes "a.b") init first_call.0 two
two-Gets = gets first_call

reset_configuration-IsReset_example : IsReset two (reset_configuration ([], two)).1
reset_configuration-IsReset_example = reset_configuration-IsReset [] two two-Gets.inv
