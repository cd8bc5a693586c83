-- ===== src/Tests/Trees.antt =====
-- Trees of loggers built by `getInstance`.
use log4cplus.Common.{
  ℕ, ◌≡◌, ◌≢◌, refl, sym, ap, ◌∙◌, true, Option, none, some, List, [], ◌∷◌, Text, codes,
  if◌then◌else◌, text_eq, arith, pos, All,
}
use mathlib.Core.Path.{subst}
use log4cplus.Common.Map.{find, erase, assign}
use log4cplus.Hierarchy.Names.{starts_with, prefixes}
use log4cplus.Hierarchy.Closest.{closest}
use log4cplus.Hierarchy.Inv.{Inv, root_clash}
use log4cplus.Hierarchy.GetInstance.{
  Safe, Gets, get_instances, init-Inv, get_instance-Gets, get_instances-Inv,
}
use log4cplus.Hierarchy.Prefixes.{has}
use log4cplus.Hierarchy.Clash.{clash_keeps_root}
use log4cplus.Hierarchy.History.{asked, first_asked, parent_name-get_instances}
use log4cplus.Hierarchy.Order.{root_or, parent_name}
use log4cplus.Logger.{returns, get_chained_log_level, call_appenders, call_appenders_loop, log}
use log4cplus.Logger.Chain.{existing, ancestry}
use log4cplus.Logger.Walks.{first_level, reached, effective_level, delivered, log_lem}
use log4cplus.Hierarchy.{
  Hierarchy, init, get_instance, create, update_child, update_children, update_parents,
  update_parents_loop, push_provision, not_set_log_level,
}

abbrev none_get : Option Hierarchy → Hierarchy
none_get none = init
none_get (some h) = h

some_eq : (h h' : Hierarchy) → some h ≡ some h' → h ≡ h'
some_eq h h' e = ap none_get e

run-Inv :
    (names : List Text) (h : Hierarchy) → All Safe names → get_instances names init ≡ some h → Inv h
run-Inv names h safe e =
    let (h', run, v) = get_instances-Inv names init init-Inv safe in
    subst Inv (some_eq h' h (sym run ∙ e)) v

build : List Text → Hierarchy
unfolding get_instances get_instance init create find text_eq update_child update_parents
    update_parents_loop prefixes assign push_provision update_children starts_with erase
build names = none_get (get_instances names init)

abbrev names : List Text
names = codes "w.x.y.z" ∷ codes "w" ∷ codes "q.x" ∷ codes "w.x.y" ∷ []

names-Safe : All Safe names
unfolding root_clash starts_with text_eq
names-Safe = (refl, (refl, (refl, (refl, tt))))

tree : Hierarchy
tree = build names

tree_run : get_instances names init ≡ some tree
unfolding tree build
tree_run = refl

tree-Inv : Inv tree
tree-Inv = run-Inv names tree names-Safe tree_run

tree_level : (tree.heap 0).ll ≢ not_set_log_level
unfolding tree build
tree_level e = ground (arith, e)

at_wxyz : find (codes "w.x.y.z") tree.logger_ptrs ≡ some 1
unfolding tree build
at_wxyz = refl

get_instance-Gets_example : (a : ℕ) × (h' : Hierarchy) × Gets (codes "w.x") tree a h'
unfolding root_clash starts_with text_eq
get_instance-Gets_example = get_instance-Gets (codes "w.x") tree tree-Inv refl

parent_name-get_instances_example :
    (h : Hierarchy) × (get_instances names init ≡ some h)
    × ((n : Text)
        → parent_name n h
          ≡ (if asked n names then some (root_or (first_asked names (prefixes n))) else none))
parent_name-get_instances_example = parent_name-get_instances names names-Safe

get_instances-Inv_example : (h' : Hierarchy) × (get_instances names init ≡ some h') × Inv h'
get_instances-Inv_example = get_instances-Inv names init init-Inv names-Safe

effective_level_example :
    (get_chained_log_level 20 1 tree
      ≡ returns (first_level tree.heap (1 ∷ ancestry tree.logger_ptrs (codes "w.x.y.z"))))
    × (first_level tree.heap (1 ∷ ancestry tree.logger_ptrs (codes "w.x.y.z")) ≢ not_set_log_level)
effective_level_example =
    effective_level tree (codes "w.x.y.z") 1 20 tree-Inv at_wxyz (omega arith) tree_level

delivered_example :
    call_appenders 20 1 tree ≡ returns ([], record tree { emitted_no_appender_warning = true })
unfolding tree build existing reached
delivered_example = delivered tree (codes "w.x.y.z") 1 20 tree-Inv at_wxyz (omega arith)

log_lem_example :
    log 20 (pos 20000) 1 tree ≡ returns ([], record tree { emitted_no_appender_warning = true })
unfolding tree build existing reached first_level call_appenders call_appenders_loop
log_lem_example =
    log_lem tree (codes "w.x.y.z") 1 20 tree-Inv at_wxyz (omega arith) (pos 20000) tree_level

-- A logger named r made after one named r.x.
abbrev below_r : List Text
below_r = codes "r.x" ∷ []

r_tree : Hierarchy
r_tree = build below_r

r_tree-Inv : Inv r_tree
unfolding r_tree build root_clash
r_tree-Inv = run-Inv below_r (build below_r) (refl, tt) refl

clash_keeps_root_example :
    (h' : Hierarchy) × (get_instance (codes "r") r_tree ≡ some (r_tree.next, h'))
    × ((h'.heap 1).parent ≡ some 0)
    × (closest h'.logger_ptrs (prefixes (codes "r.x")) ≡ r_tree.next)
    × (r_tree.next ≢ 0)
unfolding r_tree build root_clash has closest
clash_keeps_root_example =
    clash_keeps_root (codes "r") (codes "r.x") 1 r_tree r_tree-Inv refl refl refl refl refl
