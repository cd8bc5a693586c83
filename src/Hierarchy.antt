-- ===== src/Hierarchy.antt =====
-- src/hierarchy.cxx and include/log4cplus/hierarchy.h: the tree of loggers.
--
-- A `LoggerImpl` is an object on a heap, at an address; a `Logger` handle is such an address. The
-- root logger stands at address 0. `logger_ptrs` and `provision_nodes` are the two maps of the
-- class. The mutex is not modelled: every operation here runs with it held.
pub mod Names
pub mod Prefixes
pub mod Closest
pub mod Operations
pub mod SameTree
pub mod Locker
pub mod Reset
pub mod Clash
pub mod Order
pub mod GetInstance
pub mod History
pub mod Adopt
pub mod Create
pub mod Inv
pub mod Parents
pub mod Children
use log4cplus.Common.{
  ℕ, suc, ◌+◌, ◌≡◌, Bool, true, false, Option, none, some, List, [], ◌∷◌, ◌++◌, Text, codes,
  is_empty, ℤ, pos, negsuc, leb_ℤ, ◌==◌, if◌then◌else◌,
}
use log4cplus.Common.Map.{Map, find, erase, assign}
use log4cplus.Hierarchy.Names.{starts_with, prefixes}

pub record LoggerImpl : Type 0 where
  pub name : Text
  pub ll : ℤ
  pub parent : Option ℕ
  pub additive : Bool
  pub appenders : List ℕ

pub record Hierarchy : Type 0 where
  pub heap : ℕ → LoggerImpl
  pub next : ℕ
  pub logger_ptrs : Map ℕ
  pub provision_nodes : Map (List ℕ)
  pub disable_value : ℤ
  pub emitted_no_appender_warning : Bool

abbrev pub not_set_log_level : ℤ
not_set_log_level = negsuc 0

abbrev pub debug_log_level : ℤ
debug_log_level = pos 10000

abbrev pub disable_off : ℤ
disable_off = negsuc 0

abbrev pub disable_override : ℤ
disable_override = negsuc 1

abbrev pub int_max : ℤ
int_max = pos 2147483647

-- The constructor of `RootLogger`.
abbrev pub root_logger : LoggerImpl
root_logger = record {
  name = codes "root";
  ll = debug_log_level;
  parent = none;
  additive = true;
  appenders = [];
}

-- The constructor of `LoggerImpl`.
abbrev pub new_logger : Text → LoggerImpl
new_logger name = record {
  name = name;
  ll = not_set_log_level;
  parent = none;
  additive = true;
  appenders = [];
}

-- The constructor of `Hierarchy`.
unfoldable pub init : Hierarchy
init = record {
  heap = λ _. root_logger;
  next = 1;
  logger_ptrs = [];
  provision_nodes = [];
  disable_value = disable_off;
  emitted_no_appender_warning = false;
}

abbrev pub store : ℕ → LoggerImpl → Hierarchy → Hierarchy
store a l h = record h { heap = λ x. if x == a then l else h.heap x }

abbrev pub set_parent : ℕ → ℕ → Hierarchy → Hierarchy
set_parent a p h = store a (record (h.heap a) { parent = some p }) h

unfoldable pub exists : Text → Hierarchy → Bool
exists name h =
    if is_empty name then true else elim (find name h.logger_ptrs) [ none ↦ false | some a ↦ true ]

-- One round of the loop of `updateChildren`; `none` is the null parent that it would dereference.
unfoldable pub update_child : ℕ → ℕ → Hierarchy → Option Hierarchy
update_child logger c h = elim (h.heap c).parent [
  | none ↦ none
  | some p ↦ some (
      if starts_with (h.heap p).name (h.heap logger).name
      then h
      else set_parent c logger (set_parent logger p h))
]

unfoldable pub update_children : List ℕ → ℕ → Hierarchy → Option Hierarchy
update_children [] logger h = some h
update_children (c ∷ pn) logger h = elim (update_child logger c h) [
  | none ↦ none
  | some h' ↦ update_children pn logger h'
]

-- The provision node of `substr` gets one more logger, or is made.
unfoldable pub push_provision : Text → ℕ → Hierarchy → Hierarchy
push_provision substr logger h = elim (find substr h.provision_nodes) [
  | none ↦ record h { provision_nodes = assign substr (logger ∷ []) h.provision_nodes }
  | some pn ↦ record h { provision_nodes = assign substr (pn ++ logger ∷ []) h.provision_nodes }
]

-- The loop of `updateParents` over the values of `substr`; the list is empty where the loop ends
-- with no parent found.
unfoldable pub update_parents_loop : List Text → ℕ → Hierarchy → Hierarchy
update_parents_loop [] logger h = set_parent logger 0 h
update_parents_loop (substr ∷ rest) logger h = elim (find substr h.logger_ptrs) [
  | none ↦ update_parents_loop rest logger (push_provision substr logger h)
  | some a ↦ set_parent logger a h
]

unfoldable pub update_parents : ℕ → Hierarchy → Hierarchy
update_parents logger h = update_parents_loop (prefixes (h.heap logger).name) logger h

-- The branch of `getInstanceImpl` that makes a logger, with the default factory.
abbrev pub inserted : Text → Hierarchy → Hierarchy
inserted name h = record h {
  heap = λ x. if x == h.next then new_logger name else h.heap x;
  next = h.next + 1;
  logger_ptrs = assign name h.next h.logger_ptrs;
}

abbrev pub unprovisioned : Text → Hierarchy → Hierarchy
unprovisioned name h = record h { provision_nodes = erase name h.provision_nodes }

unfoldable pub create : Text → Hierarchy → Option (ℕ × Hierarchy)
create name h = elim (find name h.provision_nodes) [
  | none ↦ some (h.next, update_parents h.next (inserted name h))
  | some pn ↦ elim (update_children pn h.next (inserted name h)) [
    | none ↦ none
    | some h' ↦ some (h.next, update_parents h.next (unprovisioned name h'))
  ]
]

unfoldable pub get_instance : Text → Hierarchy → Option (ℕ × Hierarchy)
get_instance name h =
    if is_empty name
    then some (0, h)
    else elim (find name h.logger_ptrs) [ none ↦ create name h | some a ↦ some (a, h) ]
