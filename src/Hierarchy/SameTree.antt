-- ===== src/Hierarchy/SameTree.antt =====
-- What shutdown and reset leave alone: the loggers, their names and their parents.
use log4cplus.Common.{ℕ, ◌≡◌, refl, Bool, true, List, [], ◌∷◌, ℤ, arith}
use log4cplus.Hierarchy.Parents.{member}
use log4cplus.Hierarchy.Inv.{Inv}
use log4cplus.Hierarchy.Operations.{
  close_nested_appenders, remove_all_appenders, shutdown_loop, reset_loop,
}
use log4cplus.Hierarchy.{Hierarchy, not_set_log_level}
use log4cplus.Logger.{set_log_level, set_additivity}

-- Two hierarchies with the same loggers, names and parents.
pub record SameTree (h h' : Hierarchy) : Type 0 where
  pub name : (x : ℕ) → (h'.heap x).name ≡ (h.heap x).name
  pub parent : (x : ℕ) → (h'.heap x).parent ≡ (h.heap x).parent
  pub next : h'.next ≡ h.next
  pub logger_ptrs : h'.logger_ptrs ≡ h.logger_ptrs
  pub provision_nodes : h'.provision_nodes ≡ h.provision_nodes

pub SameTree-trans : {a b c : Hierarchy} → SameTree a b → SameTree b c → SameTree a c
SameTree-trans f g = record {
  name = λ x. cc (f.name x, g.name x);
  parent = λ x. cc (f.parent x, g.parent x);
  next = cc (f.next, g.next);
  logger_ptrs = cc (f.logger_ptrs, g.logger_ptrs);
  provision_nodes = cc (f.provision_nodes, g.provision_nodes);
}

pub SameTree-Inv : (h h' : Hierarchy) → SameTree h h' → Inv h → Inv h'
unfolding member
SameTree-Inv h h' s v = record {
  root_name = cc (s.name 0, v.root_name);
  root_parent = cc (s.parent 0, v.root_parent);
  some_room = ground (arith, s.next, v.some_room);
  no_empty = ground (arith, s.logger_ptrs, v.no_empty);
  address = λ n a e. ground (arith, s.logger_ptrs, s.next, v.address n a);
  named = λ n a e. ground (arith, s.logger_ptrs, s.name a, v.named n a);
  parented = λ n a e. ground (arith, s.logger_ptrs, s.parent a, v.parented n a);
  waits = λ n a p e w. ground (arith, s.logger_ptrs, s.provision_nodes, v.waits n a p);
  known = λ a p m. ground (arith, s.logger_ptrs, s.provision_nodes, s.name a, v.known a p);
}

pub SameTree-refl : (h : Hierarchy) → SameTree h h
SameTree-refl h = record {
  name = λ x. refl;
  parent = λ x. refl;
  next = refl;
  logger_ptrs = refl;
  provision_nodes = refl;
}

pub remove-SameTree : (a : ℕ) (h : Hierarchy) → SameTree h (remove_all_appenders a h)
unfolding remove_all_appenders
remove-SameTree a h = record {
  name = λ x. ground arith;
  parent = λ x. ground arith;
  next = refl;
  logger_ptrs = refl;
  provision_nodes = refl;
}

pub set_log_level-SameTree : (ll : ℤ) (a : ℕ) (h : Hierarchy) → SameTree h (set_log_level ll a h)
unfolding set_log_level
set_log_level-SameTree ll a h = record {
  name = λ x. ground arith;
  parent = λ x. ground arith;
  next = ground arith;
  logger_ptrs = ground arith;
  provision_nodes = ground arith;
}

pub set_additivity-SameTree : (b : Bool) (a : ℕ) (h : Hierarchy) → SameTree h (set_additivity b a h)
unfolding set_additivity
set_additivity-SameTree b a h = record {
  name = λ x. ground arith;
  parent = λ x. ground arith;
  next = refl;
  logger_ptrs = refl;
  provision_nodes = refl;
}

pub shutdown_loop-SameTree :
    (loggers closed : List ℕ) (h : Hierarchy) → SameTree h (shutdown_loop loggers (closed, h)).1
unfolding shutdown_loop
shutdown_loop-SameTree [] closed h = SameTree-refl h
shutdown_loop-SameTree (a ∷ loggers) closed h = SameTree-trans (remove-SameTree a h) (
    shutdown_loop-SameTree loggers (close_nested_appenders (h.heap a).appenders closed)
      (remove_all_appenders a h))

pub reset_loop-SameTree : (loggers : List ℕ) (h : Hierarchy) → SameTree h (reset_loop loggers h)
unfolding reset_loop
reset_loop-SameTree [] h = SameTree-refl h
reset_loop-SameTree (a ∷ loggers) h =
    let h₁ = set_log_level not_set_log_level a h in
    SameTree-trans (set_log_level-SameTree not_set_log_level a h) (
      SameTree-trans (set_additivity-SameTree true a h₁)
        (reset_loop-SameTree loggers (set_additivity true a h₁)))
