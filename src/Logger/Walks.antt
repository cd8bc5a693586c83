-- ===== src/Logger/Walks.antt =====
-- What the walks to the root compute, in terms of the existing ancestors by name.
use mathlib.Core.List.{append-nil}
use log4cplus.Common.{
  ℕ, zero, suc, ◌+◌, ◌<◌, ◌≡◌, ◌≢◌, refl, Bool, true, false, not, ◌&&◌, Option, some, List, [], ◌∷◌,
  ◌++◌, Text, length, is_empty, arith, ℤ, leb_ℤ, eq_ℤ, ◌==◌, if◌then◌else◌,
}
use log4cplus.Common.Int.{eq_ℤ_iff}
use log4cplus.Common.Map.{find}
use log4cplus.Hierarchy.Inv.{Inv}
use log4cplus.Hierarchy.{Hierarchy, LoggerImpl, not_set_log_level}
use log4cplus.Hierarchy.Names.{prefixes}
use log4cplus.Logger.Chain.{ancestry, existing, IsChain, parent-IsChain, length-ancestry}
use log4cplus.Logger.{
  returns, chained_loop, get_chained_log_level, is_enabled_for, call_appenders_loop, call_appenders,
  warn_once, log,
}

-- The first level along the list that is set.
unfoldable pub first_level : (ℕ → LoggerImpl) → List ℕ → ℤ
first_level heap [] = not_set_log_level
first_level heap (x ∷ xs) =
    if eq_ℤ (heap x).ll not_set_log_level then first_level heap xs else (heap x).ll

-- The appenders along the list, up to and with the first logger that is not additive.
unfoldable pub reached : (ℕ → LoggerImpl) → List ℕ → List ℕ
reached heap [] = []
reached heap (x ∷ xs) = (heap x).appenders ++ (if (heap x).additive then reached heap xs else [])

-- The root, at address 0, ends the list.
ends_at_root : List ℕ → Bool
ends_at_root [] = false
ends_at_root (x ∷ []) = x == 0
ends_at_root (x ∷ y ∷ xs) = ends_at_root (y ∷ xs)

ends_at_root_append : (xs : List ℕ) → ends_at_root (xs ++ 0 ∷ []) ≡ true
unfolding ends_at_root
ends_at_root_append [] = refl
ends_at_root_append (x ∷ []) = refl
ends_at_root_append (x ∷ y ∷ xs) = ends_at_root_append (y ∷ xs)

chained_loop_lem :
    (heap : ℕ → LoggerImpl) (fuel : ℕ) (c : Option ℕ) (xs : List ℕ)
    → IsChain heap c xs
    → length xs < fuel
    → ends_at_root xs ≡ true
    → (heap 0).ll ≢ not_set_log_level
    → chained_loop fuel heap c ≡ returns (first_level heap xs)
unfolding chained_loop first_level ends_at_root
chained_loop_lem heap zero c xs chain lt end set = absurd (omega arith)
chained_loop_lem heap (suc fuel) c [] chain lt end set = cc
chained_loop_lem heap (suc fuel) c (x ∷ []) (e, chain) lt end set =
    ground (arith, eq_ℤ_iff (heap x).ll not_set_log_level)
chained_loop_lem heap (suc fuel) c (x ∷ y ∷ xs) (e, chain) lt end set =
    let rest = chained_loop_lem heap fuel (heap x).parent (y ∷ xs) chain (omega arith) end set in
    ground (arith, rest)

first_level_set :
    (heap : ℕ → LoggerImpl) (xs : List ℕ)
    → ends_at_root xs ≡ true
    → (heap 0).ll ≢ not_set_log_level
    → first_level heap xs ≢ not_set_log_level
unfolding first_level ends_at_root
first_level_set heap [] end set = cc
first_level_set heap (x ∷ []) end set = ground (arith, eq_ℤ_iff (heap x).ll not_set_log_level)
first_level_set heap (x ∷ y ∷ xs) end set =
    ground (arith, eq_ℤ_iff (heap x).ll not_set_log_level, first_level_set heap (y ∷ xs) end set)

call_appenders_loop_lem :
    (heap : ℕ → LoggerImpl) (fuel : ℕ) (c : Option ℕ) (xs : List ℕ)
    → IsChain heap c xs
    → length xs < fuel
    → call_appenders_loop fuel heap c ≡ some (reached heap xs)
unfolding call_appenders_loop reached
call_appenders_loop_lem heap zero c xs chain lt = absurd (omega arith)
call_appenders_loop_lem heap (suc fuel) c [] chain lt = rw chain
call_appenders_loop_lem heap (suc fuel) c (x ∷ xs) (e, chain) lt =
    let rest = call_appenders_loop_lem heap fuel (heap x).parent xs chain (omega arith) in
    rw e (ground (arith, rest, append-nil (heap x).appenders))

module _ (h : Hierarchy) (n : Text) (a fuel : ℕ) (v : Inv h)
    (at_name : find n h.logger_ptrs ≡ some a) (enough : length n + 1 < fuel) where
  path : List ℕ
  path = a ∷ ancestry h.logger_ptrs n

  path-ends : ends_at_root path ≡ true
  unfolding path
  path-ends = ends_at_root_append (a ∷ existing h.logger_ptrs (prefixes n))

  path-short : length path < fuel
  unfolding path
  path-short = omega (arith, length-ancestry h n a v at_name)

  -- In a tree that satisfies the invariant and has a level set at the root, the effective level of
  -- the logger at a name is the first level that is set among the logger itself, its existing
  -- ancestors by name from the closest to the farthest, and the root; it is a level that is set.
  -- Fuel above the length of the name plus one is enough.
  pub effective_level :
      (h.heap 0).ll ≢ not_set_log_level
      → (get_chained_log_level fuel a h
          ≡ returns (first_level h.heap (a ∷ ancestry h.logger_ptrs n)))
        × (first_level h.heap (a ∷ ancestry h.logger_ptrs n) ≢ not_set_log_level)
  unfolding get_chained_log_level path
  effective_level set = (
    ground (
      arith,
      v.address n a at_name,
      chained_loop_lem h.heap fuel (some a) path (parent-IsChain h n a v at_name) path-short
          path-ends set,
    ),
    first_level_set h.heap path path-ends set,
  )

  -- In a tree that satisfies the invariant callAppenders gives the event to the appenders of the
  -- logger at a name and of its existing ancestors, in that order, and goes on past a logger only
  -- where it is additive; if there is no such appender and no warning was given before, the
  -- warning is given. Fuel above the length of the name plus one is enough.
  pub delivered :
      call_appenders fuel a h
      ≡ returns (
        reached h.heap (a ∷ ancestry h.logger_ptrs n),
        warn_once (is_empty (reached h.heap (a ∷ ancestry h.logger_ptrs n))) h,
      )
  unfolding call_appenders path
  delivered = rw (
    call_appenders_loop_lem h.heap fuel (some a) path (parent-IsChain h n a v at_name) path-short,
    call_appenders,
  )

  -- In a tree that satisfies the invariant and has a level set at the root, log delivers the event
  -- exactly when the level is above the level disabled for the hierarchy and at least the
  -- effective level of the logger, and otherwise changes nothing. Fuel above the length of the
  -- name plus one is enough.
  pub log_lem :
      (loglevel : ℤ)
      → (h.heap 0).ll ≢ not_set_log_level
      → log fuel loglevel a h ≡ (
          if not (leb_ℤ loglevel h.disable_value)
            && leb_ℤ (first_level h.heap (a ∷ ancestry h.logger_ptrs n)) loglevel
          then call_appenders fuel a h
          else returns ([], h))
  unfolding log is_enabled_for
  log_lem loglevel set = ground (arith, (effective_level set).0)
