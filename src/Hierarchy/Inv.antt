-- ===== src/Hierarchy/Inv.antt =====
-- The invariant of the logger tree: the parent of each logger is the closest existing ancestor by
-- name, and each logger waits at every closer name at which there is no logger yet.
use log4cplus.Common.{
  ℕ, ◌-◌, ◌<◌, ◌≡◌, Bool, true, false, not, none, some, List, [], ◌∷◌, Text, codes, length,
  Option-cases, Bool-cases, inl, inr, arith,
}
use log4cplus.Common.Map.{find}
use log4cplus.Hierarchy.Names.{starts_with, prefixes}
use log4cplus.Hierarchy.Prefixes.{has, not-starts_with_short}
use log4cplus.Hierarchy.Closest.{
  closest, pending, nearest, closest_at_root, closest_at_nearest, nearest_far, pending_of_none,
  nearest_near,
}
use log4cplus.Hierarchy.Parents.{member}
use log4cplus.Hierarchy.{Hierarchy}

pub record Inv (h : Hierarchy) : Type 0 where
  pub root_name : (h.heap 0).name ≡ codes "root"
  pub root_parent : (h.heap 0).parent ≡ none
  pub some_room : 0 < h.next
  pub no_empty : find [] h.logger_ptrs ≡ none
  pub address : (n : Text) (a : ℕ) → find n h.logger_ptrs ≡ some a → (0 < a) × (a < h.next)
  pub named : (n : Text) (a : ℕ) → find n h.logger_ptrs ≡ some a → (h.heap a).name ≡ n
  pub parented :
      (n : Text) (a : ℕ)
      → find n h.logger_ptrs ≡ some a
      → (h.heap a).parent ≡ some (closest h.logger_ptrs (prefixes n))
  pub waits :
      (n : Text) (a : ℕ) (p : Text)
      → find n h.logger_ptrs ≡ some a
      → pending h.logger_ptrs p (prefixes n) ≡ true
      → member a p h ≡ true
  pub known :
      (a : ℕ) (p : Text)
      → member a p h ≡ true
      → (find (h.heap a).name h.logger_ptrs ≡ some a) × (has p (prefixes (h.heap a).name) ≡ true)

-- The names that a prefix test takes for names above the root logger's, "root".
unfoldable pub root_clash : Text → Bool
root_clash name = starts_with (codes "root") name

-- Of the closest logger above `n`, the code's prefix test says whether it stands below `name`.
pub closest_is_lower :
    (h : Hierarchy) (name n : Text)
    → Inv h
    → find name h.logger_ptrs ≡ none
    → root_clash name ≡ false
    → has name (prefixes n) ≡ true
    → starts_with (h.heap (closest h.logger_ptrs (prefixes n))).name name
      ≡ not (pending h.logger_ptrs name (prefixes n))
unfolding root_clash prefixes has
closest_is_lower h name [] v fresh clash below = cc
closest_is_lower h name (c ∷ n) v fresh clash below =
    let m = h.logger_ptrs in
    let ps = prefixes (c ∷ n) in
    let lt : length (c ∷ n) - 1 < length (c ∷ n) = omega arith in
    elim (Option-cases (nearest m ps)) [
      | inl e ↦
          ground (arith, closest_at_root m ps e, pending_of_none m name ps e, v.root_name, clash)
      | inr (q, e) ↦ elim (Bool-cases (pending m name ps)) [
        | inl waiting ↦ rw waiting (
            ground (
              arith,
              v.named q (closest m ps) (closest_at_nearest m q ps e).0,
              nearest_far m name q (c ∷ n) (length (c ∷ n) - 1) lt waiting e,
              not-starts_with_short q name,
            ))
        | inr not_waiting ↦ rw not_waiting (
            ground (
              arith,
              v.named q (closest m ps) (closest_at_nearest m q ps e).0,
              nearest_near m name q (c ∷ n) (length (c ∷ n) - 1) lt fresh below not_waiting e,
            ))
      ]
    ]

pub closest-lt-next : (h : Hierarchy) (ps : List Text) → Inv h → closest h.logger_ptrs ps < h.next
closest-lt-next h ps v = elim (Option-cases (nearest h.logger_ptrs ps)) [
  | inl e ↦ ground (arith, closest_at_root h.logger_ptrs ps e, v.some_room)
  | inr (q, e) ↦
      ground
        (arith, v.address q (closest h.logger_ptrs ps) (closest_at_nearest h.logger_ptrs q ps e).0)
]
