-- ===== src/Hierarchy/Prefixes.antt =====
-- Laws of the parent names: they are proper prefixes, the longest first.
use log4cplus.Common.{
  ℕ, zero, suc, ◌≤◌, ◌<◌, ◌≡◌, Bool, true, false, ◌||◌, List, [], ◌∷◌, Text, text_eq, text_eq_iff,
  length, take, length-take, take-take, arith,
}
use log4cplus.Hierarchy.Names.{starts_with, prefixes_from}

unfoldable pub has : Text → List Text → Bool
has p [] = false
has p (q ∷ qs) = text_eq q p || has p qs

pub length-take_le : (n : Text) (k : ℕ) → k ≤ length n → length (take k n) ≡ k
length-take_le n k h = omega (arith, length-take k n)

-- A parent name is no longer than the position where the search began, and is a prefix.
pub has-prefixes_from :
    (n p : Text) (k : ℕ)
    → k < length n
    → has p (prefixes_from n k) ≡ true
    → (length p ≤ k) × (take (length p) n ≡ p)
unfolding has prefixes_from
has-prefixes_from n p zero lt h = cc
has-prefixes_from n p (suc k) lt h =
    ground
      (arith, has-prefixes_from n p k, text_eq_iff (take (suc k) n) p, length-take_le n (suc k))

-- The shorter of two parent names of one name starts the longer.
pub starts_with-take :
    (n p : Text) (k : ℕ)
    → k ≤ length n
    → length p < k
    → take (length p) n ≡ p
    → starts_with (take k n) p ≡ true
unfolding starts_with
starts_with-take n p k le lt e = ground (
  arith,
  length-take_le n k,
  take-take (length p) k n,
  text_eq_iff (take (length p) (take k n)) p,
)

pub not-starts_with_short : (s p : Text) → length s ≤ length p → starts_with s p ≡ false
unfolding starts_with
not-starts_with_short s p h = ground arith
