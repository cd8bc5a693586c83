-- ===== src/Property/Cuts.antt =====
-- The search for a delimiter in a text.
use log4cplus.Common.{
  Bool, not, ◌&&◌, ◌==◌, ℕ, ◌<◌, ◌≡◌, ◌≢◌, refl, ap, ◌∙◌, true, false, none, some, [], ◌∷◌, ◌++◌,
  Text, text_eq, text_eq_refl, length, take, drop, take-length_append, drop-length_append,
  length-drop, All, Bool-cases, Option-cases, inl, inr, arith,
}
use log4cplus.Property.{cut_at, has_prefix}

-- The text behind a delimiter is shorter.
pub length-cut_at :
    (d : ℕ) (delim s before after : Text)
    → cut_at (d ∷ delim) s ≡ some (before, after)
    → length after < length s
unfolding cut_at
length-cut_at d delim [] before after e = cc
length-cut_at d delim (c ∷ s) before after e = elim (Bool-cases (has_prefix (d ∷ delim) (c ∷ s))) [
  | inl p ↦ ground (arith, e, p, length-drop (length delim) s)
  | inr p ↦ elim (Option-cases (cut_at (d ∷ delim) s)) [
    | inl q ↦ ground (arith, e, p, q)
    | inr ((b, a), q) ↦ ground (arith, e, p, q, length-cut_at d delim s b a q)
  ]
]

abbrev pub Lacks : ℕ → Text → Type 0
Lacks c t = All (λ x. x ≢ c) t

text_eq_ne : (x c : ℕ) (s t : Text) → x ≢ c → text_eq (x ∷ s) (c ∷ t) ≡ false
unfolding text_eq
text_eq_ne x c s t h = ground (arith, h)

cut_at_hit :
    (delim : Text) (c : ℕ) (s : Text)
    → has_prefix delim (c ∷ s) ≡ true
    → cut_at delim (c ∷ s) ≡ some ([], drop (length delim) (c ∷ s))
unfolding cut_at
cut_at_hit delim c s e = ground (arith, e)

cut_at_miss :
    (delim : Text) (c : ℕ) (s : Text)
    → has_prefix delim (c ∷ s) ≡ false
    → cut_at delim (c ∷ s)
      ≡ (elim (cut_at delim s) [ none ↦ none | some (before, after) ↦ some (c ∷ before, after) ])
unfolding cut_at
cut_at_miss delim c s e = ground (arith, e)

has_prefix-append : (delim s : Text) → has_prefix delim (delim ++ s) ≡ true
has_prefix-append delim s =
    ap (λ t. text_eq t delim) (take-length_append delim s) ∙ text_eq_refl delim

pub cut_at-Lacks :
    (c : ℕ) (delim t s : Text)
    → Lacks c t
    → cut_at (c ∷ delim) (t ++ ((c ∷ delim) ++ s)) ≡ some (t, s)
cut_at-Lacks c delim [] s l =
    cut_at_hit (c ∷ delim) c (delim ++ s) (has_prefix-append (c ∷ delim) s)
    ∙ ap (λ (r : Text). some ([], r)) (drop-length_append delim s)
cut_at-Lacks c delim (x ∷ t) s (h, l) =
    cut_at_miss (c ∷ delim) x (t ++ ((c ∷ delim) ++ s))
      (text_eq_ne x c (take (length delim) (t ++ ((c ∷ delim) ++ s))) delim h)
    ∙ rw (cut_at-Lacks c delim t s l) refl

pub cut_at-none : (c : ℕ) (delim t : Text) → Lacks c t → cut_at (c ∷ delim) t ≡ none
cut_at-none c delim [] l = unfold cut_at in refl
cut_at-none c delim (x ∷ t) (h, l) =
    cut_at_miss (c ∷ delim) x t (text_eq_ne x c (take (length delim) t) delim h)
    ∙ rw (cut_at-none c delim t l) refl

-- A test for the absence of a character.
abbrev pub lacks : ℕ → Text → Bool
lacks c [] = true
lacks c (x ∷ t) = not (x == c) && lacks c t

pub lacks-Lacks : (c : ℕ) (t : Text) → lacks c t ≡ true → Lacks c t
lacks-Lacks c [] e = tt
lacks-Lacks c (x ∷ t) e = (ground (arith, e), lacks-Lacks c t (ground (arith, e)))
