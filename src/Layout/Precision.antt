-- ===== src/Layout/Precision.antt =====
-- The precision of logger names.
use mathlib.Core.List.{append-nil, append_assoc}
use log4cplus.Common.{
  ℕ, zero, suc, ◌+◌, ◌-◌, ◌^◌, ◌<◌, ◌≤◌, ◌≡◌, refl, sym, ap, ◌∙◌, true, false, ◌&&◌, Option, none,
  some, List, [], ◌∷◌, ◌++◌, Text, is_empty, length, length-append, take, drop, All, pos, leb, ◌==◌,
  if◌then◌else◌, arith,
}
use log4cplus.Layout.Converter.{before, rfind, logger_loop, convert_logger}
use log4cplus.Property.Cuts.{Lacks}

-- The components of a logger name, innermost first, joined by dots.
unfoldable pub dotted : List Text → Text
dotted [] = []
dotted (w ∷ []) = w
dotted (w ∷ v ∷ vs) = dotted (v ∷ vs) ++ (b'.' ∷ w)

-- Components are not empty and have no dots.
abbrev pub IsComponents : List Text → Type 0
IsComponents ws = All (λ w. (is_empty w ≡ false) × Lacks b'.' w) ws

rfind-append :
    (c p i : ℕ) (s t : Text) (found : Option ℕ)
    → rfind c p i (s ++ t) found ≡ rfind c p (i + length s) t (rfind c p i s found)
unfolding rfind
rfind-append c p i [] t found = ap (λ j. rfind c p j t found) (omega arith)
rfind-append c p i (x ∷ s) t found =
    rfind-append c p (suc i) s t (if leb i p && x == c then some i else found)
    ∙ ap (λ j. rfind c p j t (rfind c p i (x ∷ s) found)) (omega arith)

rfind-Lacks : (c p i : ℕ) (s : Text) (found : Option ℕ) → Lacks c s → rfind c p i s found ≡ found
unfolding rfind
rfind-Lacks c p i [] found l = refl
rfind-Lacks c p i (x ∷ s) found (h, l) =
    rfind-Lacks c p (suc i) s (if leb i p && x == c then some i else found) l ∙ ground (arith, h)

rfind-beyond : (c p i : ℕ) (s : Text) (found : Option ℕ) → p < i → rfind c p i s found ≡ found
unfolding rfind
rfind-beyond c p i [] found h = refl
rfind-beyond c p i (x ∷ s) found h =
    rfind-beyond c p (suc i) s (if leb i p && x == c then some i else found) (omega (arith, h))
    ∙ ground (arith, h)

-- The last dot of a name, from a position within its last component on.
rfind-one : (w t : Text) (p : ℕ) → Lacks b'.' w → p < length w → rfind b'.' p 0 (w ++ t) none ≡ none
rfind-one w t p l h =
    rfind-append b'.' p 0 w t none
    ∙ rfind-beyond b'.' p (0 + length w) t (rfind b'.' p 0 w none) (omega (arith, h))
    ∙ rfind-Lacks b'.' p 0 w none l

rfind-dot :
    (i : ℕ) (w : Text) (p : ℕ) (found : Option ℕ)
    → Lacks b'.' w
    → i ≤ p
    → rfind b'.' p i (b'.' ∷ w) found ≡ some i
unfolding rfind
rfind-dot i w p found l h =
    rfind-Lacks b'.' p (suc i) w (if leb i p && true then some i else found) l ∙ ground (arith, h)

rfind-last :
    (a w t : Text) (p : ℕ)
    → Lacks b'.' w
    → length a ≤ p
    → p < length (a ++ (b'.' ∷ w))
    → rfind b'.' p 0 ((a ++ (b'.' ∷ w)) ++ t) none ≡ some (length a)
rfind-last a w t p l g h =
    rfind-append b'.' p 0 (a ++ (b'.' ∷ w)) t none
    ∙ rfind-beyond b'.' p (0 + length (a ++ (b'.' ∷ w))) t (rfind b'.' p 0 (a ++ (b'.' ∷ w)) none)
        (omega (arith, h))
    ∙ rfind-append b'.' p 0 a (b'.' ∷ w) none
    ∙ rfind-dot (0 + length a) w p (rfind b'.' p 0 a none) l (omega (arith, g))
    ∙ ap some (omega arith)

-- The dot in front of the last component is not behind the position.
abbrev Reaches : ℕ → List Text → Type 0
unfolding dotted
Reaches p [] = Unit
Reaches p (v ∷ vs) = length (dotted (v ∷ vs)) ≤ p

take-nil : (n : ℕ) → take {A = Text} n [] ≡ []
take-nil zero = refl
take-nil (suc n) = refl

drop-dot : (a w t : Text) (x : ℕ) → drop (length a + 1) ((a ++ (x ∷ w)) ++ t) ≡ w ++ t
drop-dot [] w t x = refl
drop-dot (c ∷ a) w t x =
    let one : suc (length a) + 1 ≡ suc (length a + 1) = omega arith in
    ap (λ k. drop k (c ∷ ((a ++ (x ∷ w)) ++ t))) one ∙ drop-dot a w t x

before_pred : (n : ℕ) → 1 ≤ n → n < 2 ^ 63 → before n ≡ n - 1
before_pred n h g = omega (arith, h, g)

length-not_empty : (w : Text) → is_empty w ≡ false → 1 ≤ length w
length-not_empty [] e = cc
length-not_empty (c ∷ w) e = omega arith

dotted_pos : (w : Text) (ws : List Text) → is_empty w ≡ false → 1 ≤ length (dotted (w ∷ ws))
unfolding dotted
dotted_pos w [] e = length-not_empty w e
dotted_pos w (v ∷ vs) e = omega (arith, length-append (dotted (v ∷ vs)) (b'.' ∷ w))

Reaches-pred :
    (w : Text) (ws : List Text) → is_empty w ≡ false → Reaches (length (dotted (w ∷ ws)) - 2) ws
unfolding dotted
Reaches-pred w [] e = tt
Reaches-pred w (v ∷ vs) e =
    omega (arith, length-append (dotted (v ∷ vs)) (b'.' ∷ w), length-not_empty w e)

Reaches-le : (p q : ℕ) (ws : List Text) → p ≤ q → Reaches p ws → Reaches q ws
unfolding dotted
Reaches-le p q [] h r = tt
Reaches-le p q (v ∷ vs) h r = omega (arith, h, r)

logger_loop-none :
    (name : Text) (n end : ℕ)
    → rfind b'.' (before end) 0 name none ≡ none
    → logger_loop name (suc n) end ≡ name
unfolding logger_loop
logger_loop-none name n end e = rw (e, logger_loop) refl

logger_loop-some :
    (name : Text) (n end end' : ℕ)
    → rfind b'.' (before end) 0 name none ≡ some end'
    → logger_loop name (suc n) end ≡ logger_loop name n end'
unfolding logger_loop
logger_loop-some name n end end' e = rw (e, logger_loop) refl

-- The loop from a position in the last component of a part of the name, t being behind that part.
logger_loop-dotted :
    (n end p : ℕ) (w : Text) (ws : List Text) (t : Text)
    → before end ≡ p
    → p < length (dotted (w ∷ ws))
    → Reaches p ws
    → IsComponents (w ∷ ws)
    → length (dotted (w ∷ ws)) < 2 ^ 63
    → logger_loop (dotted (w ∷ ws) ++ t) (suc n) end ≡ dotted (take (suc n) (w ∷ ws)) ++ t
unfolding dotted
logger_loop-dotted n end p w [] t e h r ((m, l), ls) b =
    logger_loop-none (w ++ t) n end (ap (λ q. rfind b'.' q 0 (w ++ t) none) e ∙ rfind-one w t p l h)
    ∙ ap (λ vs. dotted (w ∷ vs) ++ t) (sym (take-nil n))
logger_loop-dotted zero end p w (v ∷ vs) t e h r ((m, l), ls) b =
    let a = dotted (v ∷ vs) in
    logger_loop-some ((a ++ (b'.' ∷ w)) ++ t) zero end (length a)
      (ap (λ q. rfind b'.' q 0 ((a ++ (b'.' ∷ w)) ++ t) none) e ∙ rfind-last a w t p l r h)
    ∙ unfold logger_loop in drop-dot a w t b'.'
logger_loop-dotted (suc n) end p w (v ∷ vs) t e h r ((m, l), ((m', l'), ls)) b =
    let a = dotted (v ∷ vs) in
    let shorter : length a < 2 ^ 63 = omega (arith, b, length-append a (b'.' ∷ w)) in
    let some_a = dotted_pos v vs m' in
    logger_loop-some ((a ++ (b'.' ∷ w)) ++ t) (suc n) end (length a)
      (ap (λ q. rfind b'.' q 0 ((a ++ (b'.' ∷ w)) ++ t) none) e ∙ rfind-last a w t p l r h)
    ∙ ap (λ s. logger_loop s (suc n) (length a)) (append_assoc a (b'.' ∷ w) t)
    ∙ logger_loop-dotted n (length a) (length a - 1) v vs (b'.' ∷ (w ++ t))
        (before_pred (length a) some_a shorter) (omega (arith, some_a))
        (Reaches-le (length a - 2) (length a - 1) vs (omega arith) (Reaches-pred v vs m'))
        ((m', l'), ls) shorter
    ∙ sym (append_assoc (dotted (v ∷ take n vs)) (b'.' ∷ w) t)

-- The converter for logger names with a precision of n + 1 writes the last n + 1 components of the
-- name, or all of them if there are fewer. Components are not empty, and the name is shorter than
-- 2 ^ 63.
pub convert_logger-dotted :
    (n : ℕ) (w : Text) (ws : List Text)
    → IsComponents (w ∷ ws)
    → length (dotted (w ∷ ws)) < 2 ^ 63
    → convert_logger (pos (suc n)) (dotted (w ∷ ws)) ≡ dotted (take (suc n) (w ∷ ws))
unfolding convert_logger dotted
convert_logger-dotted n w [] ((m, l), ls) h =
    logger_loop-none w n (before (length w))
      (rfind-Lacks b'.' (before (before (length w))) 0 w none l)
    ∙ ap (λ vs. dotted (w ∷ vs)) (sym (take-nil n))
convert_logger-dotted n w (v ∷ vs) ls h =
    let name = dotted (w ∷ v ∷ vs) in
    let long : 2 ≤ length name =
      omega (arith, length-append (dotted (v ∷ vs)) (b'.' ∷ w), length-not_empty w ls.0.0) in
    let end = before_pred (length name) (omega (arith, long)) h in
    sym (ap (λ s. logger_loop s (suc n) (before (length name))) (append-nil name))
    ∙ logger_loop-dotted n (before (length name)) (length name - 2) w (v ∷ vs) []
        (ap before end
          ∙ before_pred (length name - 1) (omega (arith, long)) (omega (arith, h))
          ∙ omega arith)
        (omega (arith, long)) (Reaches-pred w (v ∷ vs) ls.0.0) ls h
    ∙ append-nil (dotted (take (suc n) (w ∷ v ∷ vs)))
