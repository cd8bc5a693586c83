-- ===== src/Layout/Depth.antt =====
-- The depth of nested contexts that a pattern writes.
use mathlib.Core.List.{append-nil, append_assoc}
use log4cplus.Common.{
  ℕ, zero, suc, ◌+◌, ◌≤◌, ◌≡◌, refl, sym, ap, ◌∙◌, none, some, List, [], ◌∷◌, ◌++◌, Text, codes,
  length, length-append, take, take-length_append, All, pos, arith,
}
use log4cplus.Layout.Converter.{find_from, ndc_loop, convert_ndc}
use log4cplus.Property.Cuts.{Lacks}
use log4cplus.StringHelper.{join}
use log4cplus.StringHelper.Tokens.{separated, join-separated}

abbrev pub IsMessages : List Text → Type 0
IsMessages ws = All (Lacks b' ') ws

find_from-before :
    (c p i : ℕ) (s t : Text)
    → i + length s ≤ p
    → find_from c p i (s ++ t) ≡ find_from c p (i + length s) t
unfolding find_from
find_from-before c p i [] t h =
    let same : i ≡ i + 0 = omega arith in ap (λ j. find_from c p j t) same
find_from-before c p i (x ∷ s) t h =
    let same : suc i + length s ≡ i + suc (length s) = omega arith in
    ground (
      arith,
      h,
      find_from-before c p (suc i) s t (omega (arith, h)),
      ap (λ j. find_from c p j t) same,
    )

find_from-none : (c p i : ℕ) (w : Text) → Lacks c w → find_from c p i w ≡ none
unfolding find_from
find_from-none c p i [] l = refl
find_from-none c p i (x ∷ w) (h, l) = ground (arith, h, find_from-none c p (suc i) w l)

find_from-hit :
    (c p i : ℕ) (w t : Text)
    → Lacks c w
    → p ≤ i
    → find_from c p i (w ++ (c ∷ t)) ≡ some (i + length w)
unfolding find_from
find_from-hit c p i [] t l h = let same : i ≡ i + 0 = omega arith in ground (arith, h, same)
find_from-hit c p i (x ∷ w) t (g, l) h =
    let same : suc i + length w ≡ i + suc (length w) = omega arith in
    ground (arith, h, g, find_from-hit c p (suc i) w t l (omega (arith, h)), same)

join-cons :
    (sep w v : Text) (vs : List Text) → join sep (w ∷ v ∷ vs) ≡ w ++ (sep ++ join sep (v ∷ vs))
unfolding separated
join-cons sep w v vs =
    join-separated sep (v ∷ vs) w ∙ ap (λ s. w ++ (sep ++ s)) (sym (join-separated sep vs v))

join-one : (sep w : Text) → join sep (w ∷ []) ≡ w
unfolding separated
join-one sep w = join-separated sep [] w ∙ append-nil w

take-nil : (n : ℕ) → take {A = Text} n [] ≡ []
take-nil zero = refl
take-nil (suc n) = refl

-- A space behind the part of the text that is done and a word.
found_space :
    (pre w rest : Text)
    → Lacks b' ' w
    → find_from b' ' (length pre) 0 (pre ++ (w ++ (b' ' ∷ rest))) ≡ some (length pre + length w)
found_space pre w rest l =
    find_from-before b' ' (length pre) 0 pre (w ++ (b' ' ∷ rest)) (omega arith)
    ∙ find_from-hit b' ' (length pre) (0 + length pre) w rest l (omega arith)
    ∙ ap some (let same : 0 + length pre + length w ≡ length pre + length w = omega arith in same)

take-word : (pre w rest : Text) → take (length pre + length w) (pre ++ (w ++ rest)) ≡ pre ++ w
take-word pre w rest =
    ap (λ k. take k (pre ++ (w ++ rest))) (sym (length-append pre w))
    ∙ ap (take (length (pre ++ w))) (sym (append_assoc pre w rest))
    ∙ take-length_append (pre ++ w) rest

ndc_loop-none : (text : Text) (n : ℕ) → ndc_loop text n none ≡ text
unfolding ndc_loop
ndc_loop-none text zero = refl
ndc_loop-none text (suc n) = refl

ndc_loop-zero : (text : Text) (p : ℕ) → ndc_loop text zero (some p) ≡ take p text
unfolding ndc_loop
ndc_loop-zero text p = refl

ndc_loop-suc :
    (text : Text) (n p : ℕ)
    → ndc_loop text (suc n) (some p) ≡ ndc_loop text n (find_from b' ' (p + 1) 0 text)
unfolding ndc_loop
ndc_loop-suc text n p = refl

-- The loop behind a part of the text that is done.
ndc_loop-join :
    (n : ℕ) (pre w : Text) (ws : List Text)
    → IsMessages (w ∷ ws)
    → ndc_loop
        (pre ++ join (codes " ") (w ∷ ws))
        n
        (find_from b' ' (length pre) 0 (pre ++ join (codes " ") (w ∷ ws)))
      ≡ pre ++ join (codes " ") (take (suc n) (w ∷ ws))
ndc_loop-join n pre w [] (l, ls) =
    ap (λ s. ndc_loop (pre ++ s) n (find_from b' ' (length pre) 0 (pre ++ s)))
      (join-one (codes " ") w)
    ∙ ap (ndc_loop (pre ++ w) n) (
        find_from-before b' ' (length pre) 0 pre w (omega arith)
        ∙ find_from-none b' ' (length pre) (0 + length pre) w l)
    ∙ ndc_loop-none (pre ++ w) n
    ∙ ap (λ s. pre ++ s) (sym (join-one (codes " ") w))
    ∙ ap (λ vs. pre ++ join (codes " ") (w ∷ vs)) (sym (take-nil n))
ndc_loop-join zero pre w (v ∷ vs) (l, ls) =
    let rest = join (codes " ") (v ∷ vs) in
    let text = pre ++ (w ++ (b' ' ∷ rest)) in
    ap (λ s. ndc_loop (pre ++ s) zero (find_from b' ' (length pre) 0 (pre ++ s)))
      (join-cons (codes " ") w v vs)
    ∙ ap (ndc_loop text zero) (found_space pre w rest l)
    ∙ ndc_loop-zero text (length pre + length w)
    ∙ take-word pre w (b' ' ∷ rest)
    ∙ ap (λ s. pre ++ s) (sym (join-one (codes " ") w))
ndc_loop-join (suc n) pre w (v ∷ vs) (l, ls) =
    let rest = join (codes " ") (v ∷ vs) in
    let text = pre ++ (w ++ (b' ' ∷ rest)) in
    let pre' = pre ++ (w ++ (b' ' ∷ [])) in
    let same : pre' ++ rest ≡ text =
      append_assoc pre (w ++ (b' ' ∷ [])) rest
      ∙ ap (λ s. pre ++ s) (append_assoc w (b' ' ∷ []) rest) in
    let next : length pre' ≡ length pre + length w + 1 =
      omega (arith, length-append pre (w ++ (b' ' ∷ [])), length-append w (b' ' ∷ [])) in
    ap (λ s. ndc_loop (pre ++ s) (suc n) (find_from b' ' (length pre) 0 (pre ++ s)))
      (join-cons (codes " ") w v vs)
    ∙ ap (ndc_loop text (suc n)) (found_space pre w rest l)
    ∙ ndc_loop-suc text n (length pre + length w)
    ∙ ap (λ k. ndc_loop text n (find_from b' ' k 0 text)) (sym next)
    ∙ ap (λ s. ndc_loop s n (find_from b' ' (length pre') 0 s)) (sym same)
    ∙ ndc_loop-join n pre' v vs ls
    ∙ append_assoc pre (w ++ (b' ' ∷ [])) (join (codes " ") (v ∷ take n vs))
    ∙ ap (λ s. pre ++ s)
        (append_assoc w (b' ' ∷ []) (join (codes " ") (v ∷ take n vs))
          ∙ sym (join-cons (codes " ") w v (take n vs)))

-- The converter for nested contexts with a depth of n + 1 writes the first n + 1 messages of an
-- event, or all of them if there are fewer. Messages have no spaces.
pub convert_ndc-join :
    (n : ℕ) (w : Text) (ws : List Text)
    → IsMessages (w ∷ ws)
    → convert_ndc (pos (suc n)) (join (codes " ") (w ∷ ws))
      ≡ join (codes " ") (take (suc n) (w ∷ ws))
unfolding convert_ndc
convert_ndc-join n w ws l = ndc_loop-join n [] w ws l
