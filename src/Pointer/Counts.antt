-- ===== src/Pointer/Counts.antt =====
-- The counters count the pointers, and an object goes with its last pointer.
use log4cplus.Common.{
  ℕ, zero, suc, ◌+◌, ◌^◌, ◌≤◌, ◌<◌, ◌≡◌, refl, ap, ◌∙◌, ◌&&◌, ◌||◌, Option, none, some, List, [],
  ◌∷◌, length, get_elem?, ltb, ◌==◌, if◌then◌else◌, Option-cases, inl, inr, arith,
}
use log4cplus.Pointer.{
  Heap, set, add_reference, remove_reference, addref, release, Act, construct, copy, move, assign,
  copy_assign, move_assign, destruct, construct_from, assign_to, act,
}

abbrev pub points_to : ℕ → Option ℕ → ℕ
points_to o none = 0
points_to o (some p) = if p == o then 1 else 0

-- How many variables point to an object.
unfoldable pub references : ℕ → List (Option ℕ) → ℕ
references o [] = 0
references o (v ∷ vs) = points_to o v + references o vs

references-set :
    (o i : ℕ) (vs : List (Option ℕ)) (old new : Option ℕ)
    → get_elem? vs i ≡ some old
    → references o (set vs i new) + points_to o old ≡ references o vs + points_to o new
unfolding references
references-set o i [] old new e = cc
references-set o zero (v ∷ vs) old new e = let same : v ≡ old = cc in rw same (omega arith)
references-set o (suc i) (v ∷ vs) old new e = omega (arith, references-set o i vs old new e)

length-set : (i : ℕ) (vs : List (Option ℕ)) (new : Option ℕ) → length (set vs i new) ≡ length vs
length-set i [] new = refl
length-set zero (v ∷ vs) new = refl
length-set (suc i) (v ∷ vs) new = ap suc (length-set i vs new)

points_to-le : (o : ℕ) (v : Option ℕ) → points_to o v ≤ 1
points_to-le o none = omega arith
points_to-le o (some p) = ground arith

references-le : (o : ℕ) (vs : List (Option ℕ)) → references o vs ≤ length vs
unfolding references
references-le o [] = omega arith
references-le o (v ∷ vs) = omega (arith, references-le o vs, points_to-le o v)

count-addref :
    (o : ℕ) (v : Option ℕ) (h : Heap)
    → h.count o + 1 < 2 ^ 32
    → ((addref v h).count o ≡ h.count o + points_to o v)
      × ((addref v h).destroyed o ≡ h.destroyed o)
      × ((addref v h).pointers ≡ h.pointers)
unfolding addref add_reference
count-addref o none h small = (omega arith, refl, refl)
count-addref o (some p) h small = (ground (arith, small), refl, refl)

count-release :
    (o : ℕ) (v : Option ℕ) (h : Heap)
    → h.count o < 2 ^ 32
    → points_to o v ≤ h.count o
    → ((release v h).count o + points_to o v ≡ h.count o)
      × ((release v h).destroyed o ≡ (h.destroyed o || (ltb 0 (points_to o v) && h.count o == 1)))
      × ((release v h).pointers ≡ h.pointers)
unfolding release remove_reference
count-release o none h small pointed = (omega arith, ground arith, refl)
count-release o (some p) h small pointed =
    (ground (arith, small, pointed), ground (arith, small, pointed), refl)

abbrev pub IsCounted : Heap → Type 0
IsCounted h = (o : ℕ) → h.count o ≡ references o h.pointers

-- The counters still count, and the objects that have lost their last pointer are destroyed.
abbrev pub Keeps : Heap → Heap → Type 0
Keeps h h' =
    (o : ℕ)
    → (h'.count o ≡ references o h'.pointers)
      × (h'.destroyed o
          ≡ (h.destroyed o || (ltb 0 (references o h.pointers) && references o h'.pointers == 0)))

unchanged :
    (h : Heap) (vs : List (Option ℕ))
    → IsCounted h
    → ((o : ℕ) → references o vs ≡ references o h.pointers)
    → Keeps h (record h { pointers = vs })
unchanged h vs i same = λ o. (omega (arith, i o, same o), ground (arith, same o))

construct_from-Keeps :
    (pointee : Option ℕ) (h : Heap)
    → IsCounted h
    → length h.pointers + 1 < 2 ^ 32
    → Keeps h (construct_from pointee h)
unfolding construct_from references
construct_from-Keeps pointee h i small = λ o.
    let start = record h { pointers = pointee ∷ h.pointers } in
    let few = references-le o h.pointers in
    let (counted, kept, same) = count-addref o pointee start (omega (arith, few, small, i o)) in
    (rw same (omega (arith, counted, i o)), rw (same, kept) (ground (arith, few)))

assign_to-Keeps :
    (k : ℕ) (pointee old : Option ℕ) (h : Heap)
    → get_elem? h.pointers k ≡ some old
    → IsCounted h
    → length h.pointers + 1 < 2 ^ 32
    → Keeps h (assign_to k pointee old h)
unfolding assign_to
assign_to-Keeps k pointee old h e i small = λ o.
    let few = references-le o h.pointers in
    let (counted, kept, same) = count-addref o pointee h (omega (arith, few, small, i o)) in
    let between = record (addref pointee h) {
      pointers = set (addref pointee h).pointers k pointee;
    } in
    let moved = references-set o k h.pointers old pointee e in
    let held = references-set o k h.pointers old none e in
    let one = points_to-le o pointee in
    let (left, gone, same') =
      count-release o old between (omega (arith, counted, one, few, small, i o))
        (omega (arith, counted, moved, i o)) in
    let final : (assign_to k pointee old h).pointers ≡ set h.pointers k pointee =
      same' ∙ ap (λ vs. set vs k pointee) same in
    let after = ap (references o) final in
    (
      omega (arith, left, counted, moved, i o, after),
      gone
          ∙ ground (
            arith,
            kept,
            counted,
            moved,
            held,
            i o,
            after,
            points_to-le o pointee,
            points_to-le o old,
          ),
    )

destruct-Keeps :
    (k : ℕ) (old : Option ℕ) (h : Heap)
    → get_elem? h.pointers k ≡ some old
    → IsCounted h
    → length h.pointers + 1 < 2 ^ 32
    → Keeps h (release old (record h { pointers = set h.pointers k none }))
destruct-Keeps k old h e i small = λ o.
    let few = references-le o h.pointers in
    let start = record h { pointers = set h.pointers k none } in
    let moved = references-set o k h.pointers old none e in
    let (left, gone, same) =
      count-release o old start (omega (arith, few, small, i o)) (omega (arith, moved, i o)) in
    let after = ap (references o) same in
    (
      omega (arith, left, moved, i o, after),
      gone ∙ ground (arith, moved, i o, after, points_to-le o old),
    )

get_elem?-set :
    (j k : ℕ) (vs : List (Option ℕ)) (x old : Option ℕ)
    → get_elem? vs j ≡ some old
    → get_elem? (set vs k x) j ≡ (if k == j then some x else some old)
get_elem?-set j k [] x old e = cc
get_elem?-set zero zero (v ∷ vs) x old e = refl
get_elem?-set zero (suc k) (v ∷ vs) x old e = e ∙ ground arith
get_elem?-set (suc j) zero (v ∷ vs) x old e = e ∙ ground arith
get_elem?-set (suc j) (suc k) (v ∷ vs) x old e = get_elem?-set j k vs x old e ∙ ground arith

references-swap :
    (o k j : ℕ) (vs : List (Option ℕ)) (a b : Option ℕ)
    → get_elem? vs k ≡ some a
    → get_elem? vs j ≡ some b
    → references o (set (set vs k b) j a) ≡ references o vs
references-swap o k j vs a b e f =
    let first = references-set o k vs a b e in
    let there : get_elem? (set vs k b) j ≡ some b = get_elem?-set j k vs b b f ∙ ground arith in
    let second = references-set o j (set vs k b) b a there in omega (arith, first, second)

idle : (h : Heap) → IsCounted h → Keeps h h
idle h i = unchanged h h.pointers i (λ o. refl)

-- Where the counters count the pointers and there are fewer than 2 ^ 32 pointers, every operation on
-- pointers, on one variable twice included, leaves counters that count them, and destroys exactly
-- the objects whose last pointer it has taken away.
pub act-Keeps :
    (a : Act) (h : Heap) → IsCounted h → length h.pointers + 1 < 2 ^ 32 → Keeps h (act a h)
unfolding act
act-Keeps (construct pointee) h i small = construct_from-Keeps pointee h i small
act-Keeps (copy j) h i small = elim (Option-cases (get_elem? h.pointers j)) [
  | inl e ↦ rw (e, act) (idle h i)
  | inr (pointee, e) ↦ rw (e, act) (construct_from-Keeps pointee h i small)
]
act-Keeps (move j) h i small = elim (Option-cases (get_elem? h.pointers j)) [
  | inl e ↦ rw (e, act) (idle h i)
  | inr (pointee, e) ↦
      rw (e, act)
        (unchanged h (pointee ∷ set h.pointers j none) i
          (λ o. unfold references in omega (arith, references-set o j h.pointers pointee none e)))
]
act-Keeps (assign k pointee) h i small = elim (Option-cases (get_elem? h.pointers k)) [
  | inl e ↦ rw (e, act) (idle h i)
  | inr (old, e) ↦ rw (e, act) (assign_to-Keeps k pointee old h e i small)
]
act-Keeps (copy_assign k j) h i small = elim (Option-cases (get_elem? h.pointers k)) [
  | inl e ↦ rw (e, act) (idle h i)
  | inr (old, e) ↦ elim (Option-cases (get_elem? h.pointers j)) [
    | inl f ↦ rw (e, f, act) (idle h i)
    | inr (pointee, f) ↦ rw (e, f, act) (assign_to-Keeps k pointee old h e i small)
  ]
]
act-Keeps (move_assign k j) h i small = elim (Option-cases (get_elem? h.pointers k)) [
  | inl e ↦ rw (e, act) (idle h i)
  | inr (old, e) ↦ elim (Option-cases (get_elem? h.pointers j)) [
    | inl f ↦ rw (e, f, act) (idle h i)
    | inr (pointee, f) ↦
        rw (e, f, act)
          (unchanged h (set (set h.pointers k pointee) j old) i
            (λ o. references-swap o k j h.pointers old pointee e f))
  ]
]
act-Keeps (destruct k) h i small = elim (Option-cases (get_elem? h.pointers k)) [
  | inl e ↦ rw (e, act) (idle h i)
  | inr (old, e) ↦ rw (e, act) (destruct-Keeps k old h e i small)
]
