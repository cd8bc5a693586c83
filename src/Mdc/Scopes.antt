-- ===== src/Mdc/Scopes.antt =====
-- Guards of the context, nested: each scope's end restores the values of its start.
use log4cplus.Common.{
  sym, ap, Bool-cases, Option, ◌≡◌, ◌⊎◌, ◌↔◌, inl, inr, refl, ◌∙◌, none, some, List, [], ◌∷◌, Text,
  text_eq, text_eq_iff, Option-cases, arith, if◌then◌else◌,
}
use log4cplus.Common.Map.{find, find-erase, find-assign}
use log4cplus.Mdc.{Mdc, insert_or_assign, push_to_stack, push, remove, pop, get}

-- The values saved for a key; a missing stack is an empty one.
unfoldable pub saved : Text → Mdc → List Text
unfolding find
saved key m = elim (find key m.stacks_map) [ none ↦ [] | some stack ↦ stack ]

get-push :
    (k v j : Text) (m : Mdc) (after : Text → Text)
    → get j (push after k v m)
      ≡ (if text_eq k j then some (elim (get k m) [ none ↦ v | some old ↦ after v ]) else get j m)
unfolding get push insert_or_assign
get-push k v j m after = elim (Option-cases (find k m.context_map)) [
  | inl e ↦ ground (arith, e, find-assign k j v m.context_map)
  | inr (old, e) ↦ ground (arith, e, find-assign k j (after v) m.context_map)
]

saved-push :
    (k v j : Text) (m : Mdc) (after : Text → Text)
    → saved j (push after k v m) ≡ (
        if text_eq k j
        then elim (get k m) [ none ↦ saved k m | some old ↦ old ∷ saved k m ]
        else saved j m)
unfolding saved get push insert_or_assign push_to_stack
saved-push k v j m after = elim (Option-cases (find k m.context_map)) [
  | inl e ↦ ground (arith, e, text_eq_iff k j)
  | inr (old, e) ↦ elim (Option-cases (find k m.stacks_map)) [
    | inl f ↦ ground (arith, e, f, find-assign k j (old ∷ []) m.stacks_map, text_eq_iff k j)
    | inr (stack, f) ↦
        ground (arith, e, f, find-assign k j (old ∷ stack) m.stacks_map, text_eq_iff k j)
  ]
]

get-pop :
    (k j : Text) (m : Mdc) (after : Text → Text)
    → get j (pop after k m) ≡ (
        if text_eq k j
        then elim (saved k m) [
          | [] ↦ none
          | value ∷ rest ↦ some (elim (get k m) [ none ↦ value | some now ↦ after value ])
        ]
        else get j m)
unfolding saved get pop insert_or_assign remove
get-pop k j m after = elim (Option-cases (find k m.stacks_map)) [
  | inl e ↦ ground (arith, e, find-erase k j m.context_map)
  | inr ([], e) ↦ ground (arith, e, find-erase k j m.context_map)
  | inr (value ∷ rest, e) ↦ elim (Option-cases (find k m.context_map)) [
    | inl f ↦ ground (arith, e, f, find-assign k j value m.context_map)
    | inr (now, f) ↦ ground (arith, e, f, find-assign k j (after value) m.context_map)
  ]
]

saved-pop :
    (k j : Text) (m : Mdc) (after : Text → Text)
    → saved j (pop after k m)
      ≡ (if text_eq k j then elim (saved k m) [ [] ↦ [] | value ∷ rest ↦ rest ] else saved j m)
unfolding saved pop remove
saved-pop k j m after = elim (Option-cases (find k m.stacks_map)) [
  | inl e ↦ ground (arith, e, text_eq_iff k j)
  | inr ([], e) ↦ ground (arith, e, text_eq_iff k j)
  | inr (value ∷ rest, e) ↦ ground (arith, e, find-assign k j rest m.stacks_map, text_eq_iff k j)
]

-- A key without a value has no values saved. `push`, `pop` and `put` keep this; `remove` does not.
unfoldable pub IsBalanced : Mdc → Type 0
IsBalanced m = (k : Text) → get k m ≡ none → saved k m ≡ []

-- Nested uses of `MDCGuard`, one after the other.
pub data Scope : Type 0 where
  done : Scope
  guarded : Text → Text → Scope → Scope → Scope

-- `given` is the `after` of the guard's constructor, which has a variant for rvalues and one for
-- lvalues; the destructor always moves.
unfoldable pub run : (Text → Text) → (Text → Text) → Scope → Mdc → Mdc
unfolding push pop
run given after done m = m
run given after (guarded key value inner rest) m =
    run given after rest (pop after key (run given after inner (push given key value m)))

module _ (after : Text → Text) where
  abbrev pub moved_once : Option Text → Option Text
  moved_once none = none
  moved_once (some t) = some (after t)

  -- What becomes of the value of a key: it is moved once for each guard of the key that is not inside
  -- of another guard of it.
  unfoldable pub moved : Text → Scope → Option Text → Option Text
  moved j done o = o
  moved j (guarded key value inner rest) o =
      let within = moved j inner o in moved j rest (if text_eq key j then moved_once o else within)

  moved-none : (j : Text) (sc : Scope) → moved j sc none ≡ none
  unfolding moved
  moved-none j done = refl
  moved-none j (guarded k v inner rest) = ground (arith, moved-none j inner, moved-none j rest)

  moved-some : (j : Text) (sc : Scope) (t : Text) → (u : Text) × (moved j sc (some t) ≡ some u)
  unfolding moved
  moved-some j done t = (t, refl)
  moved-some j (guarded k v inner rest) t = elim (Bool-cases (text_eq k j)) [
    | inl e ↦ rw e (moved-some j rest (after t))
    | inr e ↦ let (u, f) = moved-some j inner t in rw (e, f) (moved-some j rest u)
  ]

  -- Every key has its value, moved, and the values saved that it had.
  unfoldable pub Keeps : Scope → Mdc → Mdc → Type 0
  unfolding moved
  Keeps sc m m' = (j : Text) → (get j m' ≡ moved j sc (get j m)) × (saved j m' ≡ saved j m)

module _ (given after : Text → Text) where
  push-IsBalanced : (k v : Text) (m : Mdc) → IsBalanced m → IsBalanced (push given k v m)
  unfolding IsBalanced
  push-IsBalanced k v m b j e =
      ground (arith, get-push k v j m given, saved-push k v j m given, b j, e)

  present :
      (k v : Text) (m n : Mdc) (inner : Scope)
      → Keeps after inner (push given k v m) n
      → (t : Text) × (get k n ≡ some t)
  unfolding Keeps
  present k v m n inner s =
      let t : Text = elim (get k m) [ none ↦ v | some old ↦ given v ] in
      let now : get k (push given k v m) ≡ some t =
        ground (arith, get-push k v k m given, text_eq_iff k k) in
      let (u, e) = moved-some after k inner t in (u, (s k).0 ∙ (ap (moved after k inner) now ∙ e))

  pop-Keeps :
      (k v : Text) (m n : Mdc) (inner : Scope)
      → IsBalanced m
      → Keeps after inner (push given k v m) n
      → Keeps after (guarded k v inner done) m (pop after k n)
  unfolding IsBalanced Keeps moved
  pop-Keeps k v m n inner b s j =
      let (now, f) = present k v m n inner s in
      elim (Option-cases (get k m)) [
        | inl e ↦ (
          ground (
            arith,
            e,
            f,
            b k e,
            s j,
            s k,
            get-pop k j n after,
            get-push k v j m given,
            saved-push k v k m given,
            text_eq_iff k j,
            text_eq_iff k k,
          ),
          ground (
            arith,
            e,
            b k e,
            s j,
            s k,
            saved-pop k j n after,
            saved-push k v j m given,
            saved-push k v k m given,
            text_eq_iff k j,
            text_eq_iff k k,
          ),
        )
        | inr (old, e) ↦ (
          ground (
            arith,
            e,
            f,
            s j,
            s k,
            get-pop k j n after,
            get-push k v j m given,
            saved-push k v k m given,
            text_eq_iff k j,
            text_eq_iff k k,
          ),
          ground (
            arith,
            e,
            s j,
            s k,
            saved-pop k j n after,
            saved-push k v j m given,
            saved-push k v k m given,
            text_eq_iff k j,
            text_eq_iff k k,
          ),
        )
      ]

  Keeps-IsBalanced : (sc : Scope) (m m' : Mdc) → Keeps after sc m m' → IsBalanced m → IsBalanced m'
  unfolding IsBalanced Keeps
  Keeps-IsBalanced sc m m' s b j e = elim (Option-cases (get j m)) [
    | inl f ↦ (s j).1 ∙ b j f
    | inr (t, f) ↦
        let (u, g) = moved-some after j sc t in
        absurd (let wrong = sym e ∙ ((s j).0 ∙ (ap (moved after j sc) f ∙ g)) in cc)
  ]

  -- Take scopes of guards, nested and in sequence, from a context in which no key without a value has
  -- values saved. In the end every key has the saved values that it had before, and a value exactly
  -- if it had one: that value, moved once by the destructor for each guard of the key that is not
  -- inside of another guard of it. So it is as before where an emplace that finds the key leaves its
  -- argument alone, and is what the library leaves in a moved text where it does not.
  pub run-Keeps : (sc : Scope) (m : Mdc) → IsBalanced m → Keeps after sc m (run given after sc m)
  unfolding run Keeps moved
  run-Keeps done m b j = (refl, refl)
  run-Keeps (guarded k v inner rest) m b j =
      let n = push given k v m in
      let within = run-Keeps inner n (push-IsBalanced k v m b) in
      let back = pop-Keeps k v m (run given after inner n) inner b within in
      let ended = pop after k (run given after inner n) in
      let (g, s) =
        run-Keeps rest ended (Keeps-IsBalanced (guarded k v inner done) m ended back b) j in
      (g ∙ ap (moved after j rest) (back j).0, s ∙ (back j).1)

-- `push` gives the key its value exactly when the key had none or the emplace that finds the key
-- leaves the value in its argument.
pub get-push_iff :
    (after : Text → Text) (k v : Text) (m : Mdc)
    → (get k (push after k v m) ≡ some v) ↔ ((get k m ≡ none) ⊎ (after v ≡ v))
unfolding get push insert_or_assign
get-push_iff after k v m = elim (Option-cases (find k m.context_map)) [
  | inl e ↦ (λ h. inl e, λ h. ground (arith, e, find-assign k k v m.context_map, text_eq_iff k k))
  | inr (old, e) ↦ (
    λ h. inr (ground (arith, e, h, find-assign k k (after v) m.context_map, text_eq_iff k k)),
    λ h. ground (arith, e, h, find-assign k k (after v) m.context_map, text_eq_iff k k),
  )
]
