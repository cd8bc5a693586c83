-- ===== src/Ndc/Messages.antt =====
-- The stack of contexts as the plain list of its messages.
use log4cplus.Common.{
  ℕ, zero, suc, take, length-drop, take-append-drop, sym, ◌∙◌, ◌-◌, ◌≡◌, refl, ap, List, [], ◌∷◌,
  ◌++◌, Text, codes, length, drop, map, min, arith,
}
use mathlib.Core.Path.{subst}
use native.Mathlib.Decide.{dec_le}
use log4cplus.Ndc.{
  Stack, DiagnosticContext, init_full_message, clear, get, get_depth, pop, pop_void, peek, push,
  set_max_depth,
}

-- The messages, innermost first, joined by spaces with the outermost first.
unfoldable pub joined : List Text → Text
joined [] = []
joined (m ∷ []) = m
joined (m ∷ m' ∷ ms) = joined (m' ∷ ms) ++ (codes " " ++ m)

abbrev pub messages : Stack → List Text
messages s = map (λ dc. dc.message) s

-- Every context's full message joins the messages from the outermost one to its own.
pub data IsJoined : Stack → Type 0 where
  bottom : IsJoined []
  above :
      (dc : DiagnosticContext) (s : Stack)
      → dc.full_message ≡ joined (messages (dc ∷ s))
      → IsJoined s
      → IsJoined (dc ∷ s)

-- What a thread does to its context.
pub data Action : Type 0 where
  pushes : Text → Action
  pops : Action
  limits : ℕ → Action
  clears : Action

unfoldable pub act : Action → Stack → Stack
unfolding push pop_void set_max_depth
act (pushes m) s = push m s
act pops s = pop_void s
act (limits d) s = set_max_depth d s
act clears s = clear s

-- The same on the list of messages.
unfoldable pub act_messages : Action → List Text → List Text
act_messages (pushes m) ms = m ∷ ms
act_messages pops ms = drop 1 ms
act_messages (limits d) ms = drop (length ms - d) ms
act_messages clears ms = []

unfoldable pub acts : List Action → Stack → Stack
unfolding act
acts [] s = s
acts (a ∷ later) s = acts later (act a s)

unfoldable pub acts_messages : List Action → List Text → List Text
unfolding act_messages
acts_messages [] ms = ms
acts_messages (a ∷ later) ms = acts_messages later (act_messages a ms)

set_max_depth_lem : (d : ℕ) (s : Stack) → set_max_depth d s ≡ drop (length s - d) s
unfolding set_max_depth
set_max_depth_lem d [] = let none_left : 0 - d ≡ 0 = omega arith in rw none_left refl
set_max_depth_lem d (dc ∷ s) = elim (dec_le (length (dc ∷ s)) d) [
  | yes fits ↦ let none_left : suc (length s) - d ≡ 0 = omega arith in rw none_left (ground arith)
  | no over ↦
      let one_more : suc (length s) - d ≡ suc (length s - d) = omega arith in
      rw one_more (ground (arith, set_max_depth_lem d s))
]

messages-drop : (k : ℕ) (s : Stack) → messages (drop k s) ≡ drop k (messages s)
messages-drop zero s = refl
messages-drop (suc k) [] = refl
messages-drop (suc k) (dc ∷ s) = messages-drop k s

length-messages : (s : Stack) → length (messages s) ≡ length s
length-messages [] = refl
length-messages (dc ∷ s) = ap suc (length-messages s)

drop-IsJoined : (k : ℕ) (s : Stack) → IsJoined s → IsJoined (drop k s)
drop-IsJoined zero s v = v
drop-IsJoined (suc k) [] v = v
drop-IsJoined (suc k) (dc ∷ s) (above _ _ e w) = drop-IsJoined k s w

push-IsJoined : (m : Text) (s : Stack) → IsJoined s → IsJoined (push m s)
unfolding push joined init_full_message
push-IsJoined m [] v = above _ [] refl bottom
push-IsJoined m (dc ∷ s) (above _ _ e w) =
    above _ (dc ∷ s) (ap (λ t. t ++ (codes " " ++ m)) e) (above dc s e w)

get-IsJoined : (s : Stack) → IsJoined s → get s ≡ joined (messages s)
unfolding get joined
get-IsJoined [] v = refl
get-IsJoined (dc ∷ s) (above _ _ e w) = e

act-IsJoined : (a : Action) (s : Stack) → IsJoined s → IsJoined (act a s)
unfolding act pop_void
act-IsJoined (pushes m) s v = push-IsJoined m s v
act-IsJoined pops [] v = v
act-IsJoined pops (dc ∷ s) (above _ _ e w) = w
act-IsJoined (limits d) s v =
    subst IsJoined (sym (set_max_depth_lem d s)) (drop-IsJoined (length s - d) s v)
act-IsJoined clears s v = bottom

messages-act : (a : Action) (s : Stack) → messages (act a s) ≡ act_messages a (messages s)
unfolding act act_messages push pop_void
messages-act (pushes m) [] = refl
messages-act (pushes m) (dc ∷ s) = refl
messages-act pops [] = refl
messages-act pops (dc ∷ s) = refl
messages-act (limits d) s = rw (set_max_depth_lem d s, messages-drop, length-messages) refl
messages-act clears s = refl

-- After any pushes, pops, limits of the depth and clearings of a stack whose full messages are
-- joined, the messages are what the same actions do to the plain list of messages, the depth is
-- its length, `get` joins them, the outermost first, with spaces, and every full message is again
-- joined.
pub acts_lem :
    (later : List Action) (s : Stack)
    → IsJoined s
    → (messages (acts later s) ≡ acts_messages later (messages s))
      × (get (acts later s) ≡ joined (acts_messages later (messages s)))
      × (get_depth (acts later s) ≡ length (acts_messages later (messages s)))
      × IsJoined (acts later s)
unfolding acts acts_messages
acts_lem [] s v = (refl, get-IsJoined s v, sym (length-messages s), v)
acts_lem (a ∷ later) s v =
    let (m, g, l, w) = acts_lem later (act a s) (act-IsJoined a s v) in
    (
      m ∙ ap (acts_messages later) (messages-act a s),
      g ∙ ap (λ ms. joined (acts_messages later ms)) (messages-act a s),
      l ∙ ap (λ ms. length (acts_messages later ms)) (messages-act a s),
      w,
    )

-- What was pushed is what `pop` returns and `peek` shows, and `pop` leaves the stack as it was;
-- `pop_void` does the same, so a context that ends with its scope leaves nothing behind.
pub pop-push :
    (m : Text) (s : Stack)
    → (pop (push m s) ≡ (m, s)) × (peek (push m s) ≡ m) × (pop_void (push m s) ≡ s)
unfolding pop push peek pop_void
pop-push m [] = (refl, refl, refl)
pop-push m (dc ∷ s) = (refl, refl, refl)

-- setMaxDepth leaves the smaller of the limit and the depth, and takes away the innermost
-- contexts: those taken away and those that stay make up the stack as it was.
pub set_max_depth-length :
    (d : ℕ) (s : Stack)
    → (get_depth (set_max_depth d s) ≡ min d (get_depth s))
      × (take (length s - d) s ++ set_max_depth d s ≡ s)
set_max_depth-length d s =
    rw (set_max_depth_lem d s)
      (omega (arith, length-drop (length s - d) s), take-append-drop (length s - d) s)
