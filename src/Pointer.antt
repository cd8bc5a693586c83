-- ===== src/Pointer.antt =====
-- src/pointer.cxx and include/log4cplus/helpers/pointer.h: shared objects, counted by reference.
--
-- An object is its address, and a pointer variable holds an address or is null. The variables are a
-- list by number; one that has ended its life is null from then on. The counter has 32 bits.
pub mod Counts
use log4cplus.Common.{
  ℕ, zero, suc, ◌+◌, ◌-◌, ◌^◌, ◌%◌, Bool, true, false, ◌||◌, Option, none, some, List, [], ◌∷◌,
  get_elem?, ◌==◌, if◌then◌else◌,
}

pub record Heap : Type 0 where
  pub count : ℕ → ℕ
  pub destroyed : ℕ → Bool
  pub pointers : List (Option ℕ)

module _ {ℓ} {A : Type ℓ} where
  -- A write out of bounds changes nothing.
  abbrev pub set : List A → ℕ → A → List A
  set [] i v = []
  set (x ∷ xs) zero v = v ∷ xs
  set (x ∷ xs) (suc i) v = x ∷ set xs i v

-- `SharedObject::addReference`
unfoldable pub add_reference : ℕ → Heap → Heap
add_reference object h = record h {
  count = λ o. if o == object then (h.count o + 1) % 2 ^ 32 else h.count o;
}

-- `SharedObject::removeReference`
unfoldable pub remove_reference : ℕ → Heap → Heap
remove_reference object h = record h {
  count = λ o. if o == object then (h.count o + (2 ^ 32 - 1)) % 2 ^ 32 else h.count o;
  destroyed = λ o. h.destroyed o || (if o == object then h.count o == 1 else false);
}

-- `SharedObjectPtr::addref` and the destructor's test.
unfoldable pub addref : Option ℕ → Heap → Heap
unfolding add_reference
addref none h = h
addref (some object) h = add_reference object h

unfoldable pub release : Option ℕ → Heap → Heap
unfolding remove_reference
release none h = h
release (some object) h = remove_reference object h

-- What is done with pointer variables. `construct` and `assign` take a plain pointer.
pub data Act : Type 0 where
  construct : Option ℕ → Act
  copy : ℕ → Act
  move : ℕ → Act
  assign : ℕ → Option ℕ → Act
  copy_assign : ℕ → ℕ → Act
  move_assign : ℕ → ℕ → Act
  destruct : ℕ → Act

unfoldable pub construct_from : Option ℕ → Heap → Heap
unfolding addref
construct_from pointee h = addref pointee (record h { pointers = pointee ∷ h.pointers })

-- `operator= (T *)`: a new pointer is made, swapped with the variable and destroyed.
unfoldable pub assign_to : ℕ → Option ℕ → Option ℕ → Heap → Heap
unfolding addref release
assign_to i pointee old h =
    let h' = addref pointee h in release old (record h' { pointers = set h'.pointers i pointee })

-- A variable that is named but does not exist leaves all as it is.
unfoldable pub act : Act → Heap → Heap
unfolding construct_from assign_to release
act (construct pointee) h = construct_from pointee h
act (copy j) h = elim (get_elem? h.pointers j) [
  | none ↦ h
  | some pointee ↦ construct_from pointee h
]
act (move j) h = elim (get_elem? h.pointers j) [
  | none ↦ h
  | some pointee ↦ record h { pointers = pointee ∷ set h.pointers j none }
]
act (assign i pointee) h = elim (get_elem? h.pointers i) [
  | none ↦ h
  | some old ↦ assign_to i pointee old h
]
act (copy_assign i j) h = elim (get_elem? h.pointers i) [
  | none ↦ h
  | some old ↦ elim (get_elem? h.pointers j) [ none ↦ h | some pointee ↦ assign_to i pointee old h ]
]
act (move_assign i j) h = elim (get_elem? h.pointers i) [
  | none ↦ h
  | some old ↦ elim (get_elem? h.pointers j) [
    | none ↦ h
    | some pointee ↦ record h { pointers = set (set h.pointers i pointee) j old }
  ]
]
act (destruct i) h = elim (get_elem? h.pointers i) [
  | none ↦ h
  | some old ↦ release old (record h { pointers = set h.pointers i none })
]

unfoldable pub acts : List Act → Heap → Heap
unfolding act
acts [] h = h
acts (a ∷ as') h = acts as' (act a h)
