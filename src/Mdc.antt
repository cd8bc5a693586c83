-- ===== src/Mdc.antt =====
-- src/mdc.cxx: the mapped diagnostic context of a thread.
--
-- `after` says what an rvalue argument holds once `emplace` has been called with it and found the
-- key: the C++ library may have moved the value out by then. For an lvalue it is the value itself.
-- A stack of earlier values is a list with the last one first.
pub mod Scopes
use log4cplus.Common.{Bool, true, false, Option, none, some, List, [], ◌∷◌, Text, if◌then◌else◌}
use log4cplus.Common.Map.{Map, find, erase, assign}

-- `MappedDiagnosticContext`
pub record Mdc : Type 0 where
  pub context_map : Map Text
  pub stacks_map : Map (List Text)

abbrev pub clear : Mdc → Mdc
clear m = record { context_map = []; stacks_map = [] }

unfoldable pub insert_or_assign : (Text → Text) → Text → Text → Map Text → Option Text × Map Text
unfolding find assign
insert_or_assign after key value map = elim (find key map) [
  | none ↦ (none, assign key value map)
  | some old_value ↦ (some old_value, assign key (after value) map)
]

unfoldable pub put : (Text → Text) → Text → Text → Mdc → Mdc
unfolding insert_or_assign
put after key value m = record m {
  context_map = (insert_or_assign after key value m.context_map).1;
}

unfoldable pub push_to_stack : Text → Text → Map (List Text) → Map (List Text)
unfolding find assign
push_to_stack key value stacks = elim (find key stacks) [
  | none ↦ assign key (value ∷ []) stacks
  | some stack ↦ assign key (value ∷ stack) stacks
]

unfoldable pub push : (Text → Text) → Text → Text → Mdc → Mdc
unfolding insert_or_assign push_to_stack
push after key value m =
    let (opt_prev, context) = insert_or_assign after key value m.context_map in
    elim opt_prev [
      | none ↦ record m { context_map = context }
      | some prev ↦ record {
        context_map = context;
        stacks_map = push_to_stack key prev m.stacks_map;
      }
    ]

unfoldable pub remove : Text → Mdc → Mdc
unfolding erase
remove key m = record m { context_map = erase key m.context_map }

unfoldable pub pop : (Text → Text) → Text → Mdc → Mdc
unfolding insert_or_assign find assign remove
pop after key m = elim (find key m.stacks_map) [
  | none ↦ remove key m
  | some stack ↦ elim stack [
    | [] ↦ remove key m
    | value ∷ rest ↦ record {
      context_map = (insert_or_assign after key value m.context_map).1;
      stacks_map = assign key rest m.stacks_map;
    }
  ]
]

unfoldable pub get : Text → Mdc → Option Text
unfolding find
get key m = find key m.context_map
