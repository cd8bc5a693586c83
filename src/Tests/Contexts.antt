-- ===== src/Tests/Contexts.antt =====
-- Diagnostic contexts.
use log4cplus.Common.{◌≡◌, ◌⊎◌, ◌↔◌, refl, none, some, List, [], ◌∷◌, Text, codes, text_eq, length}
use log4cplus.Ndc.{Stack, get_depth, pop, pop_void, peek, push, set_max_depth}
use log4cplus.Ndc.Messages.{
  Action, pushes, pops, limits, acts, acts_messages, messages, joined, IsJoined, bottom, acts_lem,
}
use log4cplus.Mdc.{Mdc, get, push as push_value, pop as pop_value}
use log4cplus.Mdc.Scopes.{
  IsBalanced, Keeps, Scope, done, guarded, run, run-Keeps, get-push_iff, saved,
}

abbrev actions : List Action
actions = pushes (codes "a") ∷ pushes (codes "b") ∷ pops ∷ limits 1 ∷ []

acts_lem_example :
    (messages (acts actions []) ≡ acts_messages actions [])
    × (log4cplus.Ndc.get (acts actions []) ≡ joined (acts_messages actions []))
    × (get_depth (acts actions []) ≡ length (acts_messages actions []))
    × IsJoined (acts actions [])
acts_lem_example = acts_lem actions [] bottom

abbrev kept : Text → Text
kept t = t

abbrev one_key : Mdc
one_key = record { context_map = (codes "k", codes "v") ∷ []; stacks_map = [] }

one_key-IsBalanced : IsBalanced one_key
unfolding IsBalanced saved
one_key-IsBalanced k e = refl

abbrev nested : Scope
nested = guarded (codes "k") (codes "w") (guarded (codes "k") (codes "x") done done) done

-- The library moves the value out.
abbrev moved_out : Text → Text
moved_out t = []

run-Keeps_example : Keeps moved_out nested one_key (run kept moved_out nested one_key)
run-Keeps_example = run-Keeps kept moved_out nested one_key one_key-IsBalanced

-- The value of the key is lost at the end of the outer guard.
nested-lost : get (codes "k") (run kept moved_out nested one_key) ≡ some []
unfolding run get push_value pop_value text_eq
nested-lost = refl

get-push_iff_example :
    (get (codes "k") (push_value moved_out (codes "k") (codes "w") one_key) ≡ some (codes "w"))
    ↔ ((get (codes "k") one_key ≡ none) ⊎ (moved_out (codes "w") ≡ codes "w"))
get-push_iff_example = get-push_iff moved_out (codes "k") (codes "w") one_key
