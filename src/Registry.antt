-- ===== src/Registry.antt =====
-- src/objectregistry.cxx: the registry of factories, by name.
--
-- An object is its address. `deleted` lists the objects that the registry has deleted, the last one
-- first. The mutex makes each operation one step.
pub mod Ownership
use log4cplus.Common.{
  ℕ, Bool, true, false, Option, none, some, List, [], ◌∷◌, Text, is_empty, if◌then◌else◌,
}
use log4cplus.Common.Map.{Map, find, assign}

pub record Registry : Type 0 where
  pub entries : Map ℕ
  pub deleted : List ℕ

unfoldable pub exists : Text → Registry → Bool
unfolding find
exists name r = elim (find name r.entries) [ none ↦ false | some object ↦ true ]

-- `getVal`; `none` is the null pointer.
unfoldable pub get_val : Text → Registry → Option ℕ
unfolding find
get_val name r = find name r.entries

-- `putVal`: an object whose name is taken is deleted.
unfoldable pub put_val : Text → ℕ → Registry → Registry × Bool
unfolding find assign
put_val name object r = elim (find name r.entries) [
  | none ↦ (record r { entries = assign name object r.entries }, true)
  | some other ↦ (record r { deleted = object ∷ r.deleted }, false)
]

-- The loop of `clear`.
unfoldable pub clear_loop : Map ℕ → List ℕ → List ℕ
clear_loop [] deleted = deleted
clear_loop ((name, object) ∷ m) deleted = clear_loop m (object ∷ deleted)

unfoldable pub clear : Registry → Registry
unfolding clear_loop
clear r = record r { deleted = clear_loop r.entries r.deleted }
