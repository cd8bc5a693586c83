-- ===== src/Env.antt =====
-- src/env.cxx: the splitting of paths and the making of directories, as built for systems whose
-- only separator is the slash.
--
-- `cwd` is the current directory. The loop that starts again at `retry_recognition` runs on fuel.
-- The file system is the set of paths that exist: making a directory adds its path.
pub mod Paths
use log4cplus.Common.{
  ℕ, zero, suc, ◌+◌, ◌-◌, Bool, true, false, not, ◌&&◌, Option, none, some, List, [], ◌∷◌, ◌++◌,
  Text, codes, is_empty, length, take, drop, leb, ◌==◌, if◌then◌else◌,
}
use log4cplus.StringHelper.{join}

-- `split_into_components`: a separator at the end gives no empty component. `current` is the
-- component that is being read, and `started` tells whether the loop is in one.
unfoldable pub split_loop : Bool → Text → Text → List Text
split_loop started current [] = if started then current ∷ [] else []
split_loop started current (c ∷ s) = elim (c == b'/') [
  | true ↦ current ∷ split_loop false [] s
  | false ↦ split_loop true (current ++ (c ∷ [])) s
]

unfoldable pub split_into_components : Text → List Text
unfolding split_loop
split_into_components path = split_loop false [] path

unfoldable pub without_empty : List Text → List Text
without_empty [] = []
without_empty (t ∷ ts) = let rest = without_empty ts in if is_empty t then rest else t ∷ rest

-- `remove_empty`
unfoldable pub remove_empty : ℕ → List Text → List Text
unfolding without_empty
remove_empty special components = take special components ++ without_empty (drop special components)

abbrev pub is_absolute : List Text → Bool
is_absolute [] = false
is_absolute (t ∷ []) = false
is_absolute (t ∷ u ∷ ts) = is_empty t

-- `expand_relative_path`
unfoldable pub expand_relative_path : Text → List Text → List Text
unfolding split_into_components
expand_relative_path cwd components = split_into_components cwd ++ components

-- `split_path` from `retry_recognition` on: the components, how many are special, and the result.
unfoldable pub recognize : ℕ → Text → List Text → Option (List Text × ℕ × Bool)
unfolding remove_empty expand_relative_path
recognize zero cwd components = none
recognize (suc fuel) cwd components = elim (is_absolute components) [
  | true ↦ some (remove_empty 1 components, 1, leb 2 (length (remove_empty 1 components)))
  | false ↦ recognize fuel cwd (expand_relative_path cwd (remove_empty 0 components))
]

unfoldable pub split_path : ℕ → Text → Text → Option (List Text × ℕ × Bool)
unfolding recognize split_into_components
split_path fuel cwd path = recognize fuel cwd (split_into_components path)

-- The loop of `make_dirs` over the components: `existing` tells which paths exist, and the paths are
-- those for which mkdir is called.
unfoldable pub make_loop : (Text → Bool) → Text → List Text → List Text
make_loop existing path [] = []
make_loop existing path (t ∷ ts) =
    let path' = path ++ (codes "/" ++ t) in
    let rest = make_loop existing path' ts in if existing path' then rest else path' ∷ rest
