-- ===== src/Hierarchy/Names.antt =====
-- Logger names: `startsWith` of src/hierarchy.cxx, and the parent names that the loop of
-- `Hierarchy::updateParents` visits.
use log4cplus.Common.{
  ℕ, zero, suc, ◌-◌, Bool, false, none, some, List, [], ◌∷◌, Text, text_eq, length, take, get_elem?,
  ltb, ◌==◌, if◌then◌else◌,
}

unfoldable pub starts_with : Text → Text → Bool
starts_with teststr substr =
    let len = length substr in
    if ltb len (length teststr) then text_eq (take len teststr) substr else false

abbrev pub is_dot_at : Text → ℕ → Bool
is_dot_at name i = elim (get_elem? name i) [ none ↦ false | some c ↦ c == b'.' ]

-- The substrings that the loop `for (i = name.find_last_of ('.', length - 1); i != npos && i > 0;
-- i = name.find_last_of ('.', i - 1))` visits, in its order: the positions from `i` down to 1.
unfoldable pub prefixes_from : Text → ℕ → List Text
prefixes_from name zero = []
prefixes_from name (suc i) =
    let rest = prefixes_from name i in
    if is_dot_at name (suc i) then take (suc i) name ∷ rest else rest

unfoldable pub prefixes : Text → List Text
unfolding prefixes_from
prefixes name = prefixes_from name (length name - 1)
