-- ===== src/Property/Values.antt =====
-- src/property.cxx and src/env.cxx: typed values of properties.
--
-- Reading a number off a stream is the C++ library's: `read_long` and `read_value` skip whitespace
-- and give the number and the rest of the text. A value that cannot be read is `none`, and the
-- variable that was to hold it keeps what it had.
use log4cplus.Common.{
  ℕ, Bool, true, false, not, Option, none, some, [], ◌∷◌, Text, codes, text_eq, is_empty, ℤ, pos,
  eq_ℤ, if◌then◌else◌,
}
use log4cplus.Property.{Properties, exists, get_property}
use log4cplus.Property.Reading.{is_space, trim_leading_ws}
use log4cplus.StringHelper.{transform}

-- `>>` into a string: the characters up to the next whitespace, and the rest.
unfoldable pub read_word : Text → Text × Text
unfolding is_space
read_word [] = ([], [])
read_word (c ∷ s) =
    let (word, rest) = read_word s in if is_space c then ([], c ∷ s) else (c ∷ word, rest)

-- `>>` into a character fails.
abbrev pub at_end : Text → Bool
unfolding trim_leading_ws
at_end s = is_empty (trim_leading_ws s)

unfoldable pub parse_bool : (ℕ → ℕ) → (Text → Option (ℤ × Text)) → Text → Option Bool
unfolding read_word trim_leading_ws
parse_bool lower read_long s =
    let (word, rest) = read_word (trim_leading_ws s) in
    if is_empty word
    then none
    else if not (at_end rest)
    then none
    else if text_eq (transform lower word) (codes "true")
    then some true
    else if text_eq (transform lower word) (codes "false")
    then some false
    else (elim (read_long s) [
      | none ↦ none
      | some (lval, tail) ↦ if at_end tail then some (not (eq_ℤ lval (pos 0))) else none
    ])

unfoldable pub get_bool : (ℕ → ℕ) → (Text → Option (ℤ × Text)) → Text → Properties → Option Bool
unfolding parse_bool exists get_property
get_bool lower read_long key props =
    if exists key props then parse_bool lower read_long (get_property key props) else none

-- `get_type_val_worker`, for each type that a stream reads.
unfoldable pub get_type_val {ℓ} :
    {A : Type ℓ} → (Text → Option (A × Text)) → Text → Properties → Option A
unfolding exists get_property
get_type_val read_value key props =
    if exists key props
    then (elim (read_value (get_property key props)) [
      | none ↦ none
      | some (tmp_val, tail) ↦ if at_end tail then some tmp_val else none
    ])
    else none
