-- ===== src/Property/Reading.antt =====
-- src/property.cxx: the reading of property files.
--
-- `lines` is the loop over `std::getline`, and `is_space` is `isspace` of the C locale. `files` gives
-- the contents of the files that can be opened; one that cannot be opened sets no property.
pub mod Lines
pub mod Documents
use log4cplus.Common.{
  ℕ, zero, suc, Bool, true, false, ◌&&◌, ◌||◌, Option, none, some, List, [], ◌∷◌, Text, codes,
  is_empty, length, drop, get_elem?, leb, ◌==◌, if◌then◌else◌,
}
use log4cplus.Property.{
  Properties, set_property, has_prefix, no_flags, cut_at, Substituted, result, diverges, subst_vars,
}

unfoldable pub is_space : ℕ → Bool
is_space c = c == b' ' || (leb 9 c && leb c 13)

unfoldable pub trim_leading_ws : Text → Text
unfolding is_space
trim_leading_ws [] = []
trim_leading_ws (c ∷ s) = if is_space c then trim_leading_ws s else c ∷ s

unfoldable pub trim_trailing_ws : Text → Text
unfolding is_space
trim_trailing_ws [] = []
trim_trailing_ws (c ∷ s) =
    let rest = trim_trailing_ws s in if is_empty rest && is_space c then [] else c ∷ rest

unfoldable pub trim_ws : Text → Text
unfolding trim_leading_ws trim_trailing_ws
trim_ws s = trim_leading_ws (trim_trailing_ws s)

-- `std::getline` until the end of the file.
unfoldable pub lines : Text → List Text
lines [] = []
lines (c ∷ s) =
    if c == 10
    then [] ∷ lines s
    else elim (lines s) [ [] ↦ (c ∷ []) ∷ [] | line ∷ rest ↦ (c ∷ line) ∷ rest ]

-- The removal of a trailing carriage return.
unfoldable pub without_cr : Text → Text
without_cr [] = []
without_cr (c ∷ []) = if c == 13 then [] else c ∷ []
without_cr (c ∷ d ∷ s) = c ∷ without_cr (d ∷ s)

-- What a line of a file asks for.
pub data Line : Type 0 where
  ignored : Line
  include : Text → Line
  assigned : Text → Text → Line

abbrev pub starts_comment : Text → Bool
starts_comment [] = false
starts_comment (c ∷ s) = c == b'#'

abbrev pub space_at : ℕ → Text → Bool
unfolding is_space
space_at i s = elim (get_elem? s i) [ none ↦ false | some c ↦ is_space c ]

-- `buffer.size () >= 7 + 1 + 1 && ...`
abbrev pub is_include : Text → Bool
is_include buffer =
    leb 9 (length buffer) && (has_prefix (codes "include") buffer && space_at 7 buffer)

unfoldable pub assignment : Text → Line
unfolding trim_ws trim_trailing_ws cut_at
assignment buffer = elim (cut_at (codes "=") buffer) [
  | none ↦ ignored
  | some (key, value) ↦ assigned (trim_trailing_ws key) (trim_ws value)
]

unfoldable pub read_line : Text → Line
unfolding trim_leading_ws trim_ws without_cr assignment
read_line line =
    let buffer = trim_leading_ws line in
    if is_empty buffer || starts_comment buffer
    then ignored
    else if is_include (without_cr buffer)
    then include (trim_ws (drop 8 (without_cr buffer)))
    else assignment (without_cr buffer)

-- The name of the file to include.
unfoldable pub included_file : (Text → Option Text) → Properties → Text → Option Text
unfolding subst_vars
included_file env props name = elim (subst_vars env props no_flags (suc (length name)) name) [
  | result dest changed ↦ some dest
  | diverges ↦ none
]

abbrev pub lines_of : Option Text → List Text
unfolding lines
lines_of none = []
lines_of (some contents) = lines contents

-- `Properties::init`, with the depth of the inclusions on fuel.
unfoldable pub init :
    (Text → Option Text) → (Text → Option Text) → ℕ → List Text → Properties → Option Properties
unfolding read_line included_file set_property
init env files depth [] props = some props
init env files zero (line ∷ rest) props = elim (read_line line) [
  | ignored ↦ init env files zero rest props
  | assigned key value ↦ init env files zero rest (set_property key value props)
  | include name ↦ none
]
init env files (suc depth) (line ∷ rest) props = elim (read_line line) [
  | ignored ↦ init env files (suc depth) rest props
  | assigned key value ↦ init env files (suc depth) rest (set_property key value props)
  | include name ↦ elim (included_file env props name) [
    | none ↦ none
    | some file ↦ elim (init env files depth (lines_of (files file)) props) [
      | none ↦ none
      | some props' ↦ init env files (suc depth) rest props'
    ]
  ]
]

-- The constructor from a file's contents.
unfoldable pub read_properties :
    (Text → Option Text) → (Text → Option Text) → ℕ → Text → Option Properties
unfolding init lines
read_properties env files depth contents = init env files depth (lines contents) []
