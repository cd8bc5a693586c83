-- ===== src/Property.antt =====
-- src/property.cxx: the properties, the substitution of variables, and the reading of property
-- files.
--
-- `data` is a `std::map`: a list of entries kept in the order of the keys. `env` is the environment,
-- `files` gives the lines of the files that can be opened, and `is_space` is the C library's
-- `isspace`. Error messages are not modelled, nor the encodings of files.
pub mod Entries
pub mod Cuts
pub mod Substitution
pub mod Reading
pub mod Values
pub mod Words
use log4cplus.Common.{
  ℕ, zero, suc, ◌+◌, Bool, true, false, not, ◌&&◌, ◌||◌, Option, none, some, List, [], ◌∷◌, ◌++◌,
  Text, codes, text_eq, is_empty, length, take, drop, get_elem?, ltb, leb, ◌==◌, if◌then◌else◌,
}
use log4cplus.Common.Map.{Map, find, erase}

abbrev pub Properties : Type 0
Properties = Map Text

-- The order of texts by their bytes.
unfoldable pub text_lt : Text → Text → Bool
text_lt s [] = false
text_lt [] (c ∷ t) = true
text_lt (a ∷ s) (b ∷ t) = ltb a b || (a == b && text_lt s t)

unfoldable pub exists : Text → Properties → Bool
unfolding find
exists key props = elim (find key props) [ none ↦ false | some value ↦ true ]

-- `get_property_worker`: a missing key gives the empty text.
unfoldable pub get_property : Text → Properties → Text
unfolding find
get_property key props = elim (find key props) [ none ↦ [] | some value ↦ value ]

unfoldable pub get_property_or : Text → Text → Properties → Text
unfolding find
get_property_or key default_val props = elim (find key props) [
  | none ↦ default_val
  | some value ↦ value
]

unfoldable pub property_names : Properties → List Text
property_names [] = []
property_names ((key, value) ∷ props) = key ∷ property_names props

unfoldable pub set_property : Text → Text → Properties → Properties
unfolding text_lt
set_property key value [] = (key, value) ∷ []
set_property key value ((k, v) ∷ props) =
    let rest = set_property key value props in
    if text_eq k key
    then (k, value) ∷ props
    else if text_lt key k
    then (key, value) ∷ (k, v) ∷ props
    else (k, v) ∷ rest

unfoldable pub remove_property : Text → Properties → Properties
remove_property key props = erase key props

-- `compare (0, prefix.size (), prefix) == 0`
abbrev pub has_prefix : Text → Text → Bool
has_prefix prefix s = text_eq (take (length prefix) s) prefix

-- The loop of `getPropertySubset`.
unfoldable pub subset_loop : Text → Properties → List Text → Properties → Properties
unfolding get_property set_property
subset_loop prefix props [] ret = ret
subset_loop prefix props (key ∷ keys) ret = subset_loop prefix props keys (
    if has_prefix prefix key
    then set_property (drop (length prefix) key) (get_property key props) ret
    else ret)

unfoldable pub get_property_subset : Text → Properties → Properties
unfolding subset_loop property_names
get_property_subset prefix props = subset_loop prefix props (property_names props) []

-- The bits of the flags that `substVars` reads.
pub record Flags : Type 0 where
  pub empty_vars : Bool
  pub shadow_env : Bool
  pub rec_exp : Bool

abbrev pub no_flags : Flags
no_flags = record { empty_vars = false; shadow_env = false; rec_exp = false }

-- `find` of a delimiter: the text before its first occurrence and the text behind it.
unfoldable pub cut_at : Text → Text → Option (Text × Text)
cut_at delim [] = none
cut_at delim (c ∷ s) = elim (has_prefix delim (c ∷ s)) [
  | true ↦ some ([], drop (length delim) (c ∷ s))
  | false ↦ elim (cut_at delim s) [ none ↦ none | some (before, after) ↦ some (c ∷ before, after) ]
]

-- The value that is put in place of a variable.
unfoldable pub replacement_of : (Text → Option Text) → Properties → Flags → Text → Text
unfolding get_property
replacement_of env props flags key =
    let own = if flags.shadow_env then get_property key props else [] in
    if not flags.shadow_env || (not flags.empty_vars && is_empty own)
    then elim (env key) [ none ↦ own | some value ↦ value ]
    else own

-- What `substVars` stores in `dest`, and what it returns.
pub data Substituted : Type 0 where
  result : Text → Bool → Substituted
  diverges : Substituted

-- The loop of `substVars`: the pattern is `done ++ rest`, and i stands at the start of `rest`.
unfoldable pub subst_loop :
    (Text → Option Text) → Properties → Flags → Text → ℕ → Text → Text → Bool → Substituted
unfolding cut_at replacement_of
subst_loop env props flags val zero done rest changed = diverges
subst_loop env props flags val (suc fuel) done rest changed = elim (cut_at (codes "${") rest) [
  | none ↦ result (done ++ rest) changed
  | some (before, after) ↦ elim (cut_at (codes "}") after) [
    | none ↦ result val false
    | some (key, tail) ↦
        let replacement = replacement_of env props flags key in
        elim (flags.empty_vars || not (is_empty replacement)) [
          | true ↦ elim flags.rec_exp [
            | true ↦ subst_loop env props flags val fuel done (before ++ (replacement ++ tail)) true
            | false ↦
                subst_loop env props flags val fuel (done ++ (before ++ replacement)) tail true
          ]
          | false ↦
              subst_loop env props flags val fuel
                (done ++ (before ++ (codes "${" ++ (key ++ codes "}")))) tail changed
        ]
  ]
]

unfoldable pub subst_vars : (Text → Option Text) → Properties → Flags → ℕ → Text → Substituted
unfolding subst_loop
subst_vars env props flags fuel val = subst_loop env props flags val fuel [] val false
