-- ===== src/Configurator/Variables.antt =====
-- What `replaceEnvironVariables` does to the properties.
use log4cplus.Common.{ℕ, Bool, true, false, not, ◌&&◌, Option, none, some, List, [], ◌∷◌, Text}
use log4cplus.Property.Entries.{listed}
use log4cplus.Property.{Flags, Substituted, result, diverges, subst_vars}

-- No key stands in the list twice.
unfoldable pub distinct_keys : List Text → Bool
unfolding listed
distinct_keys [] = true
distinct_keys (key ∷ keys) = not (listed key keys) && distinct_keys keys

module _ (env : Text → Option Text) (flags : Flags) (fuel : Text → ℕ) where
  -- A text after the substitution.
  abbrev pub substituted : Text → Substituted
  unfolding subst_vars
  substituted s = subst_vars env [] flags (fuel s) s

  abbrev text_of : Text → Substituted → Text
  text_of s (result dest true) = dest
  text_of s (result dest false) = s
  text_of s diverges = s

  unfoldable pub value_after : Text → Text
  value_after s = text_of s (substituted s)

  -- What becomes of a value.
  unfoldable pub after : Option Text → Option Text
  unfolding value_after
  after none = none
  after (some v) = some (value_after v)
