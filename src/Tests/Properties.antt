-- ===== src/Tests/Properties.antt =====
-- Properties, their substitution and a property file.
use log4cplus.Common.{
  if◌then◌else◌, ◌+◌, ◌≤◌, ◌≡◌, refl, true, false, Option, none, some, List, [], ◌∷◌, ◌++◌, Text,
  codes, text_eq, length, negsuc, arith,
}
use log4cplus.Common.Map.{find}
use log4cplus.Property.Cuts.{lacks-Lacks}
use log4cplus.Property.Entries.{find-get_property_subset}
use log4cplus.Property.Reading.Documents.{
  Item, blank, comment, entry, item_line, IsDocument, document, assignments, last_value,
  read_properties-document,
}
use log4cplus.Property.Reading.Lines.{IsKey, entry_line}
use log4cplus.Property.Reading.{read_properties, trim_ws, trim_trailing_ws, is_space}
use log4cplus.Property.Substitution.{ended, subst_vars-ended, Template, end, variable}
use log4cplus.Property.{Properties, no_flags, subst_vars, get_property_subset}
use log4cplus.StringHelper.Decimal.{read_integer, InRange, convert_lem}
use log4cplus.StringHelper.Tokens.{collapsed, tokenize_lem}
use log4cplus.StringHelper.{tokenize, join, convert_integer_to_string}

abbrev environment : Text → Option Text
environment key = if text_eq key (codes "HOME") then some (codes "/root") else none

subst_vars-ended_example : ended (subst_vars environment [] no_flags 9 (codes "a${HOME}")) ≡ true
subst_vars-ended_example = subst_vars-ended environment [] no_flags (codes "a${HOME}") refl

abbrev template : Template
template =
    variable (codes "dir=") (codes "HOME") (variable (codes ":") (codes "X") (end (codes "!")))

abbrev props : Properties
props = (codes "log4cplus.rootLogger", codes "INFO") ∷ (codes "other", codes "1") ∷ []

find-get_property_subset_example :
    find (codes "rootLogger") (get_property_subset (codes "log4cplus.") props)
    ≡ find (codes "log4cplus." ++ codes "rootLogger") props
find-get_property_subset_example =
    find-get_property_subset (codes "log4cplus.") props (codes "rootLogger")

abbrev items : List Item
items =
    comment (codes " ") (codes " levels")
    ∷ blank (codes " ")
    ∷ entry (codes " ") (codes "level") (codes " ") (codes " ") (codes "INFO b") (13 ∷ [])
    ∷ []

level-IsKey : IsKey (codes "level")
unfolding trim_trailing_ws is_space text_eq
level-IsKey = (refl, refl, lacks-Lacks b'=' (codes "level") refl, refl)

items-IsDocument : IsDocument items
unfolding is_space trim_ws item_line entry_line
items-IsDocument = (
  (refl, tt),
  lacks-Lacks 10 (codes " # levels") refl,
  (
    (refl, tt),
    lacks-Lacks 10 (codes " ") refl,
    (
      (level-IsKey, refl, (refl, tt), (refl, tt), (refl, tt), (refl, tt)),
      lacks-Lacks 10 (codes " level = INFO b" ++ (13 ∷ [])) refl,
      tt,
    ),
  ),
)

read_properties-document_example :
    (read_properties environment (λ name. none) 3 (document items) ≡ some (assignments items []))
    × ((j : Text) → find j (assignments items []) ≡ last_value j items none)
read_properties-document_example =
    read_properties-document environment (λ name. none) 3 items items-IsDocument

tokenize_lem_example :
    (join (codes ",") (tokenize b',' false (codes "INFO,A,,B")) ≡ codes "INFO,A,,B")
    × (tokenize b',' true (codes "INFO,A,,B") ≡ collapsed (tokenize b',' false (codes "INFO,A,,B")))
tokenize_lem_example = tokenize_lem b',' (codes "INFO,A,,B")

smallest-InRange : InRange 32 (negsuc 2147483647)
smallest-InRange = omega arith

convert_lem_example :
    (read_integer (convert_integer_to_string 32 (negsuc 2147483647)) ≡ negsuc 2147483647)
    × (length (convert_integer_to_string 32 (negsuc 2147483647)) ≤ 9 + 2)
convert_lem_example = convert_lem 31 9 (negsuc 2147483647) (omega arith) smallest-InRange
