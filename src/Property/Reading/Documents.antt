-- ===== src/Property/Reading/Documents.antt =====
-- Property files of blank lines, comments and assignments, and a file that includes itself.
use log4cplus.Common.{
  ℕ, zero, suc, ◌≡◌, refl, ap, ◌∙◌, Option, none, some, List, [], ◌∷◌, ◌++◌, Text, codes, text_eq,
  if◌then◌else◌, arith,
}
use log4cplus.Common.Map.{find}
use log4cplus.Property.{Properties, set_property}
use log4cplus.Property.Entries.{find-set_property}
use log4cplus.Property.Cuts.{Lacks}
use log4cplus.Property.Reading.{
  trim_ws, lines, read_line, ignored, include, assigned, init, read_properties, included_file,
  lines_of,
}
use log4cplus.Property.Reading.Lines.{
  Spaces, IsKey, entry_line, read_line-entry, read_line-blank, read_line-comment,
}

pub data Item : Type 0 where
  blank : Text → Item
  comment : Text → Text → Item
  -- The whitespace before and behind the key, the key, the whitespace before and behind the value,
  -- the value.
  entry : Text → Text → Text → Text → Text → Text → Item

unfoldable pub item_line : Item → Text
unfolding entry_line
item_line (blank w) = w
item_line (comment w s) = w ++ (b'#' ∷ s)
item_line (entry indent key gap gap' value trail) = entry_line indent key gap gap' value trail

abbrev pub IsItem : Item → Type 0
IsItem (blank w) = Spaces w
IsItem (comment w s) = Spaces w
IsItem (entry indent key gap gap' value trail) =
    IsKey key × (trim_ws value ≡ value) × Spaces indent × Spaces gap × Spaces gap' × Spaces trail

-- Each line of a file ends with a newline, and has no other.
unfoldable pub document : List Item → Text
document [] = []
document (item ∷ items) = item_line item ++ (10 ∷ document items)

abbrev pub IsDocument : List Item → Type 0
IsDocument [] = Unit
IsDocument (item ∷ items) = IsItem item × Lacks 10 (item_line item) × IsDocument items

unfoldable pub assignments : List Item → Properties → Properties
assignments [] props = props
assignments (blank w ∷ items) props = assignments items props
assignments (comment w s ∷ items) props = assignments items props
assignments (entry indent key gap gap' value trail ∷ items) props =
    assignments items (set_property key value props)

-- The value of the last assignment to a key, or the one before all of them.
unfoldable pub last_value : Text → List Item → Option Text → Option Text
last_value j [] before = before
last_value j (blank w ∷ items) before = last_value j items before
last_value j (comment w s ∷ items) before = last_value j items before
last_value j (entry indent key gap gap' value trail ∷ items) before =
    last_value j items (if text_eq key j then some value else before)

lines-line : (l s : Text) → Lacks 10 l → lines (l ++ (10 ∷ s)) ≡ l ∷ lines s
unfolding lines
lines-line [] s h = refl
lines-line (c ∷ l) s (h, hs) = ground (arith, h, lines-line l s hs)

module _ (env files : Text → Option Text) where
  init-ignored :
      (depth : ℕ) (line : Text) (rest : List Text) (props : Properties)
      → read_line line ≡ ignored
      → init env files depth (line ∷ rest) props ≡ init env files depth rest props
  unfolding init
  init-ignored zero line rest props e = rw (e, init) refl
  init-ignored (suc depth) line rest props e = rw (e, init) refl

  init-assigned :
      (depth : ℕ) (line key value : Text) (rest : List Text) (props : Properties)
      → read_line line ≡ assigned key value
      → init env files depth (line ∷ rest) props
        ≡ init env files depth rest (set_property key value props)
  unfolding init
  init-assigned zero line key value rest props e = rw (e, init) refl
  init-assigned (suc depth) line key value rest props e = rw (e, init) refl

-- One line of a document.
init-step :
    (env files : Text → Option Text) (depth : ℕ) (item : Item) (rest : List Text)
    (props : Properties)
    → IsItem item
    → init env files depth (item_line item ∷ rest) props
      ≡ init env files depth rest (assignments (item ∷ []) props)
unfolding item_line assignments
init-step env files depth (blank w) rest props i =
    init-ignored env files depth w rest props (read_line-blank w i)
init-step env files depth (comment w s) rest props i =
    init-ignored env files depth (w ++ (b'#' ∷ s)) rest props (read_line-comment w s i)
init-step env files depth (entry indent key gap gap' value trail) rest props (k, v, i, h, h', h'') =
    init-assigned env files depth (entry_line indent key gap gap' value trail) key value rest props
      (read_line-entry indent key gap gap' value trail k v i h h' h'')

init-document :
    (env files : Text → Option Text) (depth : ℕ) (items : List Item) (props : Properties)
    → IsDocument items
    → init env files depth (lines (document items)) props ≡ some (assignments items props)
unfolding init document assignments item_line lines
init-document env files zero [] props d = refl
init-document env files (suc depth) [] props d = refl
init-document env files depth (blank w ∷ items) props (i, l, d) =
    rw (lines-line w (document items) l) (
      init-step env files depth (blank w) (lines (document items)) props i
      ∙ init-document env files depth items props d)
init-document env files depth (comment w s ∷ items) props (i, l, d) =
    rw (lines-line (w ++ (b'#' ∷ s)) (document items) l) (
      init-step env files depth (comment w s) (lines (document items)) props i
      ∙ init-document env files depth items props d)
init-document env files depth (entry indent key gap gap' value trail ∷ items) props (i, l, d) =
    rw (lines-line (entry_line indent key gap gap' value trail) (document items) l) (
      init-step env files depth (entry indent key gap gap' value trail) (lines (document items))
        props i
      ∙ init-document env files depth items (set_property key value props) d)

find-assignments :
    (j : Text) (items : List Item) (props : Properties)
    → find j (assignments items props) ≡ last_value j items (find j props)
unfolding assignments last_value
find-assignments j [] props = refl
find-assignments j (blank w ∷ items) props = find-assignments j items props
find-assignments j (comment w s ∷ items) props = find-assignments j items props
find-assignments j (entry indent key gap gap' value trail ∷ items) props =
    find-assignments j items (set_property key value props)
    ∙ ap (last_value j items) (find-set_property key value j props)

-- A file of blank lines, comments and assignments is read whatever the indentation, the whitespace
-- around keys and values and the line ends, and gives every key the value of its last assignment. A
-- key is not empty, starts neither with a number sign nor with the word include, and has no equals
-- sign; keys and values have no whitespace at their ends and no newline.
pub read_properties-document :
    (env files : Text → Option Text) (depth : ℕ) (items : List Item)
    → IsDocument items
    → (read_properties env files depth (document items) ≡ some (assignments items []))
      × ((j : Text) → find j (assignments items []) ≡ last_value j items none)
unfolding read_properties
read_properties-document env files depth items d =
    (init-document env files depth items [] d, λ j. find-assignments j items [])

included_a :
    (env : Text → Option Text) (props : Properties)
    → included_file env props (codes "a") ≡ some (codes "a")
unfolding text_eq
included_a env props = unfold included_file in refl

line_a : read_line (codes "include a") ≡ include (codes "a")
unfolding text_eq
line_a = unfold read_line in refl

init-self_include :
    (env : Text → Option Text) (depth : ℕ) (props : Properties)
    → init env (λ name. some (codes "include a")) depth (codes "include a" ∷ []) props ≡ none
unfolding init lines_of
init-self_include env zero props = rw (line_a, init) refl
init-self_include env (suc depth) props =
    rw (line_a, init, included_a env props, init-self_include env depth props) refl

-- A file that includes itself is read without end.
pub read_properties-self_include :
    (env : Text → Option Text) (depth : ℕ)
    → read_properties env (λ name. some (codes "include a")) depth (codes "include a") ≡ none
unfolding read_properties lines
read_properties-self_include env depth = init-self_include env depth []
