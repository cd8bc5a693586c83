-- ===== src/Property/Entries.antt =====
-- The properties as a map.
use log4cplus.Common.{
  ◌≡◌, refl, sym, ◌∙◌, Bool, false, ◌||◌, none, some, List, [], ◌∷◌, ◌++◌, Text, text_eq,
  text_eq_iff, length, drop, if◌then◌else◌, Bool-cases, inl, inr, arith,
}
use log4cplus.Common.Map.{find}
use log4cplus.Property.{
  Properties, get_property, property_names, set_property, has_prefix, subset_loop,
  get_property_subset,
}

pub find-set_property :
    (key value j : Text) (props : Properties)
    → find j (set_property key value props) ≡ (if text_eq key j then some value else find j props)
unfolding find set_property
find-set_property key value j [] = refl
find-set_property key value j ((k, v) ∷ props) = ground (
  arith,
  find-set_property key value j props,
  text_eq_iff k key,
  text_eq_iff k j,
  text_eq_iff key j,
)

unfoldable pub listed : Text → List Text → Bool
listed key [] = false
listed key (k ∷ keys) = text_eq k key || listed key keys

pub find-listed :
    (key : Text) (props : Properties)
    → find key props
      ≡ (if listed key (property_names props) then some (get_property key props) else none)
unfolding find get_property property_names listed
find-listed key [] = refl
find-listed key ((k, v) ∷ props) = ground (arith, find-listed key props)

prefix_lem :
    (prefix key k : Text)
    → text_eq key (prefix ++ k)
      ≡ (if has_prefix prefix key then text_eq (drop (length prefix) key) k else false)
unfolding text_eq
prefix_lem [] key k = refl
prefix_lem (p ∷ prefix) [] k = refl
prefix_lem (p ∷ prefix) (c ∷ key) k = ground (arith, prefix_lem prefix key k)

find-subset_loop :
    (prefix : Text) (props : Properties) (k : Text) (keys : List Text) (ret : Properties)
    → find k (subset_loop prefix props keys ret)
      ≡ (if listed (prefix ++ k) keys then some (get_property (prefix ++ k) props) else find k ret)
unfolding subset_loop listed
find-subset_loop prefix props k [] ret = refl
find-subset_loop prefix props k (key ∷ keys) ret = elim (Bool-cases (text_eq key (prefix ++ k))) [
  | inl e ↦
      let same = (text_eq_iff key (prefix ++ k)).0 e in
      ground (
        arith,
        e,
        same,
        prefix_lem prefix key k,
        find-subset_loop prefix props k keys
            (set_property (drop (length prefix) key) (get_property key props) ret),
        find-set_property (drop (length prefix) key) (get_property key props) k ret,
      )
  | inr e ↦ ground (
    arith,
    e,
    prefix_lem prefix key k,
    find-subset_loop prefix props k keys
        (set_property (drop (length prefix) key) (get_property key props) ret),
    find-subset_loop prefix props k keys ret,
    find-set_property (drop (length prefix) key) (get_property key props) k ret,
  )
]

-- The subset for a prefix has, at every key, what the properties have at the prefix followed by it.
pub find-get_property_subset :
    (prefix : Text) (props : Properties) (k : Text)
    → find k (get_property_subset prefix props) ≡ find (prefix ++ k) props
unfolding get_property_subset find
find-get_property_subset prefix props k =
    find-subset_loop prefix props k (property_names props) []
    ∙ sym (find-listed (prefix ++ k) props)
