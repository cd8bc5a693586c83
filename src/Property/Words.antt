-- ===== src/Property/Words.antt =====
-- The values of Boolean properties that are words.
use mathlib.Core.List.{map}
use log4cplus.Common.{
  ℕ, ◌≡◌, refl, true, false, Option, none, some, [], ◌∷◌, Text, codes, text_eq, text_eq_refl, All,
  ℤ, arith,
}
use log4cplus.StringHelper.{transform}
use log4cplus.Property.{Properties, exists, get_property}
use log4cplus.Property.Reading.{is_space, trim_leading_ws}
use log4cplus.Property.Values.{read_word, parse_bool, get_bool}

-- Characters that are no whitespace.
abbrev pub IsWord : Text → Type 0
IsWord = All (λ c. is_space c ≡ false)

read_word-word : (s : Text) → IsWord s → read_word s ≡ (s, [])
unfolding read_word
read_word-word [] h = refl
read_word-word (c ∷ s) (solid, h) = ground (arith, solid, read_word-word s h)

trim-word : (s : Text) → IsWord s → trim_leading_ws s ≡ s
unfolding trim_leading_ws
trim-word [] h = refl
trim-word (c ∷ s) (solid, h) = ground (arith, solid)

same_word : text_eq (codes "true") (codes "true") ≡ true
same_word = text_eq_refl (codes "true")

same_false : text_eq (codes "false") (codes "false") ≡ true
same_false = text_eq_refl (codes "false")

other_word : text_eq (codes "false") (codes "true") ≡ false
unfolding text_eq
other_word = refl

parse_bool-word :
    (lower : ℕ → ℕ) (read_long : Text → Option (ℤ × Text)) (v : Text)
    → IsWord v
    → (transform lower v ≡ codes "true" → parse_bool lower read_long v ≡ some true)
      × (transform lower v ≡ codes "false" → parse_bool lower read_long v ≡ some false)
unfolding parse_bool trim_leading_ws
parse_bool-word lower read_long [] w = (λ e. cc, λ e. cc)
parse_bool-word lower read_long (c ∷ v) w =
    let trimmed = trim-word (c ∷ v) w in
    let read = read_word-word (c ∷ v) w in
    (
      λ e.
          let lowered : map lower (c ∷ v) ≡ codes "true" = e in
          rw (trimmed, read, lowered, same_word) refl,
      λ e.
          let lowered : map lower (c ∷ v) ≡ codes "false" = e in
          rw (trimmed, read, lowered, other_word, same_false) refl,
    )

-- A value that is the word true or false in letters of any case, as `lower` says, is read as such.
pub get_bool-word :
    (lower : ℕ → ℕ) (read_long : Text → Option (ℤ × Text)) (key : Text) (props : Properties)
    → exists key props ≡ true
    → IsWord (get_property key props)
    → (transform lower (get_property key props) ≡ codes "true"
        → get_bool lower read_long key props ≡ some true)
      × (transform lower (get_property key props) ≡ codes "false"
          → get_bool lower read_long key props ≡ some false)
unfolding get_bool
get_bool-word lower read_long key props h w =
    let (says_true, says_false) = parse_bool-word lower read_long (get_property key props) w in
    (λ e. rw (h) (says_true e), λ e. rw (h) (says_false e))

pub get_bool-missing :
    (lower : ℕ → ℕ) (read_long : Text → Option (ℤ × Text)) (key : Text) (props : Properties)
    → exists key props ≡ false
    → get_bool lower read_long key props ≡ none
unfolding get_bool
get_bool-missing lower read_long key props h = rw h refl
