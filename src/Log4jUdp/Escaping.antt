-- ===== src/Log4jUdp/Escaping.antt =====
-- Reading escaped XML back.
use log4cplus.Common.{
  ℕ, ◌+◌, ◌-◌, ◌*◌, ◌≡◌, Bool, true, Option, none, some, [], ◌∷◌, ◌++◌, Text, codes, text_eq, take,
  drop, not, ◌&&◌, ◌||◌, leb, ◌==◌, if◌then◌else◌,
}

unfoldable pub hex_value : ℕ → Text → ℕ
hex_value n [] = n
hex_value n (c ∷ s) = hex_value (n * 16 + (if leb b'a' c then c - b'a' + 10 else c - b'0')) s

-- The characters that XML 1.0 allows, of those that have one code unit.
abbrev pub is_char : ℕ → Bool
is_char c = c == 9 || (c == 10 || (c == 13 || leb 32 c))

abbrev pub is_hex_digit : ℕ → Bool
is_hex_digit c = (leb b'0' c && leb c b'9') || (leb b'a' c && leb c b'f')

unfoldable pub all_hex : Text → Bool
all_hex [] = true
all_hex (c ∷ s) = is_hex_digit c && all_hex s

-- The character that the text between an ampersand and a semicolon stands for, with small letters as
-- hexadecimal digits; there is none for an unknown name or a character that XML does not allow.
unfoldable pub entity : Text → Option ℕ
unfolding hex_value text_eq all_hex
entity name =
    if text_eq name (codes "lt")
    then some b'<'
    else if text_eq name (codes "gt")
    then some b'>'
    else if text_eq name (codes "amp")
    then some b'&'
    else if text_eq name (codes "apos")
    then some b'\''
    else if text_eq name (codes "quot")
    then some b'"'
    else if text_eq (take 2 name) (codes "#x")
        && all_hex (drop 2 name)
        && is_char (hex_value 0 (drop 2 name))
    then some (hex_value 0 (drop 2 name))
    else none

-- The characters that stand for themselves wherever a text can be: in content, in which `]]>` may
-- not be, and in an attribute with quotation marks of either kind.
abbrev pub is_special : ℕ → Bool
is_special c = c == b'<' || (c == b'>' || (c == b'&' || (c == b'\'' || c == b'"')))

abbrev pub is_plain : ℕ → Bool
is_plain c = is_char c && not (is_special c)

abbrev then_more : ℕ → Option Text → Option Text
then_more c none = none
then_more c (some s) = some (c ∷ s)

abbrev and_more : Option ℕ → Option Text → Option Text
and_more none rest = none
and_more (some c) rest = then_more c rest

-- How a strict reader of XML takes text, outside of an entity or inside of one of which it has read a
-- part; `none` is text that is not well formed in some of the places where a text can be.
unfoldable pub read_xml : Option Text → Text → Option Text
unfolding entity
read_xml none [] = some []
read_xml (some name) [] = none
read_xml none (c ∷ s) =
    let plain = read_xml none s in
    let reference = read_xml (some []) s in
    if c == b'&' then reference else if is_plain c then then_more c plain else none
read_xml (some name) (c ∷ s) =
    let after = read_xml none s in
    let longer = read_xml (some (name ++ (c ∷ []))) s in
    if c == b';' then and_more (entity name) after else longer

-- The hexadecimal digits of a control character are such digits and read back as the character.
abbrev pub IsHex : (ℕ → Bool) → (ℕ → Text) → Type 0
IsHex is_control hex =
    (c : ℕ) → is_control c ≡ true → (hex_value 0 (hex c) ≡ c) × (all_hex (hex c) ≡ true)

-- Whether XML allows all characters of a text.
unfoldable pub all_chars : Text → Bool
all_chars [] = true
all_chars (c ∷ s) = is_char c && all_chars s
