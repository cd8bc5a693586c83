-- ===== src/Layout/Parser/Patterns/Fields.antt =====
-- Whole patterns: what the parser makes of text and fields.
use mathlib.Core.List.{append_assoc}
use log4cplus.Common.{
  ℕ, ◌≡◌, refl, Bool, true, false, not, ◌&&◌, Option, none, some, List, [], ◌∷◌, ◌++◌, Text, codes,
  is_empty, ℤ, pos, ◌==◌, if◌then◌else◌, arith,
}
use log4cplus.Layout.{FormattingInfo}
use log4cplus.Layout.Converter.{
  BasicType, thread_converter, thread2_converter, process_converter, loglevel_converter,
  ndc_converter, message_converter, newline_converter, basename_converter, file_converter,
  line_converter, full_location_converter, function_converter, Converter, basic, logger, date, env,
  relative_timestamp, hostname, mdc, ndc,
}
use log4cplus.Layout.Parser.{
  ParserState, extract_option, extract_precision_option, make_converter, default_format,
}
use log4cplus.Layout.Parser.Patterns.{at}
use log4cplus.Layout.Parser.Patterns.Widths.{is_letter}
use log4cplus.Property.Cuts.{Lacks, cut_at-Lacks}
use log4cplus.Socket.Codec.{int_of_u32}

-- What a field is, with the option in braces that some take.
pub data Field : Type 0 where
  plain : BasicType → Field
  logger_field : Option Text → Field
  date_field : Bool → Option Text → Field
  env_field : Option Text → Field
  relative_field : Field
  hostname_field : Bool → Field
  mdc_field : Option Text → Field
  ndc_field : Field

unfoldable pub letter : Field → ℕ
letter (plain thread_converter) = b't'
letter (plain thread2_converter) = b'T'
letter (plain process_converter) = b'i'
letter (plain loglevel_converter) = b'p'
letter (plain ndc_converter) = 0
letter (plain message_converter) = b'm'
letter (plain newline_converter) = b'n'
letter (plain basename_converter) = b'b'
letter (plain file_converter) = b'F'
letter (plain line_converter) = b'L'
letter (plain full_location_converter) = b'l'
letter (plain function_converter) = b'M'
letter (logger_field option) = b'c'
letter (date_field use_gmtime option) = if use_gmtime then b'd' else b'D'
letter (env_field option) = b'E'
letter relative_field = b'r'
letter (hostname_field fqdn) = if fqdn then b'H' else b'h'
letter (mdc_field option) = b'X'
letter ndc_field = b'x'

-- No letter stands for `NDC_CONVERTER`.
abbrev pub has_letter : Field → Bool
has_letter (plain ndc_converter) = false
has_letter field = true

unfoldable pub option_of : Field → Option (Option Text)
option_of (plain type) = none
option_of (logger_field option) = some option
option_of (date_field use_gmtime option) = some option
option_of (env_field option) = some option
option_of relative_field = none
option_of (hostname_field fqdn) = none
option_of (mdc_field option) = some option
option_of ndc_field = none

abbrev pub braced : Option Text → Text
braced none = []
braced (some option) = b'{' ∷ (option ++ codes "}")

-- The text behind the letter of a field.
abbrev pub render_option : Option (Option Text) → Text
render_option none = []
render_option (some option) = braced option

abbrev pub starts_brace : Text → Bool
starts_brace [] = false
starts_brace (c ∷ s) = c == b'{'

-- An option has no closing brace; a field that may have one and has none is not followed by an
-- opening brace.
abbrev pub IsOption : Option (Option Text) → Text → Type 0
IsOption none rest = Unit
IsOption (some none) rest = starts_brace rest ≡ false
IsOption (some (some option)) rest = Lacks b'}' option

abbrev pub or_empty : Option Text → Text
or_empty none = []
or_empty (some option) = option

extract_option-braced :
    (option : Option Text) (rest : Text)
    → IsOption (some option) rest
    → extract_option (braced option ++ rest) ≡ (or_empty option, rest)
unfolding extract_option
extract_option-braced none [] i = refl
extract_option-braced none (c ∷ rest) i = rw i refl
extract_option-braced (some option) rest i =
    rw (append_assoc option (codes "}") rest, cut_at-Lacks b'}' [] option rest i) refl

module _ (atoi : Text → ℤ) (get_hostname : Bool → Option Text) (depth : ℕ) where
  -- The converter that a field stands for.
  unfoldable pub field_converter : FormattingInfo → Field → Converter
  unfolding int_of_u32
  field_converter info (plain type) = basic info type
  field_converter info (logger_field option) =
      logger info (if is_empty (or_empty option) then pos 0 else atoi (or_empty option))
  field_converter info (date_field use_gmtime option) =
      date info (if is_empty (or_empty option) then default_format else or_empty option) use_gmtime
  field_converter info (env_field option) = env info (or_empty option)
  field_converter info relative_field = relative_timestamp info
  field_converter info (hostname_field fqdn) =
      hostname info (elim (get_hostname fqdn) [ none ↦ codes "-" | some name ↦ name ])
  field_converter info (mdc_field option) = mdc info (or_empty option)
  field_converter info ndc_field = ndc info (int_of_u32 depth)

  pub make_converter-field :
      (info : FormattingInfo) (list : List Converter) (st : ParserState) (lit : Text)
      (field : Field) (rest : Text)
      → has_letter field ≡ true
      → IsOption (option_of field) rest
      → make_converter atoi get_hostname
          (at depth st info list lit)
          (letter field)
          (render_option (option_of field) ++ rest)
        ≡ (field_converter info field, rest)
  unfolding make_converter letter option_of field_converter extract_precision_option
  make_converter-field info list st lit (plain thread_converter) rest h i = refl
  make_converter-field info list st lit (plain thread2_converter) rest h i = refl
  make_converter-field info list st lit (plain process_converter) rest h i = refl
  make_converter-field info list st lit (plain loglevel_converter) rest h i = refl
  make_converter-field info list st lit (plain ndc_converter) rest h i = cc
  make_converter-field info list st lit (plain message_converter) rest h i = refl
  make_converter-field info list st lit (plain newline_converter) rest h i = refl
  make_converter-field info list st lit (plain basename_converter) rest h i = refl
  make_converter-field info list st lit (plain file_converter) rest h i = refl
  make_converter-field info list st lit (plain line_converter) rest h i = refl
  make_converter-field info list st lit (plain full_location_converter) rest h i = refl
  make_converter-field info list st lit (plain function_converter) rest h i = refl
  make_converter-field info list st lit (logger_field option) rest h i =
      rw (extract_option-braced option rest i) refl
  make_converter-field info list st lit (date_field true option) rest h i =
      rw (extract_option-braced option rest i) refl
  make_converter-field info list st lit (date_field false option) rest h i =
      rw (extract_option-braced option rest i) refl
  make_converter-field info list st lit (env_field option) rest h i =
      rw (extract_option-braced option rest i) refl
  make_converter-field info list st lit relative_field rest h i = refl
  make_converter-field info list st lit (hostname_field true) rest h i = refl
  make_converter-field info list st lit (hostname_field false) rest h i = refl
  make_converter-field info list st lit (mdc_field option) rest h i =
      rw (extract_option-braced option rest i) refl
  make_converter-field info list st lit ndc_field rest h i = refl

-- A letter ends the width of its field, and is no percent sign.
letter_plain : (field : Field) → (is_letter (letter field) && not (letter field == b'%')) ≡ true
unfolding letter
letter_plain (plain type) =
    elim type as (λ k. (is_letter (letter (plain k)) && not (letter (plain k) == b'%')) ≡ true) [
      | thread_converter ↦ refl
      | thread2_converter ↦ refl
      | process_converter ↦ refl
      | loglevel_converter ↦ refl
      | ndc_converter ↦ refl
      | message_converter ↦ refl
      | newline_converter ↦ refl
      | basename_converter ↦ refl
      | file_converter ↦ refl
      | line_converter ↦ refl
      | full_location_converter ↦ refl
      | function_converter ↦ refl
    ]
letter_plain (logger_field option) = refl
letter_plain (date_field true option) = refl
letter_plain (date_field false option) = refl
letter_plain (env_field option) = refl
letter_plain relative_field = refl
letter_plain (hostname_field true) = refl
letter_plain (hostname_field false) = refl
letter_plain (mdc_field option) = refl
letter_plain ndc_field = refl

pub letter-is_letter : (field : Field) → is_letter (letter field) ≡ true
letter-is_letter field = ground (arith, letter_plain field)

pub letter-percent : (field : Field) → (letter field == b'%') ≡ false
letter-percent field = ground (arith, letter_plain field)
