-- ===== src/Layout/Parser.antt =====
-- src/patternlayout.cxx: the parser of patterns, `PatternParser`, and `PatternLayout::init`.
--
-- The position is the rest of the pattern, so that "the last character" is one with nothing behind
-- it. `atoi` and `get_hostname` (the repository's `helpers::getHostname`, which asks the system) are
-- parameters. The messages for a bad pattern are not modelled. The minimum length, an `int`, wraps
-- around, which C++ leaves undefined; the maximum length has 64 bits.
pub mod Runs
pub mod Patterns
use log4cplus.Common.{
  ℕ, zero, suc, ◌+◌, ◌-◌, ◌*◌, ◌^◌, ◌%◌, Bool, true, false, ◌&&◌, ◌||◌, Option, none, some, List,
  [], ◌∷◌, ◌++◌, Text, codes, is_empty, length, ℤ, pos, negsuc, leb, ◌==◌, if◌then◌else◌,
}
use log4cplus.Layout.{FormattingInfo, reset}
use log4cplus.Layout.Converter.{
  thread_converter, thread2_converter, process_converter, loglevel_converter, message_converter,
  newline_converter, basename_converter, file_converter, line_converter, full_location_converter,
  function_converter, Converter, literal, basic, logger, date, env, relative_timestamp, hostname,
  mdc, ndc,
}
use log4cplus.Property.{Properties, exists, get_property, cut_at}
use log4cplus.Socket.Codec.{int_of_u32, u32_of_int}

pub data ParserState : Type 0 where
  literal_state : ParserState
  converter_state : ParserState
  dot_state : ParserState
  min_state : ParserState
  max_state : ParserState

pub record Parser : Type 0 where
  pub formatting_info : FormattingInfo
  pub converters : List Converter
  pub state : ParserState
  pub current_literal : Text
  pub ndc_max_depth : ℕ

-- What `extractOption` returns, and the rest of the pattern.
unfoldable pub extract_option : Text → Text × Text
unfolding cut_at
extract_option [] = ([], [])
extract_option (c ∷ rest) =
    if c == b'{'
    then (elim (cut_at (codes "}") rest) [ none ↦ ([], []) | some (r, tail) ↦ (r, tail) ])
    else ([], c ∷ rest)

abbrev pub is_digit : ℕ → Bool
is_digit c = leb b'0' c && leb c b'9'

-- The literal that has been collected, as a converter.
abbrev pub flushed : Text → List Converter
flushed s = if is_empty s then [] else literal s ∷ []

abbrev pub default_format : Text
default_format = codes "%Y-%m-%d %H:%M:%S"

abbrev pub add_literal : ℕ → Parser → Parser
add_literal c p = record p { current_literal = p.current_literal ++ (c ∷ []) }

-- `LITERAL_STATE`
unfoldable pub literal_step : Parser → ℕ → Text → Parser × Text
literal_step p c [] = (add_literal c p, [])
literal_step p c (d ∷ rest) =
    if c == b'%'
    then if d == b'%' then (add_literal c p, rest) else (
      record p {
        converters = p.converters ++ flushed p.current_literal;
        current_literal = c ∷ [];
        state = converter_state;
        formatting_info = reset;
      },
      d ∷ rest,
    )
    else (add_literal c p, d ∷ rest)

-- `DOT_STATE`
unfoldable pub dot_step : Parser → ℕ → Text → Parser × Text
dot_step p c rest =
    let info = p.formatting_info in
    if c == b'-'
    then (record p { formatting_info = record info { trim_start = false } }, rest)
    else if is_digit c
    then (
      record p { formatting_info = record info { max_len = c - b'0' }; state = max_state },
      rest,
    )
    else (record p { state = literal_state }, rest)

module _ (atoi : Text → ℤ) (get_hostname : Bool → Option Text) where
  unfoldable pub extract_precision_option : Text → ℤ × Text
  unfolding extract_option
  extract_precision_option rest =
      let (opt, tail) = extract_option rest in (if is_empty opt then pos 0 else atoi opt, tail)

  -- The converter that `finalizeConverter` makes, and the rest of the pattern.
  unfoldable pub make_converter : Parser → ℕ → Text → Converter × Text
  unfolding extract_option extract_precision_option int_of_u32
  make_converter p c rest =
      let info = p.formatting_info in
      if c == b'b'
      then (basic info basename_converter, rest)
      else if c == b'c'
      then (let (precision, tail) = extract_precision_option rest in (logger info precision, tail))
      else if c == b'd' || c == b'D'
      then (let (opt, tail) = extract_option rest in
          (date info (if is_empty opt then default_format else opt) (c == b'd'), tail))
      else if c == b'E'
      then (let (opt, tail) = extract_option rest in (env info opt, tail))
      else if c == b'F'
      then (basic info file_converter, rest)
      else if c == b'h' || c == b'H'
      then (
        hostname info (elim (get_hostname (c == b'H')) [ none ↦ codes "-" | some name ↦ name ]),
        rest,
      )
      else if c == b'i'
      then (basic info process_converter, rest)
      else if c == b'l'
      then (basic info full_location_converter, rest)
      else if c == b'L'
      then (basic info line_converter, rest)
      else if c == b'm'
      then (basic info message_converter, rest)
      else if c == b'M'
      then (basic info function_converter, rest)
      else if c == b'n'
      then (basic info newline_converter, rest)
      else if c == b'p'
      then (basic info loglevel_converter, rest)
      else if c == b'r'
      then (relative_timestamp info, rest)
      else if c == b't'
      then (basic info thread_converter, rest)
      else if c == b'T'
      then (basic info thread2_converter, rest)
      else if c == b'x'
      then (ndc info (int_of_u32 p.ndc_max_depth), rest)
      else if c == b'X'
      then (let (opt, tail) = extract_option rest in (mdc info opt, tail))
      else (literal p.current_literal, rest)

  unfoldable pub finalize_converter : Parser → ℕ → Text → Parser × Text
  unfolding make_converter
  finalize_converter p c rest =
      let (pc, tail) = make_converter p c rest in
      (
        record p {
          converters = p.converters ++ (pc ∷ []);
          current_literal = [];
          state = literal_state;
          formatting_info = reset;
        },
        tail,
      )

  -- `CONVERTER_STATE`, the literal being extended already.
  unfoldable pub converter_step : Parser → ℕ → Text → Parser × Text
  unfolding finalize_converter
  converter_step p c rest =
      let info = p.formatting_info in
      let final = finalize_converter p c rest in
      if c == b'-'
      then (record p { formatting_info = record info { left_align = true } }, rest)
      else if c == b'.'
      then (record p { state = dot_state }, rest)
      else if is_digit c
      then (
        record p { formatting_info = record info { min_len = pos (c - b'0') }; state = min_state },
        rest,
      )
      else final

  -- `MIN_STATE`
  unfoldable pub min_step : Parser → ℕ → Text → Parser × Text
  unfolding finalize_converter int_of_u32 u32_of_int
  min_step p c rest =
      let info = p.formatting_info in
      let final = finalize_converter p c rest in
      if is_digit c
      then (
        record p {
          formatting_info = record info {
            min_len = int_of_u32 ((u32_of_int info.min_len * 10 + (c - b'0')) % 2 ^ 32);
          };
        },
        rest,
      )
      else if c == b'.'
      then (record p { state = dot_state }, rest)
      else final

  -- `MAX_STATE`
  unfoldable pub max_step : Parser → ℕ → Text → Parser × Text
  unfolding finalize_converter
  max_step p c rest =
      let info = p.formatting_info in
      let final = finalize_converter p c rest in
      if is_digit c
      then (
        record p {
          formatting_info = record info { max_len = (info.max_len * 10 + (c - b'0')) % 2 ^ 64 };
        },
        rest,
      )
      else final

  -- The switch on the state: one round of the loop of `parse` at the character c.
  unfoldable pub step_in : ParserState → Parser → ℕ → Text → Parser × Text
  unfolding literal_step converter_step min_step dot_step max_step
  step_in literal_state p c rest = literal_step p c rest
  step_in converter_state p c rest = converter_step (add_literal c p) c rest
  step_in dot_state p c rest = dot_step (add_literal c p) c rest
  step_in min_state p c rest = min_step (add_literal c p) c rest
  step_in max_state p c rest = max_step (add_literal c p) c rest

  unfoldable pub step : Parser → ℕ → Text → Parser × Text
  unfolding step_in
  step p c rest = step_in p.state p c rest

  -- The loop of `parse`, on fuel.
  unfoldable pub parse_loop : ℕ → Parser → Text → Option Parser
  unfolding step
  parse_loop fuel p [] = some p
  parse_loop zero p (c ∷ rest) = none
  parse_loop (suc fuel) p (c ∷ rest) = let (p', rest') = step p c rest in parse_loop fuel p' rest'

  -- `PatternParser::parse`
  unfoldable pub parse : ℕ → Text → ℕ → Option (List Converter)
  unfolding parse_loop
  parse ndc_max_depth pattern fuel =
      elim (parse_loop fuel
        (record {
          formatting_info = reset;
          converters = [];
          state = literal_state;
          current_literal = [];
          ndc_max_depth = ndc_max_depth;
        })
        pattern) [ none ↦ none | some p ↦ some (p.converters ++ flushed p.current_literal) ]

  -- `PatternLayout::init`: an empty pattern writes the message.
  unfoldable pub init : Text → ℕ → ℕ → Option (List Converter)
  unfolding parse
  init pattern ndc_max_depth fuel = elim (parse ndc_max_depth pattern fuel) [
    | none ↦ none
    | some [] ↦ some (basic reset message_converter ∷ [])
    | some (pc ∷ converters) ↦ some (pc ∷ converters)
  ]

  -- What the constructor from properties does: it throws, or parses the pattern that it found.
  pub data Constructed : Type 0 where
    throws : Constructed
    made : Option (List Converter) → Constructed

  unfoldable pub pattern_layout : (Text → Properties → Option ℕ) → Properties → ℕ → Constructed
  unfolding init exists get_property
  pattern_layout get_uint props fuel =
      let ndc_max_depth : ℕ = elim (get_uint (codes "NDCMaxDepth") props) [
        | none ↦ 0
        | some n ↦ n
      ] in
      if exists (codes "ConversionPattern") props
      then made (init (get_property (codes "ConversionPattern") props) ndc_max_depth fuel)
      else if exists (codes "Pattern") props
      then made (init (get_property (codes "Pattern") props) ndc_max_depth fuel)
      else throws
