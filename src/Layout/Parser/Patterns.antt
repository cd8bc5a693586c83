-- ===== src/Layout/Parser/Patterns.antt =====
-- Patterns of text and fields.
pub mod Texts
pub mod Widths
pub mod WidthRuns
pub mod Fields
pub mod Pieces
use log4cplus.Common.{
  ℕ, Bool, true, false, ◌&&◌, Option, none, some, List, [], ◌∷◌, ◌++◌, Text, codes, is_empty, ◌≡◌,
  ◌<◌, ◌^◌, ◌-◌, ℤ, pos, negsuc, All, if◌then◌else◌, ◌==◌,
}
use log4cplus.Layout.{FormattingInfo}
use log4cplus.Layout.Converter.{
  BasicType, Converter, literal, basic, logger, date, env, relative_timestamp, hostname, mdc, ndc,
}
use log4cplus.Layout.Parser.{Parser, ParserState, is_digit, flushed, default_format}
use log4cplus.Property.Cuts.{Lacks}
use log4cplus.StringHelper.Decimal.{value_of}

-- A parser in a state, with the converters and the literal that it has collected.
abbrev pub at : ℕ → ParserState → FormattingInfo → List Converter → Text → Parser
at depth st info list lit = record {
  formatting_info = info;
  converters = list;
  state = st;
  current_literal = lit;
  ndc_max_depth = depth;
}

abbrev pub widths : ℤ → ℕ → Bool → Bool → FormattingInfo
widths m x l t = record { min_len = m; max_len = x; left_align = l; trim_start = t }

abbrev pub Digits : Text → Type 0
Digits s = All (λ c. is_digit c ≡ true) s
