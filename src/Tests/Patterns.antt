-- ===== src/Tests/Patterns.antt =====
-- Patterns of layouts.
use log4cplus.Common.{
  All, if◌then◌else◌, ◌<◌, ◌^◌, ◌≡◌, refl, Bool, true, false, Option, none, some, List, [], ◌∷◌,
  Text, codes, text_eq, length, take, ℤ, pos, arith,
}
use log4cplus.Event.{LoggingEvent}
use log4cplus.Layout.Converter.{
  Converter, literal, loglevel_converter, Surroundings, convert_logger, format_event,
}
use log4cplus.Layout.Converter.{convert, convert_basic}
use log4cplus.LogLevel.{to_string, to_string_by, default_to_string}
use log4cplus.Layout.Parser.Patterns.Fields.{field_converter}
use log4cplus.Layout.Fixed.{TtccLayout, format_ttcc}
use log4cplus.Layout.Fixed.AsPatterns.{
  IsFree, ttcc_converters, pieces_of, thread_pieces, level_pieces, category_pieces, context_pieces,
  format_ttcc-pattern,
}
use log4cplus.Layout.Literals.{format_event-escaped}
use log4cplus.Layout.Parser.Patterns.Fields.{plain, logger_field, option_of}
use log4cplus.Layout.Parser.Patterns.Pieces.{
  Piece, text, field, render_pattern, IsPattern, converters_of, parse-render_pattern, parse-ends,
}
use log4cplus.Layout.Parser.Patterns.Texts.{escaped}
use log4cplus.Layout.Parser.Patterns.Widths.{FieldWidth, min_length_of, max_length_of}
use log4cplus.Layout.Parser.{init, parse}
use log4cplus.Layout.Precision.{dotted, IsComponents, convert_logger-dotted}
use log4cplus.LogLevel.{new_manager}
use log4cplus.Property.Cuts.{lacks-Lacks}
use log4cplus.StringHelper.Decimal.{value_of}

abbrev atoi : Text → ℤ
atoi s = if text_eq s (codes "2") then pos 2 else pos 0

abbrev get_hostname : Bool → Option Text
get_hostname fqdn = if fqdn then some (codes "host.org") else some (codes "host")

abbrev narrow : FieldWidth
narrow = record { left = true; min_digits = codes "5"; maximum = some (true, b'1', codes "0") }

abbrev free : FieldWidth
free = record { left = false; min_digits = []; maximum = none }

abbrev pieces : List Piece
pieces =
    text (codes "100% ")
    ∷ field narrow (plain loglevel_converter)
    ∷ text (codes "{")
    ∷ field free (logger_field (some (codes "2")))
    ∷ []

pieces-IsPattern : IsPattern pieces
unfolding value_of option_of IsPattern
pieces-IsPattern = (
  ((refl, tt), omega arith, ((refl, (refl, tt)), omega arith)),
  refl,
  tt,
  ((tt, omega arith, tt), refl, lacks-Lacks b'}' (codes "2") refl, tt),
)

parse-render_pattern_example :
    parse atoi get_hostname 0 (render_pattern pieces) (length (render_pattern pieces))
    ≡ some (converters_of atoi get_hostname 0 [] pieces)
parse-render_pattern_example = parse-render_pattern atoi get_hostname 0 pieces pieces-IsPattern

parse-ends_example :
    (converters : List Converter) × (parse atoi get_hostname 0 (codes "%-5.%q%d{") 9
      ≡ some converters)
parse-ends_example = parse-ends atoi get_hostname 0 (codes "%-5.%q%d{") 9 (omega arith)

abbrev around : Surroundings
around = record {
  translators = new_manager;
  process_id = 7;
  get_env_var = λ key. none;
  format_time = λ format ev use_gmtime. format;
  format_relative = λ ev. codes "0";
}

abbrev event : LoggingEvent
event = record {
  logger_name = codes "a.b";
  ll = pos 20000;
  ndc = [];
  mdc = [];
  message = codes "hello";
  thread = codes "1";
  thread2 = codes "1";
  seconds = 0;
  microseconds = 0;
  file = [];
  line = pos 1;
  function = [];
}

format_event-escaped_example :
    (init atoi get_hostname (escaped (codes "100%")) 0 (length (escaped (codes "100%")))
      ≡ some (literal (codes "100%") ∷ []))
    × (format_event around event (literal (codes "100%") ∷ []) ≡ codes "100%")
format_event-escaped_example =
    format_event-escaped atoi get_hostname 0 (codes "100%") around event refl (omega arith)

abbrev components : List Text
components = codes "view" ∷ codes "app" ∷ []

components-IsComponents : IsComponents (codes "main" ∷ components)
components-IsComponents = (
  (refl, lacks-Lacks b'.' (codes "main") refl),
  ((refl, lacks-Lacks b'.' (codes "view") refl), ((refl, lacks-Lacks b'.' (codes "app") refl), tt)),
)

short : length (dotted (codes "main" ∷ components)) < 2 ^ 63
unfolding dotted
short = omega arith

convert_logger-dotted_example :
    convert_logger (pos 2) (dotted (codes "main" ∷ components))
    ≡ dotted (take 2 (codes "main" ∷ components))
convert_logger-dotted_example =
    convert_logger-dotted 1 (codes "main") components components-IsComponents short

abbrev ttcc : TtccLayout
ttcc = record {
  date_format = [];
  use_gmtime = false;
  thread_printing = true;
  category_prefixing = false;
  context_printing = false;
}

ttcc-IsFree : All (IsFree around event) (ttcc_converters atoi get_hostname ttcc)
unfolding IsFree ttcc_converters converters_of pieces_of thread_pieces level_pieces category_pieces
    context_pieces field_converter convert convert_basic to_string to_string_by default_to_string
    min_length_of max_length_of
ttcc-IsFree = (
  (refl, omega arith),
  (
    (refl, omega arith),
    (
      (refl, omega arith),
      (
        (refl, omega arith),
        (
          (refl, omega arith),
          ((refl, omega arith), ((refl, omega arith), ((refl, omega arith), tt))),
        ),
      ),
    ),
  ),
)

format_ttcc-pattern_example :
    (parse atoi get_hostname 0
        (render_pattern (pieces_of ttcc))
        (length (render_pattern (pieces_of ttcc)))
      ≡ some (ttcc_converters atoi get_hostname ttcc))
    × (format_event around event (ttcc_converters atoi get_hostname ttcc)
        ≡ format_ttcc around ttcc event)
format_ttcc-pattern_example = format_ttcc-pattern atoi get_hostname around event ttcc tt ttcc-IsFree
