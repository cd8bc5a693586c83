-- ===== src/Layout/Fixed/AsPatterns.antt =====
-- The fixed layouts as pattern layouts.
use mathlib.Core.List.{append-nil, append_assoc}
use log4cplus.Common.{
  ◌≡◌, ◌<◌, ◌^◌, refl, sym, ap, ◌∙◌, Bool, true, false, Option, none, some, List, [], ◌∷◌, ◌++◌,
  Text, codes, is_empty, length, All, if◌then◌else◌, ℤ, arith,
}
use log4cplus.Event.{LoggingEvent}
use log4cplus.Layout.Converter.{
  Converter, Surroundings, convert, convert_basic, convert_ndc, convert_logger, info_of,
  format_event, thread_converter, loglevel_converter, message_converter, newline_converter,
}
use log4cplus.Layout.Fixed.{TtccLayout, format_context, format_category, format_thread, format_ttcc}
use log4cplus.Layout.Literals.{format_and_append-reset}
use log4cplus.Layout.Parser.Patterns.Fields.{
  Field, plain, logger_field, date_field, relative_field, ndc_field, field_converter, option_of,
}
use log4cplus.Layout.Parser.Patterns.Pieces.{
  Piece, text, field, IsPattern, render_pattern, converters_of, parse-render_pattern,
}
use log4cplus.Layout.Parser.Patterns.Widths.{IsFieldWidth, FieldWidth, info_of_width}
use log4cplus.LogLevel.{to_string}
use log4cplus.Property.Cuts.{Lacks}
use log4cplus.StringHelper.Decimal.{value_of}
use log4cplus.Layout.Parser.{flushed, parse}
use log4cplus.Layout.Parser.Patterns.Texts.{escaped}
use log4cplus.Socket.Codec.{int_of_u32}
use log4cplus.Layout.{reset, format_and_append}

-- What is written for one converter after the other.
unfoldable pub converted : Surroundings → LoggingEvent → List Converter → Text
unfolding convert
converted around ev [] = []
converted around ev (pc ∷ converters) = convert around ev pc ++ converted around ev converters

-- Without widths a layout writes what its converters give.
unfoldable pub IsFree : Surroundings → LoggingEvent → Converter → Type 0
unfolding convert
IsFree around ev pc = (info_of pc ≡ reset) × (length (convert around ev pc) < 2 ^ 64)

format_event-converted :
    (around : Surroundings) (ev : LoggingEvent) (converters : List Converter)
    → All (IsFree around ev) converters
    → format_event around ev converters ≡ converted around ev converters
unfolding format_event converted IsFree
format_event-converted around ev [] a = refl
format_event-converted around ev (pc ∷ converters) ((i, s), rest) =
    ap (λ info. format_and_append info (convert around ev pc) ++ format_event around ev converters)
      i
    ∙ ap (λ t. t ++ format_event around ev converters)
        (format_and_append-reset (convert around ev pc) s)
    ∙ ap (λ t. convert around ev pc ++ t) (format_event-converted around ev converters rest)

abbrev free : FieldWidth
free = record { left = false; min_digits = []; maximum = none }

abbrev message_pieces : List Piece
message_pieces =
    text (codes "- ")
    ∷ field free (plain message_converter)
    ∷ field free (plain newline_converter)
    ∷ []

-- The pieces of a TTCC layout, from the context on, from the category on, from the thread on.
unfoldable pub context_pieces : Bool → List Piece
context_pieces true = text (codes "<") ∷ field free ndc_field ∷ text (codes "> ") ∷ message_pieces
context_pieces false = message_pieces

unfoldable pub category_pieces : Bool → Bool → List Piece
unfolding context_pieces
category_pieces true context =
    field free (logger_field none) ∷ text (codes " ") ∷ context_pieces context
category_pieces false context = context_pieces context

unfoldable pub level_pieces : Bool → Bool → List Piece
unfolding category_pieces
level_pieces category context =
    field free (plain loglevel_converter) ∷ text (codes " ") ∷ category_pieces category context

unfoldable pub thread_pieces : Bool → Bool → Bool → List Piece
unfolding level_pieces
thread_pieces true category context =
    text (codes " [")
    ∷ field free (plain thread_converter)
    ∷ text (codes "] ")
    ∷ level_pieces category context
thread_pieces false category context = text (codes " ") ∷ level_pieces category context

abbrev date_piece : Text → Bool → Field
date_piece [] use_gmtime = relative_field
date_piece (c ∷ s) use_gmtime = date_field use_gmtime (some (c ∷ s))

unfoldable pub pieces_of : TtccLayout → List Piece
unfolding thread_pieces
pieces_of layout =
    field free (date_piece layout.date_format layout.use_gmtime)
    ∷ thread_pieces layout.thread_printing layout.category_prefixing layout.context_printing

free-IsFieldWidth : IsFieldWidth free
unfolding value_of
free-IsFieldWidth = (tt, omega arith, tt)

context-IsPattern : (context : Bool) → IsPattern (context_pieces context)
unfolding IsPattern context_pieces option_of render_pattern
context-IsPattern true = (
  free-IsFieldWidth,
  refl,
  tt,
  ((free-IsFieldWidth, refl, tt, (free-IsFieldWidth, refl, tt, tt))),
)
context-IsPattern false = (free-IsFieldWidth, refl, tt, (free-IsFieldWidth, refl, tt, tt))

category-IsPattern : (category context : Bool) → IsPattern (category_pieces category context)
unfolding IsPattern category_pieces option_of render_pattern escaped
category-IsPattern true context = (free-IsFieldWidth, refl, refl, context-IsPattern context)
category-IsPattern false context = context-IsPattern context

thread-IsPattern :
    (thread category context : Bool) → IsPattern (thread_pieces thread category context)
unfolding IsPattern thread_pieces level_pieces option_of
thread-IsPattern true category context = (
  free-IsFieldWidth,
  refl,
  tt,
  (free-IsFieldWidth, refl, tt, category-IsPattern category context),
)
thread-IsPattern false category context =
    (free-IsFieldWidth, refl, tt, category-IsPattern category context)

dated-IsPattern :
    (date_format : Text) (use_gmtime : Bool) (pieces : List Piece)
    → Lacks b'}' date_format
    → IsPattern pieces
    → IsPattern (field free (date_piece date_format use_gmtime) ∷ pieces)
unfolding IsPattern option_of
dated-IsPattern [] use_gmtime pieces l i = (free-IsFieldWidth, refl, tt, i)
dated-IsPattern (c ∷ s) use_gmtime pieces l i = (free-IsFieldWidth, refl, l, i)

pieces_of-IsPattern :
    (layout : TtccLayout) → Lacks b'}' layout.date_format → IsPattern (pieces_of layout)
unfolding pieces_of
pieces_of-IsPattern layout l =
    dated-IsPattern layout.date_format layout.use_gmtime
      (thread_pieces layout.thread_printing layout.category_prefixing layout.context_printing) l
      (thread-IsPattern layout.thread_printing layout.category_prefixing layout.context_printing)

module _ (atoi : Text → ℤ) (get_hostname : Bool → Option Text) (around : Surroundings)
    (ev : LoggingEvent) where
  -- What pieces give for the event.
  unfoldable meaning : List Piece → Text
  unfolding convert field_converter
  meaning [] = []
  meaning (text t ∷ pieces) = t ++ meaning pieces
  meaning (field w f ∷ pieces) =
      convert around ev (field_converter atoi get_hostname 0 (info_of_width w) f) ++ meaning pieces

  converted-append :
      (front back : List Converter)
      → converted around ev (front ++ back) ≡ converted around ev front ++ converted around ev back
  unfolding converted
  converted-append [] back = refl
  converted-append (a ∷ front) back =
      ap (λ t. convert around ev a ++ t) (converted-append front back)
      ∙ sym (
          append_assoc (convert around ev a) (converted around ev front) (converted around ev back))

  converted-flushed : (lit : Text) → converted around ev (flushed lit) ≡ lit
  unfolding converted convert
  converted-flushed [] = refl
  converted-flushed (c ∷ lit) = append-nil (c ∷ lit)

  converted-converters_of :
      (lit : Text) (pieces : List Piece)
      → converted around ev (converters_of atoi get_hostname 0 lit pieces) ≡ lit ++ meaning pieces
  unfolding converters_of meaning converted
  converted-converters_of lit [] = converted-flushed lit ∙ sym (append-nil lit)
  converted-converters_of lit (text t ∷ pieces) =
      converted-converters_of (lit ++ t) pieces ∙ append_assoc lit t (meaning pieces)
  converted-converters_of lit (field w f ∷ pieces) =
      let pc = field_converter atoi get_hostname 0 (info_of_width w) f in
      converted-append (flushed lit) (pc ∷ converters_of atoi get_hostname 0 [] pieces)
      ∙ ap
          (λ t.
            t
            ++ (convert around ev pc
                ++ converted around ev (converters_of atoi get_hostname 0 [] pieces)))
          (converted-flushed lit)
      ∙ ap (λ t. lit ++ (convert around ev pc ++ t)) (converted-converters_of [] pieces)

  meaning-context :
      (context : Bool)
      → meaning (context_pieces context)
        ≡ (if context then codes "<" ++ (ev.ndc ++ codes "> ") else [])
          ++ (codes "- " ++ (ev.message ++ (10 ∷ [])))
  unfolding meaning context_pieces convert field_converter convert_basic convert_ndc int_of_u32
  meaning-context true =
      ap (λ t. b'<' ∷ t)
        (sym (append_assoc ev.ndc (codes "> ") (codes "- " ++ (ev.message ++ (10 ∷ [])))))
  meaning-context false = refl

  meaning-category :
      (layout : TtccLayout) (category : Bool)
      → meaning (category_pieces category layout.context_printing)
        ≡ (if category then ev.logger_name ++ codes " " else []) ++ format_context layout ev
  unfolding meaning category_pieces convert field_converter convert_logger format_context
  meaning-category layout true =
      ap (λ t. ev.logger_name ++ (b' ' ∷ t)) (meaning-context layout.context_printing)
      ∙ sym (append_assoc ev.logger_name (codes " ") (format_context layout ev))
  meaning-category layout false = meaning-context layout.context_printing

  meaning-level :
      (layout : TtccLayout)
      → meaning (level_pieces layout.category_prefixing layout.context_printing)
        ≡ to_string around.translators ev.ll ++ (codes " " ++ format_category layout ev)
  unfolding meaning level_pieces convert field_converter convert_basic format_category
  meaning-level layout =
      ap (λ t. to_string around.translators ev.ll ++ (b' ' ∷ t))
        (meaning-category layout layout.category_prefixing)

  meaning-thread :
      (layout : TtccLayout) (thread : Bool)
      → meaning (thread_pieces thread layout.category_prefixing layout.context_printing)
        ≡ (if thread then codes " [" ++ (ev.thread ++ codes "] ") else codes " ")
          ++ (to_string around.translators ev.ll ++ (codes " " ++ format_category layout ev))
  unfolding meaning thread_pieces convert field_converter convert_basic
  meaning-thread layout true =
      ap (λ t. codes " [" ++ (ev.thread ++ (codes "] " ++ t))) (meaning-level layout)
      ∙ ap (λ t. codes " [" ++ t)
          (sym (
            append_assoc ev.thread (codes "] ")
              (to_string around.translators ev.ll ++ (codes " " ++ format_category layout ev))))
  meaning-thread layout false = ap (λ t. b' ' ∷ t) (meaning-level layout)

  meaning-date :
      (date_format : Text) (use_gmtime : Bool)
      → convert around ev (
          field_converter atoi get_hostname 0
            (info_of_width free)
            (date_piece date_format use_gmtime))
        ≡ (if is_empty date_format
            then around.format_relative ev
            else around.format_time date_format ev use_gmtime)
  unfolding convert field_converter
  meaning-date [] use_gmtime = refl
  meaning-date (c ∷ s) use_gmtime = refl

  meaning-pieces_of :
      (layout : TtccLayout) → meaning (pieces_of layout) ≡ format_ttcc around layout ev
  unfolding meaning pieces_of format_ttcc format_thread
  meaning-pieces_of layout =
      ap
        (λ t.
          t
          ++ meaning (
              thread_pieces layout.thread_printing layout.category_prefixing
                layout.context_printing))
        (meaning-date layout.date_format layout.use_gmtime)
      ∙ ap
          (λ t.
            (if is_empty layout.date_format
              then around.format_relative ev
              else around.format_time layout.date_format ev layout.use_gmtime)
            ++ t)
          (meaning-thread layout layout.thread_printing)

-- The converters of the pattern for a TTCC layout.
unfoldable pub ttcc_converters : (Text → ℤ) → (Bool → Option Text) → TtccLayout → List Converter
unfolding converters_of pieces_of
ttcc_converters atoi get_hostname layout = converters_of atoi get_hostname 0 [] (pieces_of layout)

-- A TTCC layout writes what the pattern layout with the pattern for its fields writes: the date or
-- the milliseconds, the thread in brackets, the level, the logger, the nested context in angle
-- brackets and the message. The format of the date has no closing brace, and no field is as long as
-- 2 ^ 64.
pub format_ttcc-pattern :
    (atoi : Text → ℤ) (get_hostname : Bool → Option Text) (around : Surroundings)
    (ev : LoggingEvent) (layout : TtccLayout)
    → Lacks b'}' layout.date_format
    → All (IsFree around ev) (ttcc_converters atoi get_hostname layout)
    → (parse atoi get_hostname 0
          (render_pattern (pieces_of layout))
          (length (render_pattern (pieces_of layout)))
        ≡ some (ttcc_converters atoi get_hostname layout))
      × (format_event around ev (ttcc_converters atoi get_hostname layout)
          ≡ format_ttcc around layout ev)
unfolding ttcc_converters
format_ttcc-pattern atoi get_hostname around ev layout l a = (
  parse-render_pattern atoi get_hostname 0 (pieces_of layout) (pieces_of-IsPattern layout l),
  format_event-converted around ev (ttcc_converters atoi get_hostname layout) a
      ∙ converted-converters_of atoi get_hostname around ev [] (pieces_of layout)
      ∙ meaning-pieces_of atoi get_hostname around ev layout,
)
