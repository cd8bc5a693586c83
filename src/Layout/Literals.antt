-- ===== src/Layout/Literals.antt =====
-- A pattern layout whose pattern is text writes that text.
use mathlib.Core.List.{append-nil}
use mathlib.Core.Path.{subst}
use log4cplus.Common.{
  ℕ, ◌^◌, ◌%◌, ◌<◌, ◌≡◌, refl, ◌∙◌, Bool, false, Option, some, List, [], ◌∷◌, Text, is_empty,
  length, ℤ, negsuc, leb_ℤ, Bool-cases, inl, inr, arith,
}
use log4cplus.Event.{LoggingEvent}
use log4cplus.Layout.{reset, format_and_append}
use log4cplus.Layout.Converter.{Converter, literal, Surroundings, convert, format_event}
use log4cplus.Layout.Parser.{init, parse}
use log4cplus.Layout.Parser.Patterns.Pieces.{
  text, IsPattern, render_pattern, converters_of, parse-render_pattern,
}
use log4cplus.Layout.Parser.Patterns.Texts.{escaped}
use log4cplus.Socket.Codec.{int_of_u32}

-- A literal is neither cut nor filled.
pub format_and_append-reset : (s : Text) → length s < 2 ^ 64 → format_and_append reset s ≡ s
unfolding format_and_append
format_and_append-reset s h =
    elim (Bool-cases (leb_ℤ (negsuc 0) (int_of_u32 (length s % 2 ^ 32)))) [
      | inl e ↦ ground (arith, h, e)
      | inr e ↦ ground (arith, h, e, append-nil s)
    ]

init-parse :
    (atoi : Text → ℤ) (get_hostname : Bool → Option Text) (pattern : Text) (depth fuel : ℕ)
    (pc : Converter) (converters : List Converter)
    → parse atoi get_hostname depth pattern fuel ≡ some (pc ∷ converters)
    → init atoi get_hostname pattern depth fuel ≡ some (pc ∷ converters)
unfolding init
init-parse atoi get_hostname pattern depth fuel pc converters e = rw (e, init) refl

-- A layout made from text that is not empty, with its percent signs doubled, writes that text for
-- every event.
pub format_event-escaped :
    (atoi : Text → ℤ) (get_hostname : Bool → Option Text) (depth : ℕ) (t : Text)
    (around : Surroundings) (ev : LoggingEvent)
    → is_empty t ≡ false
    → length t < 2 ^ 64
    → (init atoi get_hostname (escaped t) depth (length (escaped t)) ≡ some (literal t ∷ []))
      × (format_event around ev (literal t ∷ []) ≡ t)
unfolding IsPattern render_pattern converters_of format_event convert
format_event-escaped atoi get_hostname depth [] around ev n h = cc
format_event-escaped atoi get_hostname depth (c ∷ t) around ev n h =
    let pattern = escaped (c ∷ t) in
    let parsed = parse-render_pattern atoi get_hostname depth (text (c ∷ t) ∷ []) tt in
    (
      init-parse atoi get_hostname pattern depth (length pattern) (literal (c ∷ t)) [] (
          subst (λ s. parse atoi get_hostname depth s (length s) ≡ some (literal (c ∷ t) ∷ []))
            (append-nil pattern) parsed),
      append-nil (format_and_append reset (c ∷ t)) ∙ format_and_append-reset (c ∷ t) h,
    )
