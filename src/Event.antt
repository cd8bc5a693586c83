-- ===== src/Event.antt =====
-- include/log4cplus/spi/loggingevent.h: the fields of `InternalLoggingEvent` that the modelled code
-- reads. The time stamp is split into seconds and microseconds; `mdc` is the copied MDC map.
pub mod Caching
use log4cplus.Common.{ℕ, Text, ℤ, none, some, []}
use log4cplus.Common.Map.{Map, find}

pub record LoggingEvent : Type 0 where
  pub logger_name : Text
  pub ll : ℤ
  pub ndc : Text
  pub mdc : Map Text
  pub message : Text
  pub thread : Text
  pub thread2 : Text
  pub seconds : ℕ
  pub microseconds : ℕ
  pub file : Text
  pub line : ℤ
  pub function : Text

-- `InternalLoggingEvent::getMDC`: a missing key gives the empty string.
unfoldable pub get_mdc : LoggingEvent → Text → Text
unfolding find
get_mdc ev key = elim (find key ev.mdc) [ none ↦ [] | some value ↦ value ]
