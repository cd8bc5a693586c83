-- ===== src/Log4jUdp.antt =====
-- src/log4judpappender.cxx: the escaping of XML and the message of `Log4jUdpAppender`.
--
-- `is_control` is the C library's, and `hex` is what the standard library writes for a number in two
-- hexadecimal digits.
pub mod Escaping
use log4cplus.Common.{
  ℕ, zero, suc, ◌+◌, Bool, true, false, List, [], ◌∷◌, ◌++◌, Text, codes, ◌==◌, if◌then◌else◌,
}
use log4cplus.Event.{LoggingEvent}

module _ (is_control : ℕ → Bool) (hex : ℕ → Text) where
  unfoldable pub escaped : ℕ → Text
  escaped ch =
      if ch == b'<'
      then codes "&lt;"
      else if ch == b'>'
      then codes "&gt;"
      else if ch == b'&'
      then codes "&amp;"
      else if ch == b'\''
      then codes "&apos;"
      else if ch == b'"'
      then codes "&quot;"
      else if is_control ch
      then codes "&#x" ++ (hex ch ++ codes ";")
      else ch ∷ []

  unfoldable pub output_xml_escaped : Text → Text
  unfolding escaped
  output_xml_escaped [] = []
  output_xml_escaped (ch ∷ str) = escaped ch ++ output_xml_escaped str
