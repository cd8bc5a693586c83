-- ===== src/Syslog/Frames.antt =====
-- The frames of messages that are sent by TCP.
use log4cplus.Common.{
  ℕ, ◌+◌, ◌-◌, ◌*◌, ◌^◌, ◌<◌, ◌≡◌, refl, ap, ◌∙◌, true, false, [], ◌∷◌, ◌++◌, Text, All, codes,
  length, take, drop, pos, take-length_append, drop-length_append, ◌==◌, arith,
}
use mathlib.Core.List.{append_assoc}
use log4cplus.StringHelper.{convert_integer_to_string}
use log4cplus.StringHelper.Decimal.{value_of, convert-value_of, IsDigit}
use log4cplus.Syslog.{framed}

-- How a receiver takes a frame off a stream: digits up to a space, and as many characters.
unfoldable pub read_frame : ℕ → Text → Text × Text
read_frame n [] = ([], [])
read_frame n (c ∷ s) = elim (c == b' ') [
  | true ↦ (take n s, drop n s)
  | false ↦ read_frame (n * 10 + (c - b'0')) s
]

read_frame-digits :
    (n : ℕ) (ds rest : Text)
    → All IsDigit ds
    → read_frame n (ds ++ (b' ' ∷ rest)) ≡ (take (value_of n ds) rest, drop (value_of n ds) rest)
unfolding read_frame value_of
read_frame-digits n [] rest h = refl
read_frame-digits n (c ∷ ds) rest (digit, h) =
    ground (arith, digit, read_frame-digits (n * 10 + (c - b'0')) ds rest h)

-- A receiver takes a framed message off a stream as it was, with the rest of the stream as it was.
pub read_frame-framed :
    (message rest : Text)
    → length message < 2 ^ 64
    → read_frame 0 (framed message ++ rest) ≡ (message, rest)
unfolding framed
read_frame-framed message rest h =
    let (value, ds) = convert-value_of (length message) h in
    let size = convert_integer_to_string 64 (pos (length message)) in
    ap (read_frame 0) (append_assoc size (codes " " ++ message) rest)
    ∙ (read_frame-digits 0 size (message ++ rest) ds
        ∙ (ap (λ n. (take n (message ++ rest), drop n (message ++ rest))) value
            ∙ ground (arith, take-length_append message rest, drop-length_append message rest)))
