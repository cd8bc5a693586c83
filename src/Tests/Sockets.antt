-- ===== src/Tests/Sockets.antt =====
-- An event that is sent.
use log4cplus.Common.{◌<◌, ◌≡◌, refl, none, some, [], ◌∷◌, codes, length, take, pos, arith}
use log4cplus.Event.{LoggingEvent}
use log4cplus.Socket.Codec.{u32_of_int, be_bytes, be_value}
use log4cplus.Socket.RoundTrip.{IsSendable, arrived, read-convert, read_string_overrun}
use log4cplus.Socket.{
  SocketBuffer, new_buffer, received, convert_to_buffer, read_from_buffer, read_string, value,
  fault, advance, append_byte, append_int, append_string, append_bytes,
}

abbrev event : LoggingEvent
event = record {
  logger_name = codes "a.b";
  ll = pos 20000;
  ndc = codes "n";
  mdc = [];
  message = codes "full";
  thread = codes "7";
  thread2 = [];
  seconds = 5;
  microseconds = 6;
  file = codes "d";
  line = pos 12;
  function = codes "w";
}

abbrev written : SocketBuffer
written = elim (convert_to_buffer (new_buffer 70) event (codes "srv")) [
  | some b ↦ b
  | none ↦ new_buffer 0
]

sendable : IsSendable event (codes "srv")
sendable = record {
  server_name = omega arith;
  logger_name = omega arith;
  ll = omega arith;
  ndc = omega arith;
  message = omega arith;
  thread = omega arith;
  seconds = omega arith;
  microseconds = omega arith;
  file = omega arith;
  line = omega arith;
  function = omega arith;
}

written_run : convert_to_buffer (new_buffer 70) event (codes "srv") ≡ some written
unfolding convert_to_buffer new_buffer append_byte append_int append_string append_bytes be_bytes
    u32_of_int
written_run = refl

read-convert_example :
    read_from_buffer (received (take written.size written.buffer))
    ≡ value (arrived event (codes "srv")) (
        advance
          (length (take written.size written.buffer))
          (received (take written.size written.buffer)))
read-convert_example = read-convert 70 event (codes "srv") written sendable written_run

five : 0 < be_value 0 (0 ∷ 0 ∷ 0 ∷ 5 ∷ [])
unfolding be_value
five = omega arith

read_string_overrun_example : read_string 1 (received (0 ∷ 0 ∷ 0 ∷ 5 ∷ [])) ≡ fault
read_string_overrun_example = read_string_overrun (received (0 ∷ 0 ∷ 0 ∷ 5 ∷ [])) refl five
