-- ===== src/Socket/RoundTrip.antt =====
-- An event that convertToBuffer wrote is what readFromBuffer reads.
use mathlib.Core.List.{append-nil}
use log4cplus.Common.{
  ℕ, ◌+◌, ◌%◌, ◌^◌, ◌<◌, ◌≡◌, sym, inl, inr, some, List, [], Text, length, take, drop, arith,
}
use log4cplus.Event.{LoggingEvent}
use log4cplus.Socket.Codec.{
  IsInt, u32_of_int, u32_of_int-lt, int_of_u32, int_of_u32-u32_of_int, be_value,
}
use log4cplus.Socket.Writing.{wire, wire_string, convert_to_buffer-wire}
use log4cplus.Socket.Reading.{
  Decodes, bind-Decodes, read_int-Decodes, read_byte-Decodes, read_string-Decodes,
}
use log4cplus.Socket.{
  SocketBuffer, Read, value, fault, ◌>>=◌, advance, received, new_buffer, read_unsigned, read_int,
  read_string, read_string_body, read_chars, joined_ndc, convert_to_buffer, read_from_buffer,
  message_version,
}

map-Decodes {ℓ κ} :
    {A : Type ℓ} {B : Type κ} (m : SocketBuffer → Read A) (g : A → B) (xs : List ℕ) (a : A)
    → Decodes m xs a
    → Decodes (m >>= λ x. value (g x)) xs (g a)
map-Decodes m g xs a d = record { at = λ b rest fits ahead. ground (arith, d.at b rest fits ahead) }

-- The values that the wire format can carry.
pub record IsSendable (ev : LoggingEvent) (server : Text) : Type 0 where
  pub server_name : length server < 2 ^ 32
  pub logger_name : length ev.logger_name < 2 ^ 32
  pub ll : IsInt ev.ll
  pub ndc : length ev.ndc < 2 ^ 32
  pub message : length ev.message < 2 ^ 32
  pub thread : length ev.thread < 2 ^ 32
  pub seconds : ev.seconds < 2 ^ 32
  pub microseconds : ev.microseconds < 2 ^ 32
  pub file : length ev.file < 2 ^ 32
  pub line : IsInt ev.line
  pub function : length ev.function < 2 ^ 32

-- What arrives: the server's name is joined to the NDC, and the MDC and the second thread name are
-- not sent.
abbrev pub arrived : LoggingEvent → Text → LoggingEvent
arrived ev server = record ev { ndc = joined_ndc server ev.ndc; mdc = []; thread2 = [] }

-- The event as it is read, before the numbers are seen to be those that were sent.
abbrev decoded : LoggingEvent → Text → LoggingEvent
decoded ev server = record ev {
  ll = int_of_u32 (u32_of_int ev.ll);
  ndc = joined_ndc server ev.ndc;
  mdc = [];
  thread2 = [];
  seconds = ev.seconds % 2 ^ 32;
  microseconds = ev.microseconds % 2 ^ 32;
  line = int_of_u32 (u32_of_int ev.line);
}

decoded-arrived :
    (ev : LoggingEvent) (server : Text)
    → IsSendable ev server
    → decoded ev server ≡ arrived ev server
decoded-arrived ev server s = ground (
  arith,
  int_of_u32-u32_of_int ev.ll s.ll,
  int_of_u32-u32_of_int ev.line s.line,
  s.seconds,
  s.microseconds,
)

read_from_buffer-Decodes :
    (ev : LoggingEvent) (server : Text)
    → IsSendable ev server
    → Decodes read_from_buffer (wire ev server) (decoded ev server)
unfolding read_from_buffer wire
read_from_buffer-Decodes ev server s =
    bind-Decodes _ _ _ _ _ _ (read_byte-Decodes message_version (omega arith)) (
      bind-Decodes _ _ _ _ _ _ (read_byte-Decodes 1 (omega arith)) (
        bind-Decodes _ _ _ _ _ _ (read_string-Decodes server s.server_name) (
          bind-Decodes _ _ _ _ _ _ (read_string-Decodes ev.logger_name s.logger_name) (
            bind-Decodes _ _ _ _ _ _ (read_int-Decodes (u32_of_int ev.ll) (u32_of_int-lt ev.ll)) (
              bind-Decodes _ _ _ _ _ _ (read_string-Decodes ev.ndc s.ndc) (
                bind-Decodes _ _ _ _ _ _ (read_string-Decodes ev.message s.message) (
                  bind-Decodes _ _ _ _ _ _ (read_string-Decodes ev.thread s.thread) (
                    bind-Decodes _ _ _ _ _ _ (read_int-Decodes (ev.seconds % 2 ^ 32) (omega arith))
                      (bind-Decodes _ _ _ _ _ _
                        (read_int-Decodes (ev.microseconds % 2 ^ 32) (omega arith))
                        (bind-Decodes _ _ _ _ _ _ (read_string-Decodes ev.file s.file) (
                          bind-Decodes _ _ _ _ _ _
                            (read_int-Decodes (u32_of_int ev.line) (u32_of_int-lt ev.line))
                            (map-Decodes (read_string 1) _ (wire_string ev.function) ev.function
                              (read_string-Decodes ev.function s.function)))))))))))))

-- If convertToBuffer wrote an event into a new buffer, readFromBuffer, on a buffer that holds the
-- bytes written, returns that event and has read every byte: all the fields that are sent come
-- back, the NDC with the server's name joined in front. The strings are shorter than 2^32, the
-- level and the line are in the range of int, the seconds and microseconds below 2^32.
pub read-convert :
    (maxsize : ℕ) (ev : LoggingEvent) (server : Text) (b : SocketBuffer)
    → IsSendable ev server
    → convert_to_buffer (new_buffer maxsize) ev server ≡ some b
    → read_from_buffer (received (take b.size b.buffer))
      ≡ value
          (arrived ev server)
          (advance (length (take b.size b.buffer)) (received (take b.size b.buffer)))
read-convert maxsize ev server b s run = elim (convert_to_buffer-wire maxsize ev server) [
  | inr (_, full) ↦ ground (arith, run, full)
  | inl (_, (b', run', bytes, _)) ↦
      let same : take b.size b.buffer ≡ wire ev server = ground (arith, run, run', bytes) in
      rw (same, ← decoded-arrived ev server s)
        ((read_from_buffer-Decodes ev server s).at (received (wire ev server)) [] (omega arith)
          (sym (append-nil (wire ev server))))
]

overrun_body :
    (strlen : ℕ) (b : SocketBuffer)
    → b.pos ≡ b.maxsize
    → 0 < strlen
    → read_string_body 1 strlen b ≡ fault
unfolding read_string_body read_chars
overrun_body strlen b e h = rw e (ground arith)

read_int_at_end :
    (b : SocketBuffer)
    → b.pos + 4 ≡ b.maxsize
    → read_int b ≡ value (be_value 0 (take 4 (drop b.pos b.buffer))) (advance 4 b)
unfolding read_unsigned
read_int_at_end b e = ground arith

-- Where the length of a string of one-byte characters is the last thing in a buffer and is not 0,
-- readString makes a string of a range that leaves the array.
pub read_string_overrun :
    (b : SocketBuffer)
    → b.pos + 4 ≡ b.maxsize
    → 0 < be_value 0 (take 4 (drop b.pos b.buffer))
    → read_string 1 b ≡ fault
unfolding read_string
read_string_overrun b at_end h = ground (
  arith,
  read_int_at_end b at_end,
  overrun_body (be_value 0 (take 4 (drop b.pos b.buffer))) (advance 4 b) at_end h,
)
