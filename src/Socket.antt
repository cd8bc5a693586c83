-- ===== src/Socket.antt =====
-- src/socketbuffer.cxx, and the wire format of src/socketappender.cxx: the byte buffer in which
-- events travel. The build without UNICODE is modelled: a `tchar` is one byte.
--
-- `buffer` holds the bytes 0 to 255 of the allocated array, so its length is `maxsize`.
pub mod Codec
pub mod Reading
pub mod Writing
pub mod RoundTrip
use log4cplus.Common.{
  ℕ, zero, suc, ◌+◌, ◌-◌, ◌*◌, ◌/◌, ◌%◌, ◌^◌, Bool, true, false, not, ◌||◌, ◌&&◌, Option, none,
  some, List, [], ◌∷◌, ◌++◌, Text, codes, is_empty, length, take, drop, replicate, ltb, leb, ◌==◌,
  if◌then◌else◌, ℤ,
}
use log4cplus.Event.{LoggingEvent}
use Codec.{be_bytes, be_value, u32_of_int, int_of_u32}

pub record SocketBuffer : Type 0 where
  pub maxsize : ℕ
  pub size : ℕ
  pub pos : ℕ
  pub buffer : List ℕ

unfoldable pub new_buffer : ℕ → SocketBuffer
new_buffer maxsize = record { maxsize = maxsize; size = 0; pos = 0; buffer = replicate maxsize 0 }

-- A buffer that holds the bytes that a socket delivered.
abbrev pub received : List ℕ → SocketBuffer
received bytes = record { maxsize = length bytes; size = length bytes; pos = 0; buffer = bytes }

-- What a read gives. `fault`: a string is made from a range that leaves the array, which is
-- undefined behaviour, or the exception of `std::string` if the length is above its maximum.
pub data Read {ℓ} (A : Type ℓ) : Type ℓ where
  value : A → SocketBuffer → Read A
  fault : Read A

infixl 5 ◌>>=◌
abbrev pub ◌>>=◌ {ℓ κ} :
    {A : Type ℓ} {B : Type κ}
    → (SocketBuffer → Read A)
    → (A → SocketBuffer → Read B)
    → SocketBuffer
    → Read B
◌>>=◌ m f b = elim (m b) [ value a b' ↦ f a b' | fault ↦ fault ]

abbrev pub advance : ℕ → SocketBuffer → SocketBuffer
advance n b = record b { pos = b.pos + n }

-- `readByte`, `readShort` and `readInt` for a width of 1, 2 and 4 bytes.
unfoldable pub read_unsigned : ℕ → SocketBuffer → Read ℕ
unfolding be_value
read_unsigned width b =
    if leb b.maxsize b.pos
    then value 0 b
    else if ltb b.maxsize (b.pos + width)
    then value 0 b
    else value (be_value 0 (take width (drop b.pos b.buffer))) (advance width b)

abbrev pub read_byte : SocketBuffer → Read ℕ
read_byte = read_unsigned 1

abbrev pub read_short : SocketBuffer → Read ℕ
read_short = read_unsigned 2

abbrev pub read_int : SocketBuffer → Read ℕ
read_int = read_unsigned 4

-- The loop of `readString` for two-byte characters; a wide character becomes a space.
unfoldable pub read_shorts : ℕ → SocketBuffer → Read Text
unfolding read_unsigned
read_shorts zero b = value [] b
read_shorts (suc n) b = elim (read_short b) [
  | fault ↦ fault
  | value c b' ↦ elim (read_shorts n b') [
    | fault ↦ fault
    | value r b'' ↦ value ((if ltb c 256 then c else b' ') ∷ r) b''
  ]
]

-- `tstring (&buffer[pos], strlen)`
unfoldable pub read_chars : ℕ → SocketBuffer → Read Text
read_chars n b =
    if ltb b.maxsize (b.pos + n) then fault else value (take n (drop b.pos b.buffer)) (advance n b)

-- `readString`; the length that is left is a `size_t`, computed modulo 2^64. (A division by a
-- character size of 0 is guarded by the test before it: then `bufferLen` is 0 and fits.)
unfoldable pub read_string_body : ℕ → ℕ → SocketBuffer → Read Text
unfolding read_shorts read_chars
read_string_body size_of_char strlen b =
    if strlen == 0
    then value [] b
    else if ltb b.maxsize b.pos
    then value [] b
    else let fits = leb (b.pos + strlen * size_of_char) b.maxsize in
      let strlen' =
        if fits then strlen else (b.maxsize + 2 ^ 64 - 1 - b.pos) % 2 ^ 64 / size_of_char in
      if size_of_char == 1
      then read_chars strlen' b
      else if size_of_char == 2
      then read_shorts strlen' b
      else value [] b

unfoldable pub read_string : ℕ → SocketBuffer → Read Text
read_string size_of_char = read_int >>= read_string_body size_of_char

-- `memcpy (buffer + pos, bytes, length)`
abbrev pub overwrite : List ℕ → ℕ → List ℕ → List ℕ
overwrite buffer at bytes = take at buffer ++ (bytes ++ drop (at + length bytes) buffer)

-- The bytes are written at `pos`; `none` is the exception for a write beyond the end.
unfoldable pub append_bytes : List ℕ → SocketBuffer → Option SocketBuffer
append_bytes bytes b =
    if ltb b.maxsize (b.pos + length bytes)
    then none
    else some (record b {
      buffer = overwrite b.buffer b.pos bytes;
      pos = b.pos + length bytes;
      size = b.pos + length bytes;
    })

unfoldable pub append_byte : ℕ → SocketBuffer → Option SocketBuffer
unfolding append_bytes
append_byte val = append_bytes (be_bytes 1 val)

unfoldable pub append_short : ℕ → SocketBuffer → Option SocketBuffer
unfolding append_bytes
append_short val = append_bytes (be_bytes 2 val)

unfoldable pub append_int : ℕ → SocketBuffer → Option SocketBuffer
unfolding append_bytes
append_int val = append_bytes (be_bytes 4 val)

abbrev pub then_append :
    (SocketBuffer → Option SocketBuffer)
    → (SocketBuffer → Option SocketBuffer)
    → SocketBuffer
    → Option SocketBuffer
then_append m k b = elim (m b) [ none ↦ none | some b' ↦ k b' ]

unfoldable pub append_string : Text → SocketBuffer → Option SocketBuffer
unfolding append_int append_bytes
append_string str b =
    if ltb b.maxsize (b.pos + 4 + length str)
    then none
    else then_append (append_int (length str % 2 ^ 32)) (append_bytes str) b

unfoldable pub append_buffer : SocketBuffer → SocketBuffer → Option SocketBuffer
unfolding append_bytes
append_buffer buf = append_bytes (take buf.size buf.buffer)

abbrev pub message_version : ℕ
message_version = 3

-- `convertToBuffer`
unfoldable pub convert_to_buffer : SocketBuffer → LoggingEvent → Text → Option SocketBuffer
unfolding append_byte append_int append_string
convert_to_buffer b ev server =
    (then_append (append_byte message_version) (
        then_append (append_byte 1) (
          then_append (append_string server) (
            then_append (append_string ev.logger_name) (
              then_append (append_int (u32_of_int ev.ll)) (
                then_append (append_string ev.ndc) (
                  then_append (append_string ev.message) (
                    then_append (append_string ev.thread) (
                      then_append (append_int (ev.seconds % 2 ^ 32)) (
                        then_append (append_int (ev.microseconds % 2 ^ 32)) (
                          then_append (append_string ev.file) (
                            then_append (append_int (u32_of_int ev.line))
                              (append_string ev.function)))))))))))))
      b

-- The server's name and the NDC that came with the event.
unfoldable pub joined_ndc : Text → Text → Text
joined_ndc server ndc =
    if is_empty server then ndc else if is_empty ndc then server else server ++ (codes " - " ++ ndc)

-- `readFromBuffer`; another message version is only warned of.
unfoldable pub read_from_buffer : SocketBuffer → Read LoggingEvent
unfolding read_unsigned read_string joined_ndc
read_from_buffer = do
  version ← read_byte
  size_of_char ← read_byte
  server ← read_string size_of_char
  logger_name ← read_string size_of_char
  ll ← read_int
  ndc ← read_string size_of_char
  message ← read_string size_of_char
  thread ← read_string size_of_char
  sec ← read_int
  usec ← read_int
  file ← read_string size_of_char
  line ← read_int
  function ← read_string size_of_char
  value (record {
    logger_name = logger_name;
    ll = int_of_u32 ll;
    ndc = joined_ndc server ndc;
    mdc = [];
    message = message;
    thread = thread;
    thread2 = [];
    seconds = sec;
    microseconds = usec;
    file = file;
    line = int_of_u32 line;
    function = function;
  })
