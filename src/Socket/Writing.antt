-- ===== src/Socket/Writing.antt =====
-- What the append functions write: exactly the encoding, or the exception.
use log4cplus.Common.{
  ℕ, ◌+◌, ◌%◌, ◌^◌, ◌≤◌, ◌<◌, ◌≡◌, refl, sym, ap, ◌∙◌, Option, none, some, List, [], ◌++◌, Text,
  length, take, drop, length-append, length-take, length-drop, length-replicate, take-length_append,
  ◌⊎◌, inl, inr, arith,
}
use mathlib.Core.List.{append_assoc}
use mathlib.Core.Path.{subst}
use native.Mathlib.Decide.{dec_le}
use log4cplus.Event.{LoggingEvent}
use log4cplus.Socket.Codec.{be_bytes, length-be_bytes, u32_of_int}
use log4cplus.Socket.{
  SocketBuffer, new_buffer, overwrite, append_bytes, append_byte, append_int, append_string,
  then_append, convert_to_buffer, message_version,
}

-- The bytes up to the position are the output so far.
pub record Wrote (out : List ℕ) (b : SocketBuffer) : Type 0 where
  pub whole : length b.buffer ≡ b.maxsize
  pub pos : b.pos ≡ length out
  pub size : b.size ≡ length out
  pub written : take b.pos b.buffer ≡ out
  pub room : length out ≤ b.maxsize

-- `m` writes the bytes if they fit, and throws if they do not.
pub record Appends (m : SocketBuffer → Option SocketBuffer) (bytes : List ℕ) : Type 0 where
  pub fits :
      (b : SocketBuffer) (out : List ℕ)
      → Wrote out b
      → length out + length bytes ≤ b.maxsize
      → (b' : SocketBuffer) × (m b ≡ some b') × Wrote (out ++ bytes) b' × (b'.maxsize ≡ b.maxsize)
  pub full :
      (b : SocketBuffer) (out : List ℕ)
      → Wrote out b
      → b.maxsize < length out + length bytes
      → m b ≡ none

take-append_le : (xs ys : List ℕ) (n : ℕ) → n ≡ length xs → take n (xs ++ ys) ≡ xs
take-append_le xs ys n e = rw e (take-length_append xs ys)

overwrite-length :
    (l bytes : List ℕ) (at : ℕ)
    → at + length bytes ≤ length l
    → length (overwrite l at bytes) ≡ length l
overwrite-length l bytes at h = omega (
  arith,
  length-append (take at l) (bytes ++ drop (at + length bytes) l),
  length-append bytes (drop (at + length bytes) l),
  length-take at l,
  length-drop (at + length bytes) l,
)

overwrite-take :
    (l bytes : List ℕ) (at : ℕ)
    → at + length bytes ≤ length l
    → take (at + length bytes) (overwrite l at bytes) ≡ take at l ++ bytes
overwrite-take l bytes at h =
    ap (take (at + length bytes))
      (sym (append_assoc (take at l) bytes (drop (at + length bytes) l)))
    ∙ take-append_le (take at l ++ bytes) (drop (at + length bytes) l) (at + length bytes)
        (omega (arith, length-append (take at l) bytes, length-take at l))

pub append_bytes-Appends : (bytes : List ℕ) → Appends (append_bytes bytes) bytes
unfolding append_bytes
append_bytes-Appends bytes = record {
  fits = λ b out w h. (
    record b {
      buffer = overwrite b.buffer b.pos bytes;
      pos = b.pos + length bytes;
      size = b.pos + length bytes;
    },
    ground (arith, w.pos),
    record {
      whole = overwrite-length b.buffer bytes b.pos (omega (arith, w.whole, w.pos)) ∙ w.whole;
      pos = omega (arith, w.pos, length-append out bytes);
      size = omega (arith, w.pos, length-append out bytes);
      written =
          overwrite-take b.buffer bytes b.pos (omega (arith, w.whole, w.pos))
          ∙ ap (λ o. o ++ bytes) w.written;
      room = omega (arith, length-append out bytes);
    },
    refl,
  );
  full = λ b out w h. ground (arith, w.pos);
}

then_append-some :
    (m k : SocketBuffer → Option SocketBuffer) (b b₁ : SocketBuffer)
    → m b ≡ some b₁
    → then_append m k b ≡ k b₁
then_append-some m k b b₁ e = ground (arith, e)

then_append-none :
    (m k : SocketBuffer → Option SocketBuffer) (b : SocketBuffer)
    → m b ≡ none
    → then_append m k b ≡ none
then_append-none m k b e = ground (arith, e)

pub then-Appends :
    (m k : SocketBuffer → Option SocketBuffer) (xs ys : List ℕ)
    → Appends m xs
    → Appends k ys
    → Appends (then_append m k) (xs ++ ys)
then-Appends m k xs ys am ak = record {
  fits = λ b out w h.
      let (b₁, run, w₁, same) = am.fits b out w (omega (arith, length-append xs ys)) in
      let (b₂, run₂, w₂, same₂) =
        ak.fits b₁ (out ++ xs) w₁
          (omega (arith, same, length-append xs ys, length-append out xs)) in
      (
        b₂,
        then_append-some m k b b₁ run ∙ run₂,
        subst (λ o. Wrote o b₂) (append_assoc out xs ys) w₂,
        same₂ ∙ same,
      );
  full = λ b out w h. elim (dec_le (length out + length xs) b.maxsize) [
    | no over ↦ then_append-none m k b (am.full b out w (omega arith))
    | yes fits ↦
        let (b₁, run, w₁, same) = am.fits b out w fits in
        then_append-some m k b b₁ run
        ∙ ak.full b₁ (out ++ xs) w₁ (omega (arith, same, length-append xs ys, length-append out xs))
  ];
}

-- The encodings of a number and of a string.
abbrev pub wire_int : ℕ → List ℕ
wire_int v = be_bytes 4 v

abbrev pub wire_string : Text → List ℕ
wire_string s = wire_int (length s % 2 ^ 32) ++ s

append_int-Appends : (v : ℕ) → Appends (append_int v) (wire_int v)
unfolding append_int
append_int-Appends v = append_bytes-Appends (be_bytes 4 v)

append_byte-Appends : (v : ℕ) → Appends (append_byte v) (be_bytes 1 v)
unfolding append_byte
append_byte-Appends v = append_bytes-Appends (be_bytes 1 v)

length-wire_string : (s : Text) → length (wire_string s) ≡ length s + 4
length-wire_string s =
    omega
      (arith, length-append (wire_int (length s % 2 ^ 32)) s, length-be_bytes 4 (length s % 2 ^ 32))

-- The check at the start of `appendString` is the one that the two writes would make.
append_string-Appends : (s : Text) → Appends (append_string s) (wire_string s)
unfolding append_string
append_string-Appends s =
    let both =
      then-Appends (append_int (length s % 2 ^ 32)) (append_bytes s) (wire_int (length s % 2 ^ 32))
        s (append_int-Appends (length s % 2 ^ 32)) (append_bytes-Appends s) in
    record {
      fits = λ b out w h.
          let (b', run, w', same) = both.fits b out w h in
          (b', ground (arith, run, w.pos, length-wire_string s), w', same);
      full = λ b out w h. ground (arith, w.pos, length-wire_string s);
    }

-- The bytes of a message, field by field.
unfoldable pub wire : LoggingEvent → Text → List ℕ
wire ev server =
    be_bytes 1 message_version
    ++ (be_bytes 1 1
        ++ (wire_string server
            ++ (wire_string ev.logger_name
                ++ (wire_int (u32_of_int ev.ll)
                    ++ (wire_string ev.ndc
                        ++ (wire_string ev.message
                            ++ (wire_string ev.thread
                                ++ (wire_int (ev.seconds % 2 ^ 32)
                                    ++ (wire_int (ev.microseconds % 2 ^ 32)
                                        ++ (wire_string ev.file
                                            ++ (wire_int (u32_of_int ev.line)
                                                ++ wire_string ev.function)))))))))))

convert-Appends :
    (ev : LoggingEvent) (server : Text)
    → Appends (λ b. convert_to_buffer b ev server) (wire ev server)
unfolding convert_to_buffer wire
convert-Appends ev server = then-Appends _ _ _ _ (append_byte-Appends message_version) (
    then-Appends _ _ _ _ (append_byte-Appends 1) (
      then-Appends _ _ _ _ (append_string-Appends server) (
        then-Appends _ _ _ _ (append_string-Appends ev.logger_name) (
          then-Appends _ _ _ _ (append_int-Appends (u32_of_int ev.ll)) (
            then-Appends _ _ _ _ (append_string-Appends ev.ndc) (
              then-Appends _ _ _ _ (append_string-Appends ev.message) (
                then-Appends _ _ _ _ (append_string-Appends ev.thread) (
                  then-Appends _ _ _ _ (append_int-Appends (ev.seconds % 2 ^ 32)) (
                    then-Appends _ _ _ _ (append_int-Appends (ev.microseconds % 2 ^ 32)) (
                      then-Appends _ _ _ _ (append_string-Appends ev.file) (
                        then-Appends _ _ _ _ (append_int-Appends (u32_of_int ev.line))
                          (append_string-Appends ev.function))))))))))))

new_buffer-Wrote : (maxsize : ℕ) → Wrote [] (new_buffer maxsize)
unfolding new_buffer
new_buffer-Wrote maxsize = record {
  whole = length-replicate maxsize 0;
  pos = refl;
  size = refl;
  written = refl;
  room = omega arith;
}

-- On a new buffer convertToBuffer succeeds exactly when the fields' encodings fit together; the
-- bytes written are then these encodings, one after the other, and the size is their length.
pub convert_to_buffer-wire :
    (maxsize : ℕ) (ev : LoggingEvent) (server : Text)
    → (length (wire ev server) ≤ maxsize
        × ((b : SocketBuffer) × (convert_to_buffer (new_buffer maxsize) ev server ≡ some b)
            × (take b.size b.buffer ≡ wire ev server)
            × (b.size ≡ length (wire ev server))))
      ⊎ ((maxsize < length (wire ev server))
          × (convert_to_buffer (new_buffer maxsize) ev server ≡ none))
convert_to_buffer-wire maxsize ev server =
    let c = convert-Appends ev server in
    let n = new_buffer maxsize in
    let w = new_buffer-Wrote maxsize in
    elim (dec_le (length (wire ev server)) maxsize) [
      | yes fits ↦
          let (b, run, w', same) = c.fits n [] w (unfold new_buffer in omega arith) in
          inl (
            fits,
            (b, run, ap (λ (k : ℕ). take k b.buffer) (w'.size ∙ sym w'.pos) ∙ w'.written, w'.size),
          )
      | no over ↦ inr (omega arith, c.full n [] w (unfold new_buffer in omega arith))
    ]
