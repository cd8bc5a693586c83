-- ===== src/Socket/Reading.antt =====
-- What the read functions make of bytes that the append functions wrote.
use mathlib.Core.Path.{subst}
use mathlib.Core.List.{append_assoc}
use native.Mathlib.Nat.{add-zero}
use log4cplus.Common.{
  ℕ, zero, suc, ◌+◌, ◌%◌, ◌^◌, ◌≤◌, ◌<◌, ◌≡◌, refl, sym, ap, ◌∙◌, List, [], ◌∷◌, ◌++◌, Text, length,
  take, drop, length-append, take-length_append, drop-length_append, arith,
}
use log4cplus.Socket.Codec.{be_bytes, be_value, length-be_bytes, be_value-byte, be_value-int}
use log4cplus.Socket.Writing.{wire_int, wire_string}
use log4cplus.Socket.{
  SocketBuffer, Read, value, ◌>>=◌, advance, read_unsigned, read_byte, read_int, read_string,
  read_string_body, read_chars,
}

-- Where the bytes lie ahead, whole, `m` gives `a` and moves past them.
pub record Decodes {ℓ} {A : Type ℓ} (m : SocketBuffer → Read A) (bytes : List ℕ) (a : A)
    : Type ℓ where
  pub at :
      (b : SocketBuffer) (rest : List ℕ)
      → b.pos + length bytes ≤ b.maxsize
      → drop b.pos b.buffer ≡ bytes ++ rest
      → m b ≡ value a (advance (length bytes) b)

drop-nil : (n : ℕ) → drop {A = ℕ} n [] ≡ []
drop-nil zero = refl
drop-nil (suc n) = refl

zero-add' : (n : ℕ) → 0 + n ≡ n
zero-add' n = omega arith

suc-add : (p n : ℕ) → suc p + n ≡ suc (p + n)
suc-add p n = omega arith

drop-drop : (p n : ℕ) (l : List ℕ) → drop (p + n) l ≡ drop n (drop p l)
drop-drop zero n l = ap (λ (k : ℕ). drop k l) (zero-add' n)
drop-drop (suc p) n [] = drop-nil (suc p + n) ∙ sym (drop-nil n)
drop-drop (suc p) n (x ∷ l) = ap (λ (k : ℕ). drop k (x ∷ l)) (suc-add p n) ∙ drop-drop p n l

drop-advance :
    (b : SocketBuffer) (xs rest : List ℕ)
    → drop b.pos b.buffer ≡ xs ++ rest
    → drop (b.pos + length xs) b.buffer ≡ rest
drop-advance b xs rest e =
    drop-drop b.pos (length xs) b.buffer ∙ ap (drop (length xs)) e ∙ drop-length_append xs rest

module _ {ℓ κ} {A : Type ℓ} {B : Type κ} where
  pub bind-Decodes :
      (m : SocketBuffer → Read A) (f : A → SocketBuffer → Read B) (xs ys : List ℕ) (a : A) (c : B)
      → Decodes m xs a
      → Decodes (f a) ys c
      → Decodes (m >>= f) (xs ++ ys) c
  bind-Decodes m f xs ys a c dm df = record {
    at = λ b rest fits ahead.
        let ahead' : drop b.pos b.buffer ≡ xs ++ (ys ++ rest) = ahead ∙ append_assoc xs ys rest in
        let first = dm.at b (ys ++ rest) (omega (arith, length-append xs ys)) ahead' in
        let second =
          df.at (advance (length xs) b) rest (omega (arith, length-append xs ys))
            (drop-advance b xs (ys ++ rest) ahead') in
        ground (arith, first, second, length-append xs ys);
  }

pub read_unsigned-Decodes :
    (width : ℕ) (bytes : List ℕ)
    → length bytes ≡ width
    → 0 < width
    → Decodes (read_unsigned width) bytes (be_value 0 bytes)
unfolding read_unsigned
read_unsigned-Decodes width bytes e h = record {
  at = λ b rest fits ahead.
      ground
        (arith, e, ahead, ap (λ (n : ℕ). take n (bytes ++ rest)) e, take-length_append bytes rest);
}

pub read_int-Decodes : (v : ℕ) → v < 2 ^ 32 → Decodes read_int (wire_int v) v
read_int-Decodes v h =
    subst (Decodes read_int (wire_int v)) (be_value-int v h)
      (read_unsigned-Decodes 4 (wire_int v) (length-be_bytes 4 v) (omega arith))

pub read_byte-Decodes : (v : ℕ) → v < 256 → Decodes read_byte (be_bytes 1 v) v
read_byte-Decodes v h =
    subst (Decodes read_byte (be_bytes 1 v)) (be_value-byte v h)
      (read_unsigned-Decodes 1 (be_bytes 1 v) (length-be_bytes 1 v) (omega arith))

value_here : (b : SocketBuffer) (s : Text) → value s b ≡ value s (advance 0 b)
value_here b s = ap (λ (p : ℕ). value s (record b { pos = p })) (sym (add-zero b.pos))

read_string_body-Decodes :
    (s : Text) → length s < 2 ^ 32 → Decodes (read_string_body 1 (length s % 2 ^ 32)) s s
unfolding read_string_body read_chars
read_string_body-Decodes [] h = record { at = λ b rest fits ahead. value_here b [] }
read_string_body-Decodes (c ∷ s) h = record {
  at = λ b rest fits ahead.
      let same : length (c ∷ s) % 2 ^ 32 ≡ length (c ∷ s) = omega arith in
      rw same (ground (arith, ahead, take-length_append (c ∷ s) rest));
}

-- A string that appendString wrote, of fewer than 2^32 characters, is read back.
pub read_string-Decodes : (s : Text) → length s < 2 ^ 32 → Decodes (read_string 1) (wire_string s) s
unfolding read_string
read_string-Decodes s h =
    bind-Decodes read_int (read_string_body 1) (wire_int (length s % 2 ^ 32)) s (length s % 2 ^ 32)
      s (read_int-Decodes (length s % 2 ^ 32) (omega arith)) (read_string_body-Decodes s h)
