-- ===== src/TimeHelper/Fractions.antt =====
-- The fractions of seconds that `%q` and `%Q` write.
use log4cplus.Common.{
  for_range, for_range_lem, ℕ, ◌+◌, ◌/◌, ◌%◌, ◌<◌, ◌≡◌, refl, Bool, true, ◌&&◌, [], ◌∷◌, ◌++◌, Text,
  length, take, drop, ap, ◌∙◌, ◌*◌, length-append, pos, leb, ◌==◌, if◌then◌else◌, arith,
}
use log4cplus.StringHelper.{convert_integer_to_string}
use log4cplus.StringHelper.Decimal.{value_of}
use log4cplus.TimeHelper.{padding_zeros, build_q_value, build_uc_q_value}

three_digits : ℕ → Text
three_digits n =
    let q = convert_integer_to_string 64 (pos n) in
    if leb (length q) 2 then padding_zeros (length q) ++ q else q

reads_back : ℕ → Bool
unfolding three_digits value_of
reads_back n = (length (three_digits n) == 3) && (value_of 0 (three_digits n) == n)

three_digits_table : for_range reads_back 0 1000 ≡ true
unfolding for_range reads_back three_digits convert_integer_to_string
three_digits_table = refl

three_digits_lem :
    (n : ℕ) → n < 1000 → (length (three_digits n) ≡ 3) × (value_of 0 (three_digits n) ≡ n)
unfolding reads_back
three_digits_lem n h =
    ground (arith, for_range_lem reads_back 0 1000 three_digits_table n (omega arith) h)

uc_q_lem :
    (usec : ℕ)
    → build_uc_q_value usec ≡ three_digits (usec / 1000) ++ (b'.' ∷ three_digits (usec % 1000))
unfolding build_uc_q_value three_digits
uc_q_lem usec = ground (arith, three_digits_lem (usec % 1000))

split_at_three :
    (s rest : Text) → length s ≡ 3 → (take 3 (s ++ rest) ≡ s) × (drop 4 (s ++ (b'.' ∷ rest)) ≡ rest)
split_at_three (a ∷ b ∷ c ∷ []) rest h = (refl, refl)
split_at_three [] rest h = absurd (omega (arith, h))
split_at_three (a ∷ []) rest h = absurd (omega (arith, h))
split_at_three (a ∷ b ∷ []) rest h = absurd (omega (arith, h))
split_at_three (a ∷ b ∷ c ∷ d ∷ s) rest h = absurd (omega (arith, h))

-- `%q` writes three characters, which read as the milliseconds, and `%Q` seven, of which the first
-- three read as the milliseconds and the last three as the microseconds of the millisecond: nothing
-- of the fraction of the second is lost.
pub build_q_value_lem :
    (usec : ℕ)
    → usec < 1000000
    → (length (build_q_value usec) ≡ 3)
      × (value_of 0 (build_q_value usec) ≡ usec / 1000)
      × (length (build_uc_q_value usec) ≡ 7)
      × (value_of 0 (take 3 (build_uc_q_value usec)) * 1000
            + value_of 0 (drop 4 (build_uc_q_value usec))
          ≡ usec)
unfolding build_q_value
build_q_value_lem usec h =
    let whole = three_digits_lem (usec / 1000) (omega (arith, h)) in
    let part = three_digits_lem (usec % 1000) (omega arith) in
    let q : build_q_value usec ≡ three_digits (usec / 1000) = unfold three_digits in refl in
    let first =
      split_at_three (three_digits (usec / 1000)) (b'.' ∷ three_digits (usec % 1000)) whole.0 in
    let last = split_at_three (three_digits (usec / 1000)) (three_digits (usec % 1000)) whole.0 in
    let total = length-append (three_digits (usec / 1000)) (b'.' ∷ three_digits (usec % 1000)) in
    (
      ap length q ∙ whole.0,
      ap (value_of 0) q ∙ whole.1,
      rw (uc_q_lem usec) (omega (arith, total, whole.0, part.0)),
      rw (uc_q_lem usec) (rw (first.0, last.1) (omega (arith, whole.1, part.1))),
    )
