-- ===== src/TimeBased/Patterns/Fields.antt =====
-- The fields of a date pattern as a table, against the conversions and the units of the loop.
use log4cplus.Common.{
  ℕ, ◌≡◌, refl, Bool, true, false, ◌&&◌, ◌||◌, List, [], ◌∷◌, Text, codes, max, ltb, All, ◌==◌,
  if◌then◌else◌, Bool-cases, inl, inr, arith,
}
use mathlib.Core.Path.{subst}
use log4cplus.Schedule.{DailyRollingFileSchedule, monthly, weekly, daily, hourly, minutely}
use log4cplus.TimeBased.Patterns.{Units, conversion, mark, finest}

-- A letter that stands there `count` times, or also more often, the conversion of strftime that it
-- means, and the place of its unit in the list of schedules, which is 0 for a unit that asks for none.
pub record Field : Type 0 where
  pub letter : ℕ
  pub count : ℕ
  pub longer : Bool
  pub means : Text
  pub unit : ℕ

abbrev field : ℕ → ℕ → Bool → Text → ℕ → Field
field letter count longer means unit = record {
  letter = letter;
  count = count;
  longer = longer;
  means = means;
  unit = unit;
}

abbrev pub fields : List Field
fields =
    field b'y' 2 false (codes "%y") 0
    ∷ field b'y' 4 false (codes "%Y") 0
    ∷ field b'Y' 2 false (codes "%g") 0
    ∷ field b'Y' 4 false (codes "%G") 0
    ∷ field b'M' 2 false (codes "%m") 0
    ∷ field b'M' 3 false (codes "%b") 0
    ∷ field b'M' 4 true (codes "%B") 0
    ∷ field b'w' 2 false (codes "%W") 1
    ∷ field b'D' 3 false (codes "%j") 2
    ∷ field b'd' 2 false (codes "%d") 2
    ∷ field b'E' 3 false (codes "%a") 2
    ∷ field b'E' 4 true (codes "%A") 2
    ∷ field b'u' 1 false (codes "%u") 2
    ∷ field b'a' 2 false (codes "%p") 0
    ∷ field b'H' 2 false (codes "%H") 3
    ∷ field b'h' 2 false (codes "%I") 3
    ∷ field b'm' 2 false (codes "%M") 4
    ∷ field b's' 2 false (codes "%S") 0
    ∷ field b'z' 1 false (codes "%Z") 0
    ∷ field b'Z' 1 false (codes "%z") 0
    ∷ []

abbrev pub is_field : ℕ → ℕ → Field → Bool
is_field c len f = c == f.letter && (len == f.count || (f.longer && ltb f.count len))

-- What a run of `len` times the character c means by the table: a letter of the table that stands
-- there a number of times that the table does not have means nothing, and another character itself.
abbrev pub meaning : List Field → Bool → ℕ → ℕ → Text
meaning [] known c len = if known then [] else c ∷ []
meaning (f ∷ fs) known c len =
    let rest = meaning fs (known || c == f.letter) c len in
    if is_field c len f then f.means else rest

abbrev pub unit_of : List Field → ℕ → ℕ → ℕ
unit_of [] c len = 0
unit_of (f ∷ fs) c len = let rest = unit_of fs c len in if is_field c len f then f.unit else rest

abbrev pub schedule_at : ℕ → DailyRollingFileSchedule
schedule_at unit =
    if unit == 4
    then minutely
    else if unit == 3
    then hourly
    else if unit == 2
    then daily
    else if unit == 1
    then weekly
    else monthly

-- What holds of each letter and of every character that is none of them holds of all characters.
by_letter_at :
    (P : ℕ → Type 0) (ls : List ℕ)
    → All P ls
    → (c : ℕ) → (All (λ l. (c == l) ≡ false) ls → P c)
    → P c
by_letter_at P [] ps c other = other tt
by_letter_at P (l ∷ ls) (p, ps) c other = elim (Bool-cases (c == l)) [
  | inl e ↦ let same : l ≡ c = ground (arith, e) in subst P same p
  | inr n ↦ by_letter_at P ls ps c (λ h. other (n, h))
]

by_letter :
    (P : ℕ → Type 0) (ls : List ℕ)
    → All P ls
    → ((c : ℕ) → All (λ l. (c == l) ≡ false) ls → P c)
    → (c : ℕ) → P c
by_letter P ls ps other c = by_letter_at P ls ps c (other c)

abbrev letters : List ℕ
letters = codes "yYMwDdEuaHhmszZ"

pub conversion-meaning : (len c : ℕ) → conversion c len ≡ meaning fields false c len
unfolding conversion
conversion-meaning len =
    by_letter (λ c. conversion c len ≡ meaning fields false c len) letters
      (
        ground arith,
        (
          ground arith,
          (
            ground arith,
            (
              ground arith,
              (
                ground arith,
                (
                  ground arith,
                  (
                    ground arith,
                    (
                      ground arith,
                      (
                        ground arith,
                        (
                          ground arith,
                          (
                            ground arith,
                            (ground arith, (ground arith, (ground arith, (ground arith, tt)))),
                          ),
                        ),
                      ),
                    ),
                  ),
                ),
              ),
            ),
          ),
        ),
      )
      (λ c others.
        let (
          n0,
          (
            n1,
            (n2, (n3, (n4, (n5, (n6, (n7, (n8, (n9, (n10, (n11, (n12, (n13, (n14, h))))))))))))),
          ),
        ) =
          others in
        rw (n0, n1, n2, n3, n4, n5, n6, n7, n8, n9, n10, n11, n12, n13, n14) refl)

-- The finest unit that has been found.
abbrev pub found : Units → ℕ
found u = max (if u.has_minute then 4 else 0) (
    max (if u.has_hour then 3 else 0)
      (max (if u.has_day then 2 else 0) (if u.has_week then 1 else 0)))

pub finest-found : (u : Units) → finest u ≡ schedule_at (found u)
unfolding finest
finest-found u = ground arith

pub mark-found :
    (len : ℕ) (u : Units) (c : ℕ) → found (mark c len u) ≡ max (unit_of fields c len) (found u)
unfolding mark
mark-found len u =
    by_letter (λ c. found (mark c len u) ≡ max (unit_of fields c len) (found u)) letters
      (
        ground arith,
        (
          ground arith,
          (
            ground arith,
            (
              ground arith,
              (
                ground arith,
                (
                  ground arith,
                  (
                    ground arith,
                    (
                      ground arith,
                      (
                        ground arith,
                        (
                          ground arith,
                          (
                            ground arith,
                            (ground arith, (ground arith, (ground arith, (ground arith, tt)))),
                          ),
                        ),
                      ),
                    ),
                  ),
                ),
              ),
            ),
          ),
        ),
      )
      (λ c others.
        let (
          n0,
          (
            n1,
            (n2, (n3, (n4, (n5, (n6, (n7, (n8, (n9, (n10, (n11, (n12, (n13, (n14, h))))))))))))),
          ),
        ) =
          others in
        rw (n0, n1, n2, n3, n4, n5, n6, n7, n8, n9, n10, n11, n12, n13, n14) (ground arith))
