-- ===== src/Syslog/Priorities.antt =====
-- The priority of a message.
use Prim.Native.Nat.{bit_or}
use log4cplus.Common.{
  ℕ, ◌+◌, ◌*◌, ◌/◌, ◌%◌, ◌≤◌, ◌<◌, ◌≡◌, refl, Bool, true, ◌&&◌, List, [], ◌∷◌, Text, All, for_range,
  for_range_lem, ℤ, ◌≤ℤ◌, ◌==◌, arith,
}
use log4cplus.Syslog.{get_sys_log_level, facilities, find_facility, parse_facility}

-- A facility's code is a multiple of 8 below 192.
abbrev IsFacility : ℕ → Type 0
IsFacility f = (f % 8 ≡ 0) × (f / 8 < 24)

find_facility-IsFacility :
    (text : Text) (table : List (Text × ℕ))
    → All (λ e. e.1 < 24) table
    → IsFacility (find_facility text table)
unfolding find_facility
find_facility-IsFacility text [] h = (refl, omega arith)
find_facility-IsFacility text ((name, number) ∷ rest) (small, h) =
    let (whole, below) = find_facility-IsFacility text rest h in ground (arith, whole, below, small)

parse_facility-IsFacility : (text : Text) → IsFacility (parse_facility text)
unfolding parse_facility
parse_facility-IsFacility text =
    let found = find_facility-IsFacility text facilities (omega arith) in ground (arith, found)

level_below : (ll : ℤ) → get_sys_log_level ll < 8
unfolding get_sys_log_level
level_below ll = ground arith

splits : ℕ → Bool
splits x =
    (bit_or (x % 8) (x / 8 * 8) % 8 == x % 8) && (bit_or (x % 8) (x / 8 * 8) / 8 * 8 == x / 8 * 8)

splits_table : for_range splits 0 192 ≡ true
unfolding for_range splits
splits_table = refl

-- The priority of a message says its level and its facility, for every level and every text that
-- names the facility, and is below 192.
pub priority_lem :
    (ll : ℤ) (text : Text)
    → (bit_or (get_sys_log_level ll) (parse_facility text) % 8 ≡ get_sys_log_level ll)
      × (bit_or (get_sys_log_level ll) (parse_facility text) / 8 * 8 ≡ parse_facility text)
      × (bit_or (get_sys_log_level ll) (parse_facility text) < 192)
unfolding splits
priority_lem ll text =
    let level = level_below ll in
    let (whole, below) = parse_facility-IsFacility text in
    let x = parse_facility text + get_sys_log_level ll in
    let low : x % 8 ≡ get_sys_log_level ll = omega (arith, level, whole) in
    let high : x / 8 * 8 ≡ parse_facility text = omega (arith, level, whole) in
    let checked =
      for_range_lem splits 0 192 splits_table x (omega arith)
        (omega (arith, level, whole, below)) in
    let both = (rw (low, high) at checked) in ground (arith, both, level, whole, below)

-- An event at a higher log level has a number of syslog that is not larger, which is at least as urgent.
pub get_sys_log_level_mono : (a b : ℤ) → a ≤ℤ b → get_sys_log_level b ≤ get_sys_log_level a
unfolding get_sys_log_level
get_sys_log_level_mono a b h = ground (arith, h)
