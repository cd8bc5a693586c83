-- ===== src/Tests/Levels.antt =====
-- Names of levels.
use log4cplus.Common.{
  ℕ, ◌-◌, ◌≡◌, ◌≢◌, refl, ◌&&◌, ◌++◌, some, [], ◌∷◌, codes, map, pos, leb, if◌then◌else◌, arith,
}
use log4cplus.LogLevel.{single, new_manager, push_log_level, from_string}
use log4cplus.LogLevel.Translation.{push_log_level-lower}

abbrev upper : ℕ → ℕ
upper c = if leb 97 c && leb c 122 then c - 32 else c

upper_twice : (c : ℕ) → upper (upper c) ≡ upper c
upper_twice c = ground arith

lower_name : map upper (codes "Note") ≢ codes "Note"
lower_name e = ground (arith, e)

registered :
    push_log_level (pos 25000) (codes "Note") new_manager
    ≡ some (new_manager ++ single (pos 25000) (codes "Note") ∷ [])
unfolding push_log_level
registered = refl

push_log_level-lower_example :
    from_string upper (new_manager ++ single (pos 25000) (codes "Note") ∷ []) (codes "Note")
    ≡ from_string upper new_manager (codes "Note")
push_log_level-lower_example =
    push_log_level-lower upper (pos 25000) (codes "Note") (codes "Note") new_manager
      (new_manager ++ single (pos 25000) (codes "Note") ∷ []) upper_twice lower_name registered
