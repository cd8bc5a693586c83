-- ===== src/Tests/Rollovers.antt =====
-- Files of a rolling appender.
use log4cplus.Common.{
  ◌≤◌, ◌<◌, ◌≡◌, ◌⊎◌, refl, true, false, none, some, [], ◌∷◌, codes, length, ◌==◌, if◌then◌else◌,
  arith,
}
use log4cplus.Rolling.{Rolling, append}
use log4cplus.Rolling.Backups.{rolls, fresh, rolls_lem, append_lem}

-- The log file and backup 2 exist, backup 1 is missing.
abbrev gap : Rolling
gap = record {
  files = λ k. if k == 0 then some (codes "new") else if k == 2 then some (codes "old") else none;
  is_open = true;
}

rolls_lem_example :
    (rolls 2 (codes "c" ∷ codes "b" ∷ codes "a" ∷ []) fresh).files 2 ≡ some (codes "b")
rolls_lem_example = rolls_lem 1 (codes "c" ∷ codes "b" ∷ codes "a" ∷ []) 2

append_lem_example :
    (((append false 5 3 (codes "line") gap).files 0 ≡ some (codes "newline"))
      × (length (codes "newline") ≤ 5))
    ⊎ (((append false 5 3 (codes "line") gap).files 0 ≡ some [])
        × ((append false 5 3 (codes "line") gap).files 1 ≡ some (codes "newline"))
        × (5 < length (codes "newline")))
append_lem_example = append_lem 5 2 (codes "line") gap (codes "new") refl (omega arith)
