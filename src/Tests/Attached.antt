-- ===== src/Tests/Attached.antt =====
-- Lists of appenders, and a formatted field.
use log4cplus.Common.{
  ℕ, ◌≡◌, refl, true, [], ◌∷◌, Text, codes, length, ltb, max, pos, if◌then◌else◌, ◌==◌,
}
use log4cplus.Hierarchy.Children.{mem}
use log4cplus.Attachable.Members.{distinct, removes_named, change, stays, change_lem}
use log4cplus.Layout.{FormattingInfo, format_and_append, width_of}
use log4cplus.Layout.Width.{length-format_and_append}

abbrev name : ℕ → Text
name a = if a == 1 then codes "A" else codes "B"

two_distinct : distinct (1 ∷ 2 ∷ []) ≡ true
unfolding distinct mem
two_distinct = refl

change_lem_example :
    (distinct (change name (removes_named (codes "B")) (1 ∷ 2 ∷ [])) ≡ true)
    × ((b : ℕ)
        → mem b (change name (removes_named (codes "B")) (1 ∷ 2 ∷ []))
          ≡ stays name (removes_named (codes "B")) b (1 ∷ 2 ∷ []))
change_lem_example = change_lem name (removes_named (codes "B")) (1 ∷ 2 ∷ []) two_distinct

abbrev info : FormattingInfo
info = record { min_len = pos 6; max_len = 9; left_align = true; trim_start = true }

length-format_and_append_example :
    length (format_and_append info (codes "INFO"))
    ≡ (if ltb 9 (length (codes "INFO")) then 9 else max (length (codes "INFO")) (width_of (pos 6)))
length-format_and_append_example = length-format_and_append info (codes "INFO")
