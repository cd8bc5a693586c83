-- ===== src/TimeHelper/Directives.antt =====
-- What `getFormattedTime` hands to strftime.
use log4cplus.Common.{ℕ, ◌≡◌, ◌≢◌, ◌∙◌, sym, false, List, [], ◌∷◌, ◌++◌, Text, All, arith}
use log4cplus.TimeHelper.{walk, directive}
use mathlib.Core.List.{append_assoc, append-nil}

-- Pieces of a format: a character, or a percent sign and the character behind it.
pub data Piece : Type 0 where
  plain : ℕ → Piece
  percent : ℕ → Piece

abbrev pub IsPlain : Piece → Type 0
IsPlain (plain c) = c ≢ b'%'
IsPlain (percent c) = Unit {0}

unfoldable pub spell : List Piece → Text
spell [] = []
spell (plain c ∷ ps) = c ∷ spell ps
spell (percent c ∷ ps) = b'%' ∷ c ∷ spell ps

unfoldable pub expand : ℕ → List Piece → Text
expand time [] = []
expand time (plain c ∷ ps) = c ∷ expand time ps
expand time (percent c ∷ ps) = directive time c ++ expand time ps

walk-spell :
    (time : ℕ) (ps : List Piece) (ret : Text)
    → All IsPlain ps
    → walk time false (spell ps) ret ≡ ret ++ expand time ps
unfolding walk spell expand
walk-spell time [] ret h = sym (append-nil ret)
walk-spell time (plain c ∷ ps) ret (h, rest) = ground (
  arith,
  h,
  walk-spell time ps (ret ++ (c ∷ [])) rest,
  append_assoc ret (c ∷ []) (expand time ps),
)
walk-spell time (percent c ∷ ps) ret (h, rest) =
    walk-spell time ps (ret ++ directive time c) rest
    ∙ append_assoc ret (directive time c) (expand time ps)

-- A format of plain characters and of percent signs with the character behind each reaches strftime
-- with each `%q`, `%Q` and `%s` replaced by its value and all else as it was; a percent sign that is
-- doubled does not start a directive.
pub walk_lem :
    (time : ℕ) (ps : List Piece) → All IsPlain ps → walk time false (spell ps) [] ≡ expand time ps
walk_lem time ps h = walk-spell time ps [] h
