-- ===== src/Env/Paths.antt =====
-- When the splitting of a path ends.
use log4cplus.Common.{
  ℕ, zero, suc, ◌≡◌, refl, sym, ◌∙◌, true, false, none, some, List, [], ◌∷◌, ◌++◌, Text, codes,
  length, leb, arith,
}
use log4cplus.Env.{
  split_loop, split_into_components, without_empty, remove_empty, is_absolute, expand_relative_path,
  recognize, split_path,
}

recognize-diverges : (fuel : ℕ) → recognize fuel (codes "/") ([] ∷ []) ≡ none
unfolding recognize remove_empty without_empty expand_relative_path split_into_components split_loop
recognize-diverges zero = refl
recognize-diverges (suc fuel) = recognize-diverges fuel

-- With the root as the current directory the splitting of the root never ends.
pub split_path-diverges : (fuel : ℕ) → split_path fuel (codes "/") (codes "/") ≡ none
unfolding split_path split_into_components split_loop
split_path-diverges fuel = recognize-diverges fuel

is_absolute-append : (a b : List Text) → is_absolute a ≡ true → is_absolute (a ++ b) ≡ true
is_absolute-append [] b h = absurd (ground (arith, h))
is_absolute-append (t ∷ []) b h = absurd (ground (arith, h))
is_absolute-append (t ∷ u ∷ ts) b h = h

recognize-absolute :
    (fuel : ℕ) (cwd : Text) (components : List Text)
    → is_absolute components ≡ true
    → recognize (suc fuel) cwd components
      ≡ some (remove_empty 1 components, 1, leb 2 (length (remove_empty 1 components)))
unfolding recognize
recognize-absolute fuel cwd components h = ground (arith, h)

recognize-relative :
    (fuel : ℕ) (cwd : Text) (components : List Text)
    → is_absolute components ≡ false
    → recognize (suc fuel) cwd components
      ≡ recognize fuel cwd (expand_relative_path cwd (remove_empty 0 components))
unfolding recognize
recognize-relative fuel cwd components h = ground (arith, h)

-- In a current directory that is below the root a relative path is split like the absolute path
-- it stands for, and two rounds of the loop are enough.
pub split_path-relative :
    (fuel : ℕ) (cwd path : Text)
    → is_absolute (split_into_components cwd) ≡ true
    → is_absolute (split_into_components path) ≡ false
    → split_path (suc (suc fuel)) cwd path
      ≡ recognize 1 cwd (split_into_components cwd ++ remove_empty 0 (split_into_components path))
unfolding split_path expand_relative_path
split_path-relative fuel cwd path rooted relative =
    let own = split_into_components path in
    let whole = split_into_components cwd ++ remove_empty 0 own in
    let absolute = is_absolute-append (split_into_components cwd) (remove_empty 0 own) rooted in
    recognize-relative (suc fuel) cwd own relative
    ∙ (recognize-absolute fuel cwd whole absolute ∙ sym (recognize-absolute 0 cwd whole absolute))
