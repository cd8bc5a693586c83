-- ===== src/Property/Reading/Lines.antt =====
-- What a line of a property file is read as.
use mathlib.Core.List.{append_assoc}
use log4cplus.Common.{
  ℕ, ◌≡◌, refl, sym, ap, ◌∙◌, Bool, true, false, not, ◌&&◌, [], ◌∷◌, ◌++◌, Text, codes, text_eq,
  All, ◌==◌, arith,
}
use log4cplus.Property.{has_prefix}
use log4cplus.Property.Cuts.{Lacks, cut_at-Lacks}
use log4cplus.Property.Reading.{
  is_space, trim_leading_ws, trim_trailing_ws, trim_ws, without_cr, ignored, assigned, is_include,
  assignment, read_line,
}

abbrev pub Spaces : Text → Type 0
Spaces s = All (λ c. is_space c ≡ true) s

trim_leading-Spaces : (w s : Text) → Spaces w → trim_leading_ws (w ++ s) ≡ trim_leading_ws s
unfolding trim_leading_ws
trim_leading-Spaces [] s h = refl
trim_leading-Spaces (c ∷ w) s (h, hs) = rw h (trim_leading-Spaces w s hs)

trim_trailing-Spaces : (w : Text) → Spaces w → trim_trailing_ws w ≡ []
unfolding trim_trailing_ws
trim_trailing-Spaces [] h = refl
trim_trailing-Spaces (c ∷ w) (h, hs) = rw (trim_trailing-Spaces w hs, h) refl

trim_trailing-append : (s w : Text) → Spaces w → trim_trailing_ws (s ++ w) ≡ trim_trailing_ws s
unfolding trim_trailing_ws
trim_trailing-append [] w h = trim_trailing-Spaces w h
trim_trailing-append (c ∷ s) w h = rw (trim_trailing-append s w h) refl

trim_trailing-without_cr : (s : Text) → trim_trailing_ws (without_cr s) ≡ trim_trailing_ws s
unfolding trim_trailing_ws without_cr is_space
trim_trailing-without_cr [] = refl
trim_trailing-without_cr (c ∷ []) = ground arith
trim_trailing-without_cr (c ∷ d ∷ s) = rw (trim_trailing-without_cr (d ∷ s)) refl

-- A carriage return is taken off the text behind an equals sign.
without_cr-append : (s t : Text) → without_cr (s ++ (b'=' ∷ t)) ≡ s ++ (b'=' ∷ without_cr t)
unfolding without_cr
without_cr-append [] [] = refl
without_cr-append [] (c ∷ t) = refl
without_cr-append (c ∷ []) t = ap (◌∷◌ c) (without_cr-append [] t)
without_cr-append (c ∷ d ∷ s) t = ap (◌∷◌ c) (without_cr-append (d ∷ s) t)

trim_ws-Spaces : (w s : Text) → Spaces w → trim_ws (w ++ s) ≡ trim_ws s
unfolding trim_ws trim_leading_ws trim_trailing_ws
trim_ws-Spaces [] s h = refl
trim_ws-Spaces (c ∷ w) s (h, hs) = ground (arith, h, trim_ws-Spaces w s hs)

-- Text that trimming leaves as it is, with whitespace around it and a carriage return removed.
trim_ws-value :
    (w s v : Text) → Spaces w → Spaces v → trim_ws s ≡ s → trim_ws (without_cr (w ++ (s ++ v))) ≡ s
unfolding trim_ws
trim_ws-value w s v h h' e =
    ap trim_leading_ws (trim_trailing-without_cr (w ++ (s ++ v)))
    ∙ trim_ws-Spaces w (s ++ v) h
    ∙ ap trim_leading_ws (trim_trailing-append s v h')
    ∙ e

Lacks-append : (x : ℕ) (s t : Text) → Lacks x s → Lacks x t → Lacks x (s ++ t)
Lacks-append x [] t h h' = h'
Lacks-append x (c ∷ s) t (h, hs) h' = (h, Lacks-append x s t hs h')

Spaces-Lacks : (w : Text) → Spaces w → Lacks b'=' w
unfolding is_space
Spaces-Lacks [] h = tt
Spaces-Lacks (c ∷ w) (h, hs) = (ground (arith, h), Spaces-Lacks w hs)

-- A prefix that a key does not have is not made by a text that starts with another character.
has_prefix-foreign :
    (p key : Text) (c : ℕ) (u : Text)
    → Lacks c p
    → has_prefix p key ≡ false
    → has_prefix p (key ++ (c ∷ u)) ≡ false
unfolding text_eq
has_prefix-foreign [] key c u l e = ground (arith, e)
has_prefix-foreign (x ∷ p) [] c u (h, l) e = ground (arith, h)
has_prefix-foreign (x ∷ p) (k ∷ key) c u (h, l) e =
    ground (arith, e, has_prefix-foreign p key c u l)

space-Lacks : (c : ℕ) → is_space c ≡ true → Lacks c (codes "include")
unfolding is_space
space-Lacks c h = (
  ground (arith, h),
  (
    ground (arith, h),
    (
      ground (arith, h),
      (ground (arith, h), (ground (arith, h), (ground (arith, h), (ground (arith, h), tt)))),
    ),
  ),
)

not_include :
    (key gap u : Text)
    → Spaces gap
    → has_prefix (codes "include") key ≡ false
    → has_prefix (codes "include") (key ++ (gap ++ (b'=' ∷ u))) ≡ false
not_include key [] u h e =
    has_prefix-foreign (codes "include") key b'=' u
      (
        omega arith,
        (
          omega arith,
          (omega arith, (omega arith, (omega arith, (omega arith, (omega arith, tt))))),
        ),
      )
      e
not_include key (c ∷ gap) u (h, hs) e =
    has_prefix-foreign (codes "include") key c (gap ++ (b'=' ∷ u)) (space-Lacks c h) e

-- The first character of a key: it is there, no whitespace and no comment sign.
abbrev pub starts_key : Text → Bool
starts_key [] = false
starts_key (c ∷ s) = not (is_space c) && not (c == b'#')

abbrev pub IsKey : Text → Type 0
IsKey key =
    (starts_key key ≡ true)
    × (trim_trailing_ws key ≡ key)
    × Lacks b'=' key
    × (has_prefix (codes "include") key ≡ false)

-- A key and a value with whitespace around them.
unfoldable pub entry_line : Text → Text → Text → Text → Text → Text → Text
entry_line indent key gap gap' value trail =
    indent ++ (key ++ (gap ++ (b'=' ∷ (gap' ++ (value ++ trail)))))

assignment-entry :
    (key gap gap' value trail : Text)
    → IsKey key
    → trim_ws value ≡ value
    → Spaces gap
    → Spaces gap'
    → Spaces trail
    → assignment (without_cr (key ++ (gap ++ (b'=' ∷ (gap' ++ (value ++ trail))))))
      ≡ assigned key value
unfolding assignment
assignment-entry key gap gap' value trail (start, trimmed, lacks, other) v h h' h'' =
    let rest = gap' ++ (value ++ trail) in
    let cut : without_cr (key ++ (gap ++ (b'=' ∷ rest)))
        ≡ (key ++ gap) ++ (b'=' ∷ without_cr rest) =
      ap without_cr (sym (append_assoc key gap (b'=' ∷ rest)))
      ∙ without_cr-append (key ++ gap) rest in
    rw (cut, assignment)
      (rw
        (cut_at-Lacks b'=' [] (key ++ gap) (without_cr rest)
          (Lacks-append b'=' key gap lacks (Spaces-Lacks gap h)))
        (rw (trim_trailing-append key gap h, trimmed, trim_ws-value gap' value trail h' h'' v)
          refl))

not_include-without_cr :
    (key gap rest : Text)
    → Spaces gap
    → has_prefix (codes "include") key ≡ false
    → is_include (without_cr (key ++ (gap ++ (b'=' ∷ rest)))) ≡ false
not_include-without_cr key gap rest h e =
    let cut : without_cr (key ++ (gap ++ (b'=' ∷ rest)))
        ≡ key ++ (gap ++ (b'=' ∷ without_cr rest)) =
      ap without_cr (sym (append_assoc key gap (b'=' ∷ rest)))
      ∙ without_cr-append (key ++ gap) rest
      ∙ append_assoc key gap (b'=' ∷ without_cr rest) in
    rw (cut, not_include key gap (without_cr rest) h e) (ground arith)

trim_leading-key : (key u : Text) → starts_key key ≡ true → trim_leading_ws (key ++ u) ≡ key ++ u
unfolding trim_leading_ws
trim_leading-key [] u e = cc
trim_leading-key (c ∷ key) u e = ground (arith, e)

read_line-key :
    (key u : Text)
    → starts_key key ≡ true
    → is_include (without_cr (key ++ u)) ≡ false
    → read_line (key ++ u) ≡ assignment (without_cr (key ++ u))
unfolding read_line trim_leading_ws
read_line-key [] u e n = cc
read_line-key (c ∷ key) u e n = ground (arith, e, n, trim_leading-key (c ∷ key) u e)

read_line-Spaces : (w s : Text) → Spaces w → read_line (w ++ s) ≡ read_line s
unfolding read_line
read_line-Spaces w s h = rw (trim_leading-Spaces w s h) refl

-- A line with a key and a value assigns it, whatever whitespace, a carriage return included, stands
-- around them.
pub read_line-entry :
    (indent key gap gap' value trail : Text)
    → IsKey key
    → trim_ws value ≡ value
    → Spaces indent
    → Spaces gap
    → Spaces gap'
    → Spaces trail
    → read_line (entry_line indent key gap gap' value trail) ≡ assigned key value
unfolding entry_line
read_line-entry indent key gap gap' value trail k v i h h' h'' =
    let rest = gap' ++ (value ++ trail) in
    read_line-Spaces indent (key ++ (gap ++ (b'=' ∷ rest))) i
    ∙ read_line-key key (gap ++ (b'=' ∷ rest)) k.0 (not_include-without_cr key gap rest h k.3)
    ∙ assignment-entry key gap gap' value trail k v h h' h''

-- A line of whitespace or one that starts with a number sign behind whitespace is ignored.
pub read_line-blank : (w : Text) → Spaces w → read_line w ≡ ignored
unfolding read_line trim_leading_ws
read_line-blank [] h = refl
read_line-blank (c ∷ w) (h, hs) = rw h (read_line-blank w hs)

pub read_line-comment : (w s : Text) → Spaces w → read_line (w ++ (b'#' ∷ s)) ≡ ignored
unfolding read_line trim_leading_ws
read_line-comment w s h = read_line-Spaces w (b'#' ∷ s) h
