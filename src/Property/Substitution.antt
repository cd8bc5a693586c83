-- ===== src/Property/Substitution.antt =====
-- What `substVars` makes of a text.
use log4cplus.Common.{
  ℕ, zero, suc, ◌<◌, ◌≡◌, refl, Bool, true, false, not, ◌||◌, Option, none, some, [], ◌∷◌, ◌++◌,
  Text, codes, text_eq, is_empty, length, if◌then◌else◌, Bool-cases, Option-cases, inl, inr, arith,
}
use log4cplus.Property.Cuts.{length-cut_at, Lacks}
use log4cplus.Property.{
  Properties, Flags, cut_at, replacement_of, Substituted, result, diverges, subst_loop, subst_vars,
}

-- Whether the substitution ended.
abbrev pub ended : Substituted → Bool
ended (result dest changed) = true
ended diverges = false

-- Each round of the loop takes a variable off the rest of the text.
pub subst_loop-ended :
    (env : Text → Option Text) (props : Properties) (flags : Flags) (val : Text) (fuel : ℕ)
    (done rest : Text) (changed : Bool)
    → flags.rec_exp ≡ false
    → length rest < fuel
    → ended (subst_loop env props flags val fuel done rest changed) ≡ true
unfolding subst_loop
subst_loop-ended env props flags val zero done rest changed r h = ground arith
subst_loop-ended env props flags val (suc fuel) done rest changed r h =
    elim (Option-cases (cut_at (codes "${") rest)) [
      | inl e ↦ rw (e, ended) refl
      | inr ((before, after), e) ↦ elim (Option-cases (cut_at (codes "}") after)) [
        | inl f ↦ rw (e, f, ended) refl
        | inr ((key, tail), f) ↦
            let replacement = replacement_of env props flags key in
            let shorter : length tail < fuel = omega (
              arith,
              h,
              length-cut_at b'$' (codes "{") rest before after e,
              length-cut_at b'}' [] after key tail f,
            ) in
            elim (Bool-cases (flags.empty_vars || not (is_empty replacement))) [
              | inl g ↦ ground (
                arith,
                e,
                f,
                r,
                g,
                subst_loop-ended env props flags val fuel (done ++ (before ++ replacement)) tail
                    true r shorter,
              )
              | inr g ↦ ground (
                arith,
                e,
                f,
                r,
                g,
                subst_loop-ended env props flags val fuel
                    (done ++ (before ++ (codes "${" ++ (key ++ codes "}")))) tail changed r shorter,
              )
            ]
      ]
    ]

-- Without recursive expansion `substVars` ends for every text.
pub subst_vars-ended :
    (env : Text → Option Text) (props : Properties) (flags : Flags) (val : Text)
    → flags.rec_exp ≡ false
    → ended (subst_vars env props flags (suc (length val)) val) ≡ true
unfolding subst_vars
subst_vars-ended env props flags val r =
    subst_loop-ended env props flags val (suc (length val)) [] val false r (omega arith)

-- A text with variables: `end t` has none, `variable t key rest` starts with t and a variable, and
-- `unclosed t u` has an opening brace without a closing one behind t.
pub data Template : Type 0 where
  end : Text → Template
  unclosed : Text → Text → Template
  variable : Text → Text → Template → Template

unfoldable pub render : Template → Text
render (end t) = t
render (unclosed t u) = t ++ (codes "${" ++ u)
render (variable t key rest) = t ++ (codes "${" ++ (key ++ (codes "}" ++ render rest)))

abbrev pub IsTemplate : Template → Type 0
IsTemplate (end t) = Lacks b'$' t
IsTemplate (unclosed t u) = Lacks b'$' t × Lacks b'}' u
IsTemplate (variable t key rest) = Lacks b'$' t × Lacks b'}' key × IsTemplate rest

abbrev pub after_text : Text → Option Text → Option Text
after_text t none = none
after_text t (some u) = some (t ++ u)

module _ (env : Text → Option Text) (props : Properties) (flags : Flags) where
  abbrev pub is_substituted : Text → Bool
  is_substituted key = flags.empty_vars || not (is_empty (replacement_of env props flags key))

  -- What a variable becomes.
  abbrev pub expanded_variable : Text → Text
  expanded_variable key =
      if is_substituted key
      then replacement_of env props flags key
      else codes "${" ++ (key ++ codes "}")

  unfoldable pub expanded : Template → Option Text
  expanded (end t) = some t
  expanded (unclosed t u) = none
  expanded (variable t key rest) = after_text (t ++ expanded_variable key) (expanded rest)

  unfoldable pub is_changed : Template → Bool
  is_changed (end t) = false
  is_changed (unclosed t u) = false
  is_changed (variable t key rest) = is_substituted key || is_changed rest

  -- The outcome for a template behind text that is done.
  abbrev outcome : Text → Text → Bool → Template → Substituted
  outcome val done changed tpl = elim (expanded tpl) [
    | none ↦ result val false
    | some dest ↦ result (done ++ dest) (changed || is_changed tpl)
  ]

unfoldable variables : Template → ℕ
variables (end t) = 0
variables (unclosed t u) = 0
variables (variable t key rest) = suc (variables rest)

self_loop-diverges :
    (env : Text → Option Text) (fuel : ℕ) (done : Text) (changed : Bool)
    → subst_loop env
        ((codes "a", codes "${a}") ∷ [])
        (record { empty_vars = false; shadow_env = true; rec_exp = true })
        (codes "${a}")
        fuel
        done
        (codes "${a}")
        changed
      ≡ diverges
unfolding subst_loop text_eq
self_loop-diverges env zero done changed = refl
self_loop-diverges env (suc fuel) done changed = self_loop-diverges env fuel done true

-- With recursive expansion and the properties looked up first, a property whose value is its own
-- variable is put in place of itself forever.
pub subst_vars-diverges :
    (env : Text → Option Text) (fuel : ℕ)
    → subst_vars env
        ((codes "a", codes "${a}") ∷ [])
        (record { empty_vars = false; shadow_env = true; rec_exp = true })
        fuel
        (codes "${a}")
      ≡ diverges
unfolding subst_vars
subst_vars-diverges env fuel = self_loop-diverges env fuel [] false
