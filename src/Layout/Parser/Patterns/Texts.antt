-- ===== src/Layout/Parser/Patterns/Texts.antt =====
-- The text between fields, with its percent signs doubled.
use mathlib.Core.List.{append-nil, append_assoc}
use log4cplus.Common.{
  ℕ, ◌≡◌, refl, ap, ◌∙◌, Bool, false, Option, List, [], ◌∷◌, ◌++◌, Text, ℤ, ◌==◌, if◌then◌else◌,
  Bool-cases, inl, inr, arith,
}
use log4cplus.Layout.{FormattingInfo, reset}
use log4cplus.Layout.Converter.{Converter}
use log4cplus.Layout.Parser.{literal_state, converter_state, literal_step, step_in, step, flushed}
use log4cplus.Layout.Parser.Patterns.{at}
use log4cplus.Layout.Parser.Runs.{run, run-step}

unfoldable pub escaped : Text → Text
escaped [] = []
escaped (c ∷ s) = let rest = escaped s in if c == b'%' then b'%' ∷ b'%' ∷ rest else c ∷ rest

module _ (atoi : Text → ℤ) (get_hostname : Bool → Option Text) (depth : ℕ) (info : FormattingInfo)
    (list : List Converter) where
  char_step :
      (lit : Text) (c : ℕ) (rest : Text)
      → (c == b'%') ≡ false
      → step atoi get_hostname (at depth literal_state info list lit) c rest
        ≡ (at depth literal_state info list (lit ++ (c ∷ [])), rest)
  unfolding step step_in literal_step
  char_step lit c [] e = refl
  char_step lit c (d ∷ rest) e = rw e refl

  run-char :
      (lit : Text) (c : ℕ) (rest : Text)
      → (c == b'%') ≡ false
      → run atoi get_hostname (at depth literal_state info list lit) (c ∷ rest)
        ≡ run atoi get_hostname (at depth literal_state info list (lit ++ (c ∷ []))) rest
  run-char lit c rest e =
      run-step atoi get_hostname (at depth literal_state info list lit)
        (at depth literal_state info list (lit ++ (c ∷ []))) c rest rest (char_step lit c rest e)

  run-escape :
      (lit rest : Text)
      → run atoi get_hostname (at depth literal_state info list lit) (b'%' ∷ b'%' ∷ rest)
        ≡ run atoi get_hostname (at depth literal_state info list (lit ++ (b'%' ∷ []))) rest
  unfolding step step_in literal_step
  run-escape lit rest =
      run-step atoi get_hostname (at depth literal_state info list lit)
        (at depth literal_state info list (lit ++ (b'%' ∷ []))) b'%' (b'%' ∷ rest) rest refl

  -- Escaped text is collected.
  pub run-escaped :
      (lit t rest : Text)
      → run atoi get_hostname (at depth literal_state info list lit) (escaped t ++ rest)
        ≡ run atoi get_hostname (at depth literal_state info list (lit ++ t)) rest
  unfolding escaped
  run-escaped lit [] rest = rw (append-nil lit) refl
  run-escaped lit (c ∷ t) rest = elim (Bool-cases (c == b'%')) [
    | inl e ↦
        let same : c ≡ b'%' = ground (arith, e) in
        rw (e, same)
          (run-escape lit (escaped t ++ rest)
            ∙ run-escaped (lit ++ (b'%' ∷ [])) t rest
            ∙ ap (λ l. run atoi get_hostname (at depth literal_state info list l) rest)
                (append_assoc lit (b'%' ∷ []) t))
    | inr e ↦ rw e (
        run-char lit c (escaped t ++ rest) e
        ∙ run-escaped (lit ++ (c ∷ [])) t rest
        ∙ ap (λ l. run atoi get_hostname (at depth literal_state info list l) rest)
            (append_assoc lit (c ∷ []) t))
  ]

  -- A single percent sign starts a field.
  pub run-percent :
      (lit : Text) (d : ℕ) (rest : Text)
      → (d == b'%') ≡ false
      → run atoi get_hostname (at depth literal_state info list lit) (b'%' ∷ d ∷ rest)
        ≡ run atoi get_hostname
            (at depth converter_state reset (list ++ flushed lit) (b'%' ∷ []))
            (d ∷ rest)
  unfolding step step_in literal_step
  run-percent lit d rest e =
      run-step atoi get_hostname (at depth literal_state info list lit)
        (at depth converter_state reset (list ++ flushed lit) (b'%' ∷ [])) b'%' (d ∷ rest)
        (d ∷ rest) (rw e refl)
