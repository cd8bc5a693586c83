-- ===== src/Configurator/Words.antt =====
-- The configuration of a logger as words with spaces in them and commas between them, and what the
-- configurator reads from it.
use mathlib.Core.List.{append-nil, append_assoc}
use log4cplus.Common.{
  ℕ, ◌≡◌, ◌≢◌, refl, ap, ◌∙◌, true, false, List, [], ◌∷◌, ◌++◌, Text, All, codes, is_empty, map,
  if◌then◌else◌, arith,
}
use log4cplus.Configurator.{without_spaces}
use log4cplus.StringHelper.Tokens.{separated}
use log4cplus.StringHelper.{tokenize, tokenize_loop}

-- A text is a word without commas, with spaces anywhere.
pub data Spaced : Text → Text → Type 0 where
  nothing : Spaced [] []
  space : {s t : Text} → Spaced s t → Spaced (b' ' ∷ s) t
  letter : {s t : Text} (c : ℕ) → c ≢ b' ' → c ≢ b',' → Spaced s t → Spaced (c ∷ s) (c ∷ t)

pub record Word : Type 0 where
  pub spelled : Text
  pub word : Text
  pub is_spaced : Spaced spelled word

abbrev pub words : List Word → List Text
words ws = map (λ w. w.word) ws

-- The first word, which may be empty, and others, which may not.
abbrev pub config_of : Word → List Word → Text
config_of w ws = w.spelled ++ separated (codes ",") (map (λ x. x.spelled) ws)

without_spaces-Spaced :
    (s t rest : Text) → Spaced s t → without_spaces (s ++ rest) ≡ t ++ without_spaces rest
unfolding without_spaces
without_spaces-Spaced s t rest nothing = refl
without_spaces-Spaced s t rest (space {s = s'} h) = without_spaces-Spaced s' t rest h
without_spaces-Spaced s t rest (letter {s = s'} {t = t'} c other comma h) =
    ground (arith, other, without_spaces-Spaced s' t' rest h)

no_commas : (s t : Text) → Spaced s t → All (λ c. c ≢ b',') t
no_commas s t nothing = tt
no_commas s t (space {s = s'} h) = no_commas s' t h
no_commas s t (letter {s = s'} {t = t'} c other comma h) = (comma, no_commas s' t' h)

without_spaces-separated :
    (ws : List Word)
    → without_spaces (separated (codes ",") (map (λ w. w.spelled) ws))
      ≡ separated (codes ",") (words ws)
unfolding separated without_spaces
without_spaces-separated [] = refl
without_spaces-separated (w ∷ ws) =
    let rest = separated (codes ",") (map (λ x. x.spelled) ws) in
    ap (λ s. b',' ∷ s)
      (without_spaces-Spaced w.spelled w.word rest w.is_spaced
        ∙ ap (λ s. w.word ++ s) (without_spaces-separated ws))

-- A word up to a comma, and a word at the end.
tokenize_loop-word :
    (t rest token : Text)
    → All (λ c. c ≢ b',') t
    → tokenize_loop b',' true false (t ++ (b',' ∷ rest)) token
      ≡ (token ++ t) ∷ tokenize_loop b',' true true rest []
unfolding tokenize_loop
tokenize_loop-word [] rest token h = rw (append-nil token) refl
tokenize_loop-word (c ∷ t) rest token (other, h) =
    ground
      (arith, other, tokenize_loop-word t rest (token ++ c ∷ []) h, append_assoc token (c ∷ []) t)

tokenize_loop-end :
    (t token : Text)
    → All (λ c. c ≢ b',') t
    → tokenize_loop b',' true false t token
      ≡ (if is_empty (token ++ t) then [] else (token ++ t) ∷ [])
unfolding tokenize_loop
tokenize_loop-end [] token h = rw (append-nil token) (ground arith)
tokenize_loop-end (c ∷ t) token (other, h) =
    ground (arith, other, tokenize_loop-end t (token ++ c ∷ []) h, append_assoc token (c ∷ []) t)

-- Behind a comma.
tokenize_loop-rest :
    (t rest : Text)
    → All (λ c. c ≢ b',') t
    → t ≢ []
    → tokenize_loop b',' true true (t ++ rest) [] ≡ tokenize_loop b',' true false (t ++ rest) []
unfolding tokenize_loop
tokenize_loop-rest [] rest h full = absurd (full refl)
tokenize_loop-rest (c ∷ t) rest (other, h) full = ground (arith, other)

abbrev pub IsFull : Word → Type 0
IsFull w = w.word ≢ []

abbrev head_or_nil : List Text → Text
head_or_nil [] = []
head_or_nil (t ∷ ts) = t

full_last : (t : Text) → t ∷ [] ≢ [] ∷ [] → (if is_empty t then [] else t ∷ []) ≡ t ∷ []
full_last [] h = absurd (h refl)
full_last (c ∷ t) h = refl

tokenize_loop-words :
    (w : Word) (ws : List Word)
    → w.word ∷ words ws ≢ [] ∷ []
    → All IsFull ws
    → tokenize_loop b',' true false (w.word ++ separated (codes ",") (words ws)) []
      ≡ w.word ∷ words ws
unfolding separated
tokenize_loop-words w [] full h =
    rw (append-nil w.word)
      (tokenize_loop-end w.word [] (no_commas w.spelled w.word w.is_spaced) ∙ full_last w.word full)
tokenize_loop-words w (x ∷ ws) full (first, h) =
    let behind = separated (codes ",") (words ws) in
    let commas = no_commas x.spelled x.word x.is_spaced in
    let alone : x.word ∷ words ws ≢ [] ∷ [] = λ e. first (ap head_or_nil e) in
    tokenize_loop-word w.word (x.word ++ behind) [] (no_commas w.spelled w.word w.is_spaced)
    ∙ ap (λ l. w.word ∷ l)
        (tokenize_loop-rest x.word behind commas first ∙ tokenize_loop-words x ws alone h)

-- What the configurator reads from words: the words without their spaces.
pub tokenize-words :
    (w : Word) (ws : List Word)
    → w.word ∷ words ws ≢ [] ∷ []
    → All IsFull ws
    → tokenize b',' true (without_spaces (config_of w ws)) ≡ w.word ∷ words ws
unfolding tokenize
tokenize-words w ws full h =
    let rest = separated (codes ",") (map (λ x. x.spelled) ws) in
    let text : without_spaces (config_of w ws) ≡ w.word ++ separated (codes ",") (words ws) =
      without_spaces-Spaced w.spelled w.word rest w.is_spaced
      ∙ ap (λ s. w.word ++ s) (without_spaces-separated ws) in
    ap (λ s. tokenize_loop b',' true false s []) text ∙ tokenize_loop-words w ws full h
