-- ===== src/StringHelper/Tokens.antt =====
-- What `tokenize` splits a text into.
use mathlib.Core.List.{append-nil, append_assoc}
use log4cplus.Common.{
  ℕ, ◌≡◌, refl, sym, ◌∙◌, true, false, ◌&&◌, List, [], ◌∷◌, ◌++◌, Text, is_empty, ◌==◌,
  if◌then◌else◌, Bool-cases, inl, inr, arith,
}
use log4cplus.StringHelper.{tokenize_loop, tokenize, join_rest, join}

-- The items, each behind a separator.
unfoldable pub separated : Text → List Text → Text
separated sep [] = []
separated sep (item ∷ items) = sep ++ (item ++ separated sep items)

join_rest-separated :
    (sep result : Text) (items : List Text)
    → join_rest sep result items ≡ result ++ separated sep items
unfolding join_rest separated
join_rest-separated sep result [] = sym (append-nil result)
join_rest-separated sep result (item ∷ items) =
    simp (join_rest-separated sep (result ++ (sep ++ item)) items, append_assoc)

pub join-separated :
    (sep : Text) (items : List Text) (item : Text)
    → join sep (item ∷ items) ≡ item ++ separated sep items
unfolding join
join-separated sep items item = join_rest-separated sep item items

-- Without collapsing, the tokens with the delimiter between them spell the text.
separated-tokenize_loop :
    (c : ℕ) (s token : Text)
    → separated (c ∷ []) (tokenize_loop c false false s token) ≡ c ∷ (token ++ s)
unfolding separated tokenize_loop
separated-tokenize_loop c [] [] = refl
separated-tokenize_loop c [] (t ∷ token) = refl
separated-tokenize_loop c (x ∷ s) token = elim (Bool-cases (x == c)) [
  | inl e ↦ ground (arith, e, separated-tokenize_loop c s [])
  | inr e ↦
      ground
        (arith, e, separated-tokenize_loop c s (token ++ x ∷ []), append_assoc token (x ∷ []) s)
]

-- The tokens without the empty ones, but for a first one that is followed by a delimiter.
unfoldable pub without_empty : List Text → List Text
without_empty [] = []
without_empty (t ∷ ts) = if is_empty t then without_empty ts else t ∷ without_empty ts

unfoldable pub collapsed : List Text → List Text
unfolding without_empty
collapsed [] = []
collapsed (t ∷ ts) = if is_empty t && is_empty ts then [] else t ∷ without_empty ts

collapsed-tokenize_loop :
    (c : ℕ) (s : Text) (t : ℕ) (token : Text)
    → collapsed (tokenize_loop c false false s (t ∷ token))
      ≡ without_empty (tokenize_loop c false false s (t ∷ token))
unfolding collapsed tokenize_loop
collapsed-tokenize_loop c [] t token = unfold without_empty in refl
collapsed-tokenize_loop c (x ∷ s) t token =
    unfold without_empty in ground (arith, collapsed-tokenize_loop c s t (token ++ x ∷ []))

-- While delimiters are skipped, and inside a token.
loops_lem :
    (c : ℕ) (s : Text)
    → (tokenize_loop c true true s [] ≡ without_empty (tokenize_loop c false false s []))
      × ((t : ℕ) (token : Text)
          → tokenize_loop c true false s (t ∷ token)
            ≡ without_empty (tokenize_loop c false false s (t ∷ token)))
unfolding tokenize_loop without_empty
loops_lem c [] = (refl, λ t token. refl)
loops_lem c (x ∷ s) =
    let (skips, inside) = loops_lem c s in
    (
      ground (arith, skips, inside x []),
      λ t token. ground (arith, skips, inside t (token ++ x ∷ [])),
    )

separated-join :
    (c : ℕ) (ts : List Text) (s : Text) → separated (c ∷ []) ts ≡ c ∷ s → join (c ∷ []) ts ≡ s
unfolding separated
separated-join c [] s e = cc
separated-join c (t ∷ ts) s e = join-separated (c ∷ []) ts t ∙ (cc e)

tokens_left : (c : ℕ) (s : Text) → is_empty (tokenize_loop c false false s []) ≡ false
unfolding separated
tokens_left c s = go (tokenize_loop c false false s []) (separated-tokenize_loop c s [])
  where
    go : (ts : List Text) → separated (c ∷ []) ts ≡ c ∷ s → is_empty ts ≡ false
    go [] e = cc
    go (t ∷ ts) e = refl

collapsed_start :
    (c : ℕ) (s : Text)
    → tokenize_loop c true false s [] ≡ collapsed (tokenize_loop c false false s [])
unfolding tokenize_loop collapsed
collapsed_start c [] = refl
collapsed_start c (x ∷ s) = elim (Bool-cases (x == c)) [
  | inl e ↦ ground (arith, e, (loops_lem c s).0, tokens_left c s)
  | inr e ↦ ground (arith, e, (loops_lem c s).1 x [], collapsed-tokenize_loop c s x [])
]

-- The tokens that `tokenize` finds without collapsing, joined by the delimiter, are the text; the
-- tokens that it finds when it collapses repeated delimiters are those that are not empty, and an
-- empty first one where the text begins with the delimiter.
pub tokenize_lem :
    (c : ℕ) (s : Text)
    → (join (c ∷ []) (tokenize c false s) ≡ s)
      × (tokenize c true s ≡ collapsed (tokenize c false s))
unfolding tokenize
tokenize_lem c s = (
  separated-join c (tokenize_loop c false false s []) s (separated-tokenize_loop c s []),
  collapsed_start c s,
)
