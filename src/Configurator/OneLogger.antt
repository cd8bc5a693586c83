-- ===== src/Configurator/OneLogger.antt =====
-- What the configuration of one logger does to its level and its appenders.
use log4cplus.Attachable.Members.{distinct, mem-add_appender, distinct-add_appender}
use log4cplus.Attachable.{add_appender}
use log4cplus.Common.{
  ℕ, ◌≡◌, ◌≢◌, refl, sym, text_eq, text_eq_iff, codes, All, Bool-cases, ap, ◌∙◌, Bool, true, false,
  ◌&&◌, ◌||◌, none, some, List, [], ◌∷◌, Text, ℤ, eq_ℤ, ◌==◌, if◌then◌else◌, Option-cases, inl, inr,
  arith,
}
use log4cplus.Common.Map.{Map, find}
use log4cplus.Configurator.Words.{Word, words, config_of, IsFull, tokenize-words}
use log4cplus.Configurator.{
  add_to_logger, add_named, configured_level, configure_tokens, configure_logger,
}
use log4cplus.Hierarchy.Children.{mem}
use log4cplus.Hierarchy.Operations.{remove_all_appenders}
use log4cplus.Hierarchy.{Hierarchy, not_set_log_level}
use log4cplus.LogLevel.{Translator, from_string}
use log4cplus.Logger.{set_log_level}

-- Whether one of the names is that of the appender.
unfoldable pub names_appender : Map ℕ → ℕ → List Text → Bool
unfolding find
names_appender appenders b [] = false
names_appender appenders b (token ∷ tokens) =
    (elim (find token appenders) [ none ↦ false | some app ↦ app == b ])
    || names_appender appenders b tokens

own_appenders :
    (a app : ℕ) (h : Hierarchy)
    → ((add_to_logger a app h).heap a).appenders ≡ add_appender (some app) (h.heap a).appenders
own_appenders a app h = ground arith

own_level : (a app : ℕ) (h : Hierarchy) → ((add_to_logger a app h).heap a).ll ≡ (h.heap a).ll
own_level a app h = ground arith

others_kept :
    (a app x : ℕ) (h : Hierarchy) → (a == x) ≡ false → (add_to_logger a app h).heap x ≡ h.heap x
others_kept a app x h n = ground (arith, n)

-- The named appenders join those that the logger has, each once; nothing else changes.
pub record Adds (appenders : Map ℕ) (a : ℕ) (tokens : List Text) (h h' : Hierarchy) : Type 0 where
  pub once : distinct (h'.heap a).appenders ≡ true
  pub members :
      (b : ℕ)
      → mem b (h'.heap a).appenders
        ≡ (names_appender appenders b tokens || mem b (h.heap a).appenders)
  pub level : (h'.heap a).ll ≡ (h.heap a).ll
  pub others : (x : ℕ) → (a == x) ≡ false → h'.heap x ≡ h.heap x

add_named-Adds :
    (appenders : Map ℕ) (a : ℕ) (tokens : List Text) (h : Hierarchy)
    → distinct (h.heap a).appenders ≡ true
    → Adds appenders a tokens h (add_named appenders a tokens h)
unfolding add_named names_appender
add_named-Adds appenders a [] h d = record {
  once = d;
  members = λ b. refl;
  level = refl;
  others = λ x n. refl;
}
add_named-Adds appenders a (token ∷ tokens) h d = elim (Option-cases (find token appenders)) [
  | inl e ↦
      let rest = add_named-Adds appenders a tokens h d in
      rw (e, add_named)
        (record {
          once = rest.once;
          members = λ b. rw (e, names_appender) (rest.members b);
          level = rest.level;
          others = rest.others;
        })
  | inr (app, e) ↦
      let h₁ = add_to_logger a app h in
      let own = own_appenders a app h in
      let rest =
        add_named-Adds appenders a tokens h₁
          (rw own (distinct-add_appender app (h.heap a).appenders d)) in
      rw (e, add_named)
        (record {
          once = rest.once;
          members = λ b.
              rest.members b
              ∙ ap (λ l. names_appender appenders b tokens || mem b l) own
              ∙ ground (arith, e, mem-add_appender app b (h.heap a).appenders);
          level = rest.level ∙ own_level a app h;
          others = λ x n. rest.others x n ∙ others_kept a app x h n;
        })
]

emptied :
    (a : ℕ) (level : ℤ) (h : Hierarchy)
    → ((remove_all_appenders a (set_log_level level a h)).heap a).appenders ≡ []
unfolding remove_all_appenders
emptied a level h = ground arith

levelled :
    (a : ℕ) (level : ℤ) (h : Hierarchy)
    → ((remove_all_appenders a (set_log_level level a h)).heap a).ll
      ≡ (if a == 0 && eq_ℤ level not_set_log_level then (h.heap a).ll else level)
unfolding remove_all_appenders set_log_level
levelled a level h = ground arith

cleared :
    (a x : ℕ) (level : ℤ) (h : Hierarchy)
    → (a == x) ≡ false
    → (remove_all_appenders a (set_log_level level a h)).heap x ≡ h.heap x
unfolding remove_all_appenders set_log_level
cleared a x level h n = ground (arith, n)

-- The level, the appenders, and the other loggers after the configuration of one logger.
pub record Configured (level : ℤ) (appenders : Map ℕ) (a : ℕ) (tokens : List Text)
    (h h' : Hierarchy) : Type 0 where
  pub once : distinct (h'.heap a).appenders ≡ true
  pub members : (b : ℕ) → mem b (h'.heap a).appenders ≡ names_appender appenders b tokens
  pub new_level :
      (h'.heap a).ll ≡ (if a == 0 && eq_ℤ level not_set_log_level then (h.heap a).ll else level)
  pub others : (x : ℕ) → (a == x) ≡ false → h'.heap x ≡ h.heap x

-- The level that a first word means: INHERITED is none, and other words are names of levels.
abbrev pub IsLevel : (ℕ → ℕ) → List Translator → Text → ℤ → Type 0
IsLevel upper translators loglevel level =
    (loglevel ≡ codes "INHERITED" → level ≡ not_set_log_level)
    × (loglevel ≢ codes "INHERITED" → level ≡ from_string upper translators loglevel)

level-IsLevel :
    (upper : ℕ → ℕ) (translators : List Translator) (appenders : Map ℕ) (loglevel : Text)
    (level : ℤ)
    → IsLevel upper translators loglevel level
    → configured_level upper translators appenders loglevel ≡ level
unfolding configured_level
level-IsLevel upper translators appenders loglevel level (inherited, named) =
    elim (Bool-cases (text_eq loglevel (codes "INHERITED"))) [
      | inl e ↦
          let word = (text_eq_iff loglevel (codes "INHERITED")).0 e in rw e (sym (inherited word))
      | inr e ↦
          let other : loglevel ≢ codes "INHERITED" = λ same.
            let yes' = (text_eq_iff loglevel (codes "INHERITED")).1 same in
            absurd (let wrong = sym e ∙ yes' in cc) in
          rw e (sym (named other))
    ]

-- Let a configuration be words without commas, separated by commas, with spaces anywhere, of which
-- only the first of several may be empty. It gives the logger the level that the first word means,
-- which is none for INHERITED, but does not unset the root's, and exactly the appenders that the
-- other words name and that exist, each once, whatever it had before; other loggers stay as they are.
-- The first word is the level also where it is the name of an appender.
pub configure_logger-Configured :
    (upper : ℕ → ℕ) (translators : List Translator) (appenders : Map ℕ) (a : ℕ) (h : Hierarchy)
    (loglevel : Word) (names : List Word) (level : ℤ)
    → loglevel.word ∷ words names ≢ [] ∷ []
    → All IsFull names
    → IsLevel upper translators loglevel.word level
    → Configured level appenders a
        (words names)
        h
        (configure_logger upper translators appenders a (config_of loglevel names) h)
unfolding configure_logger configure_tokens
configure_logger-Configured upper translators appenders a h loglevel names level some_word full
      means =
    let e = tokenize-words loglevel names some_word full in
    let meant = level-IsLevel upper translators appenders loglevel.word level means in
    let h₁ = remove_all_appenders a (set_log_level level a h) in
    let none_left = emptied a level h in
    let adds =
      add_named-Adds appenders a (words names) h₁ (rw none_left (unfold distinct in refl)) in
    rw (e, configure_tokens, meant)
      (record {
        once = adds.once;
        members = λ b.
            adds.members b
            ∙ ap (λ l. names_appender appenders b (words names) || mem b l) none_left
            ∙ unfold mem in ground arith;
        new_level = adds.level ∙ levelled a level h;
        others = λ x n. adds.others x n ∙ cleared a x level h n;
      })
