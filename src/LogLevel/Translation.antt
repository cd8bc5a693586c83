-- ===== src/LogLevel/Translation.antt =====
-- Names to levels and back.
use log4cplus.Common.{
  ℕ, ◌≡◌, ◌≢◌, refl, sym, ap, ◌∙◌, some, List, [], ◌∷◌, ◌++◌, Text, codes, text_eq, text_eq_iff,
  text_eq_refl, map, ℤ, pos, eq_ℤ, ◌≤ℤ◌, if◌then◌else◌, arith,
}
use log4cplus.Common.Int.{eq_ℤ_iff, leb_ℤ_iff}
use log4cplus.Hierarchy.{not_set_log_level, debug_log_level}
use log4cplus.Hierarchy.Operations.{info_log_level}
use log4cplus.LogLevel.{
  default_to_string, default_from_string, Translator, single, from_string_by, from_upper,
  from_string, push_log_level, off_log_level, fatal_log_level, error_log_level, warn_log_level,
  trace_log_level, all_log_level,
}

-- The table of the standard names.
unfoldable pub table : Text → ℤ
table s =
    if text_eq s (codes "OFF")
    then off_log_level
    else if text_eq s (codes "FATAL")
    then fatal_log_level
    else if text_eq s (codes "ERROR")
    then error_log_level
    else if text_eq s (codes "WARN")
    then warn_log_level
    else if text_eq s (codes "INFO")
    then info_log_level
    else if text_eq s (codes "DEBUG")
    then debug_log_level
    else if text_eq s (codes "TRACE")
    then trace_log_level
    else if text_eq s (codes "ALL")
    then all_log_level
    else not_set_log_level

-- The switch on the first character finds what a comparison with every standard name finds.
pub default_from_string-table : (s : Text) → default_from_string s ≡ table s
unfolding default_from_string table text_eq
default_from_string-table [] = refl
default_from_string-table (c ∷ cs) = ground arith

-- A level for which the default translator has a name is read back from that name.
pub from_string-to_string :
    (ll : ℤ) → default_to_string ll ≢ [] → default_from_string (default_to_string ll) ≡ ll
unfolding default_to_string default_from_string text_eq
from_string-to_string ll h = ground (
  arith,
  h,
  eq_ℤ_iff ll off_log_level,
  eq_ℤ_iff ll fatal_log_level,
  eq_ℤ_iff ll error_log_level,
  eq_ℤ_iff ll warn_log_level,
  eq_ℤ_iff ll info_log_level,
  eq_ℤ_iff ll debug_log_level,
  eq_ℤ_iff ll trace_log_level,
  eq_ℤ_iff ll not_set_log_level,
)

from_upper-append :
    (ts : List Translator) (t : Translator) (s : Text)
    → from_upper (ts ++ t ∷ []) s
      ≡ (if eq_ℤ (from_upper ts s) not_set_log_level then from_string_by t s else from_upper ts s)
unfolding from_upper
from_upper-append [] t s = ground (arith, eq_ℤ_iff (from_string_by t s) not_set_log_level)
from_upper-append (u ∷ ts) t s = ground (
  arith,
  eq_ℤ_iff (from_string_by u s) not_set_log_level,
  eq_ℤ_iff (from_upper ts s) not_set_log_level,
  from_upper-append ts t s,
)

map-idempotent :
    (upper : ℕ → ℕ) (s : Text)
    → ((c : ℕ) → upper (upper c) ≡ upper c)
    → map upper (map upper s) ≡ map upper s
map-idempotent upper [] idem = refl
map-idempotent upper (c ∷ s) idem = ground (arith, idem c, map-idempotent upper s idem)

pushed :
    (ll : ℤ) (name : Text) (ts ts' : List Translator)
    → push_log_level ll name ts ≡ some ts'
    → ts' ≡ ts ++ single ll name ∷ []
unfolding push_log_level
pushed ll name ts ts' run = ground (arith, run)

never_upper :
    (upper : ℕ → ℕ) (name arg : Text)
    → ((c : ℕ) → upper (upper c) ≡ upper c)
    → map upper name ≢ name
    → map upper arg ≢ name
never_upper upper name arg idem lower e =
    lower (ap (map upper) (sym e) ∙ (map-idempotent upper arg idem ∙ e))

-- Where `toUpper` changes no character twice, registering a level under a name that `toUpper`
-- changes leaves what every text means as it was: the level is never found.
pub push_log_level-lower :
    (upper : ℕ → ℕ) (ll : ℤ) (name arg : Text) (ts ts' : List Translator)
    → ((c : ℕ) → upper (upper c) ≡ upper c)
    → map upper name ≢ name
    → push_log_level ll name ts ≡ some ts'
    → from_string upper ts' arg ≡ from_string upper ts arg
unfolding from_string from_string_by
push_log_level-lower upper ll name arg ts ts' idem lower run =
    rw (pushed ll name ts ts' run, from_upper-append ts (single ll name) (map upper arg))
      (ground (
        arith,
        never_upper upper name arg idem lower,
        text_eq_iff (map upper arg) name,
        eq_ℤ_iff (from_upper ts (map upper arg)) not_set_log_level,
      ))

-- A level of at least 0 that is registered under a non-empty name is read from every text that
-- `toUpper` turns into that name, if no translator knew the name before.
pub push_log_level-upper :
    (upper : ℕ → ℕ) (ll : ℤ) (name arg : Text) (ts : List Translator)
    → pos 0 ≤ℤ ll
    → name ≢ []
    → map upper arg ≡ name
    → from_upper ts name ≡ not_set_log_level
    → (ts' : List Translator) × (push_log_level ll name ts ≡ some ts')
      × (from_string upper ts' arg ≡ ll)
unfolding from_string push_log_level from_string_by
push_log_level-upper upper ll name arg ts positive nonempty e fresh = (
  ts ++ single ll name ∷ [],
  ground (arith, (leb_ℤ_iff (pos 0) ll).1 positive, nonempty),
  rw (e, from_upper-append ts (single ll name) name, fresh) (ground (arith, text_eq_refl name)),
)
