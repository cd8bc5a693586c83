-- ===== src/Configurator/WatchDog/Rounds.antt =====
-- What rounds of the watch dog do.
use log4cplus.Common.{
  ℕ, suc, ◌<◌, ◌-◌, length, ◌+◌, ◌≡◌, refl, sym, ap, ◌∙◌, Bool, true, false, ◌&&◌, Option, none,
  some, List, [], ◌∷◌, Text, codes, All, Bool-cases, Option-cases, inl, inr, arith,
}
use log4cplus.Configurator.Configure.{Settings, Surroundings, configure, configure_settings}
use log4cplus.Configurator.Expanding.{init-some}
use log4cplus.Configurator.{init}
use log4cplus.Configurator.Tree.{configure-Inv}
use log4cplus.Configurator.WatchDog.{
  FileInfo, Watched, Round, Expansion, expanded_properties, run_round, check_for_file_modification,
  info_modified, link_modified, update_last_mod_info,
}
use log4cplus.Hierarchy.GetInstance.{Safe}
use log4cplus.Hierarchy.Inv.{Inv}
use log4cplus.Hierarchy.Locker.{locker_reset_configuration, locker_reset-Inv}
use log4cplus.Hierarchy.{Hierarchy}
use log4cplus.Property.{Properties, property_names, get_property_subset}

-- A history of rounds.
unfoldable pub run_rounds :
    Surroundings → Expansion → (ℕ → Text) → List Round → Watched → Option Watched
unfolding run_round
run_rounds around x names [] w = some w
run_rounds around x names (round ∷ rounds) w = elim (run_round around x names round w) [
  | none ↦ none
  | some w' ↦ run_rounds around x names rounds w'
]

-- The names of loggers in the properties that a round reads, with their variables replaced.
abbrev pub IsSafe : Expansion → Round → Type 0
IsSafe x round =
    (props : Properties)
    → expanded_properties x round.read ≡ some props
    → All Safe (property_names (get_property_subset (codes "logger.") props))
      × All Safe (property_names (get_property_subset (codes "additivity.") props))

-- The replacement of variables is not recursive and has more fuel for each text than it has characters.
pub record IsBounded (x : Expansion) : Type 0 where
  pub once : x.flags.rec_exp ≡ false
  pub enough : (t : Text) → length t < x.fuel t
  pub some_round : 0 < x.rounds

expanded_properties-some :
    (x : Expansion) (read : Properties)
    → IsBounded x
    → (props : Properties) × (expanded_properties x read ≡ some props)
unfolding expanded_properties
expanded_properties-some x read bounded =
    let (props, e) =
      init-some x.env x.flags x.fuel bounded.once bounded.enough (x.rounds - 1) read in
    let more : x.rounds ≡ suc (x.rounds - 1) = omega (arith, bounded.some_round) in
    (props, ap (λ n. init x.env x.flags x.fuel n read) more ∙ e)

run_round-changed :
    (around : Surroundings) (x : Expansion) (names : ℕ → Text) (round : Round) (w : Watched)
    (props : Properties) (after : Settings × Hierarchy)
    → check_for_file_modification round.checked w.last_file_info ≡ true
    → expanded_properties x round.read ≡ some props
    → configure around props w.fresh names
        (w.settings, (locker_reset_configuration (w.closed, w.hierarchy)).1)
      ≡ some after
    → run_round around x names round w
      ≡ some (record {
        last_file_info = update_last_mod_info round.stored w.last_file_info;
        closed = (locker_reset_configuration (w.closed, w.hierarchy)).0;
        hierarchy = after.1;
        settings = after.0;
        fresh = w.fresh + round.made;
      })
unfolding run_round
run_round-changed around x names round w props after e f g = rw (run_round, e, f, g) refl

run_round-Inv :
    (around : Surroundings) (x : Expansion) (names : ℕ → Text) (round : Round) (w : Watched)
    → IsBounded x
    → Inv w.hierarchy
    → IsSafe x round
    → (w' : Watched) × (run_round around x names round w ≡ some w') × Inv w'.hierarchy
unfolding run_round
run_round-Inv around x names round w bounded v safe =
    elim (Bool-cases (check_for_file_modification round.checked w.last_file_info)) [
      | inr e ↦ (w, rw (e, run_round) refl, v)
      | inl e ↦
          let (props, f) = expanded_properties-some x round.read bounded in
          let (loggers, additivity) = safe props f in
          let reset = locker_reset_configuration (w.closed, w.hierarchy) in
          let (h', run, v') =
            configure-Inv around props w.fresh names w.settings reset.1
              (locker_reset-Inv w.closed w.hierarchy v) loggers additivity in
          (
            record {
              last_file_info = update_last_mod_info round.stored w.last_file_info;
              closed = reset.0;
              hierarchy = h';
              settings = configure_settings around props w.settings;
              fresh = w.fresh + round.made;
            },
            run_round-changed around x names round w props
                (configure_settings around props w.settings, h') e f run,
            v',
          )
    ]

-- However often and with whatever properties the watch dog configures the hierarchy again, every
-- round returns, and the tree keeps its invariant: the parent of each logger is its closest existing
-- ancestor by name. The replacement of variables is not recursive and has more fuel for each text
-- than it has characters, and the names of loggers in the properties, with their variables replaced,
-- are none of r, ro and roo. The reading of the file itself is not part of this.
pub run_rounds-Inv :
    (around : Surroundings) (x : Expansion) (names : ℕ → Text) (rounds : List Round) (w : Watched)
    → IsBounded x
    → Inv w.hierarchy
    → All (IsSafe x) rounds
    → (w' : Watched) × (run_rounds around x names rounds w ≡ some w') × Inv w'.hierarchy
unfolding run_rounds
run_rounds-Inv around x names [] w bounded v safe = (w, refl, v)
run_rounds-Inv around x names (round ∷ rounds) w bounded v (safe, safes) =
    let (w₁, run, v₁) = run_round-Inv around x names round w bounded v safe in
    let (w', run', v') = run_rounds-Inv around x names rounds w₁ bounded v₁ safes in
    (w', rw (run, run_rounds) run', v')

-- Whether the time stamp of the link is newer than that of the file.
abbrev pub link_newer : Option ℕ → FileInfo → Bool
unfolding link_modified
link_newer link_time fi = fi.is_link && link_modified link_time fi

unchanged :
    (fi : FileInfo) (link_time : Option ℕ)
    → link_newer link_time fi ≡ false
    → info_modified link_time fi fi ≡ false
unfolding info_modified
unchanged fi link_time e = ground (arith, e)

last_info : Option Watched → FileInfo → FileInfo
last_info none fi = fi
last_info (some w) fi = w.last_file_info

none-some : (w : Watched) → ◌≡◌ {A = Option Watched} none (some w) → ⊥
none-some w e = cc

run_round-stored :
    (around : Surroundings) (x : Expansion) (names : ℕ → Text) (round : Round) (w w' : Watched)
    (fi : FileInfo)
    → run_round around x names round w ≡ some w'
    → check_for_file_modification round.checked w.last_file_info ≡ true
    → round.stored.info ≡ some fi
    → w'.last_file_info ≡ fi
unfolding last_info run_round
run_round-stored around x names round w w' fi run e stored =
    let reset = locker_reset_configuration (w.closed, w.hierarchy) in
    elim (Option-cases (expanded_properties x round.read)) [
      | inl n ↦
          let nothing : run_round around x names round w ≡ none = rw (run_round, e, n) refl in
          absurd (none-some w' (sym nothing ∙ run))
      | inr (props, f) ↦
          elim (Option-cases (configure around props w.fresh names (w.settings, reset.1))) [
            | inl n ↦
                let nothing : run_round around x names round w ≡ none =
                  rw (run_round, e, f, n) refl in
                absurd (none-some w' (sym nothing ∙ run))
            | inr (after, n) ↦
                ap (λ o. last_info o fi)
                  (sym run ∙ run_round-changed around x names round w props after e f n)
                ∙ rw (stored, update_last_mod_info) refl
          ]
    ]

-- After the watch dog has configured again, a round that finds the file as it was stored at the end
-- of that round does nothing, whatever was read in between. The link, if there is one, is not newer
-- than the file.
pub run_round-settled :
    (around : Surroundings) (x : Expansion) (names : ℕ → Text) (round later : Round)
    (w w' : Watched) (fi : FileInfo)
    → run_round around x names round w ≡ some w'
    → check_for_file_modification round.checked w.last_file_info ≡ true
    → round.stored.info ≡ some fi
    → later.checked.info ≡ some fi
    → link_newer later.checked.link_mtime fi ≡ false
    → run_round around x names later w' ≡ some w'
unfolding run_round
run_round-settled around x names round later w w' fi run e stored found link =
    let last = run_round-stored around x names round w w' fi run e stored in
    let same : check_for_file_modification later.checked w'.last_file_info ≡ false =
      rw (found, check_for_file_modification, last) (unchanged fi later.checked.link_mtime link) in
    rw (same, run_round) refl
