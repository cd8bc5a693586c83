-- ===== src/Tests/Configurations.antt =====
-- Configurations.
use mathlib.Core.Path.{subst}
use log4cplus.Common.{
  sym, ◌∙◌, List, ◌==◌, if◌then◌else◌, ℕ, suc, ◌-◌, ◌<◌, ◌≡◌, refl, true, false, ◌&&◌, Option, none,
  some, [], ◌∷◌, Text, codes, text_eq, length, All, leb, arith,
}
use log4cplus.Common.Map.{Map, find}
use log4cplus.Configurator.Configure.{Settings, Surroundings, configure_settings}
use log4cplus.Configurator.OneLogger.{Configured, configure_logger-Configured}
use log4cplus.Configurator.Words.{Word, letter, space, nothing, config_of}
use log4cplus.Hierarchy.{debug_log_level}
use log4cplus.Configurator.Basic.{basic_properties, do_configure, do_configure-root}
use log4cplus.Configurator.WatchDog.{Seen, Round, Watched, Expansion, expanded_properties}
use log4cplus.Configurator.WatchDog.Rounds.{IsBounded, IsSafe, run_rounds, run_rounds-Inv}
use log4cplus.Configurator.{configure_logger}
use log4cplus.Hierarchy.GetInstance.{Safe, init-Inv}
use log4cplus.Hierarchy.Inv.{Inv, root_clash}
use log4cplus.Hierarchy.Names.{starts_with}
use log4cplus.Hierarchy.{Hierarchy, init}
use log4cplus.LogLevel.{new_manager, from_string}
use log4cplus.Property.{
  Properties, no_flags, property_names, get_property_subset, subset_loop, set_property,
  get_property, text_lt,
}

abbrev upper : ℕ → ℕ
upper c = if leb 97 c && leb c 122 then c - 32 else c

abbrev appenders : Map ℕ
appenders = (codes "A", 1) ∷ (codes "B", 2) ∷ []

-- INFO, B ,Q,B
abbrev word_b : Word
word_b = record {
  spelled = codes "B";
  word = codes "B";
  is_spaced = letter b'B' (λ e. omega (arith, e)) (λ e. omega (arith, e)) nothing;
}

abbrev spaced_b : Word
spaced_b = record {
  spelled = codes " B ";
  word = codes "B";
  is_spaced = space (letter b'B' (λ e. omega (arith, e)) (λ e. omega (arith, e)) (space nothing));
}

abbrev word_q : Word
word_q = record {
  spelled = codes "Q";
  word = codes "Q";
  is_spaced = letter b'Q' (λ e. omega (arith, e)) (λ e. omega (arith, e)) nothing;
}

configure_logger-Configured_example :
    Configured
      (from_string upper new_manager (codes "B"))
      appenders
      0
      (codes "B" ∷ codes "Q" ∷ [])
      init
      (configure_logger upper new_manager appenders 0
        (config_of word_b (spaced_b ∷ word_q ∷ []))
        init)
configure_logger-Configured_example =
    configure_logger-Configured upper new_manager appenders 0 init word_b (spaced_b ∷ word_q ∷ [])
      (from_string upper new_manager (codes "B")) (λ e. cc) ((λ e. cc), ((λ e. cc), tt))
      ((λ e. cc), λ e. refl)

abbrev environment : Text → Option Text
environment key = if text_eq key (codes "HOME") then some (codes "/root") else none

abbrev file_props : Properties
file_props = (codes "File", codes "${HOME}/log") ∷ (codes "Level", codes "INFO") ∷ []

abbrev fuel : Text → ℕ
fuel t = suc (length t)

enough : (t : Text) → length t < fuel t
enough t = omega arith

abbrev around : Surroundings
around = record {
  upper = upper;
  lower = λ c. c;
  translators = new_manager;
  read_long = λ s. none;
  read_uint = λ s. none;
  factories = λ name. some (λ props. true);
}

abbrev props : Properties
props =
    (codes "additivity.x.y", codes "false")
    ∷ (codes "appender.A", codes "log4cplus::ConsoleAppender")
    ∷ (codes "logger.x.y", codes "DEBUG, A")
    ∷ (codes "rootLogger", codes "INFO, A")
    ∷ []

abbrev settings : Settings
settings = record {
  internal_debugging = false;
  quiet_mode = false;
  thread_pool_size = 4;
  block_on_full = true;
  queue_size_limit = 100;
}

loggers-Safe : All Safe (property_names (get_property_subset (codes "logger.") props))
unfolding property_names get_property_subset subset_loop set_property get_property text_lt text_eq
    root_clash starts_with find
loggers-Safe = (refl, tt)

additivity-Safe : All Safe (property_names (get_property_subset (codes "additivity.") props))
unfolding property_names get_property_subset subset_loop set_property get_property text_lt text_eq
    root_clash starts_with find
additivity-Safe = (refl, tt)

abbrev changed : Seen
changed = record {
  info = some (record { mtime = 2; size = 9; is_link = false });
  link_mtime = none;
}

-- The file, before the configurator takes the prefix off.
abbrev read_props : Properties
read_props =
    (codes "log4cplus.additivity.x.y", codes "false")
    ∷ (codes "log4cplus.appender.A", codes "log4cplus::ConsoleAppender")
    ∷ (codes "log4cplus.logger.x.y", codes "DEBUG, A")
    ∷ (codes "log4cplus.rootLogger", codes "INFO, A")
    ∷ []

abbrev rounds : List Round
rounds = record { checked = changed; read = read_props; stored = changed; made = 1 } ∷ []

abbrev watched : Watched
watched = record {
  last_file_info = record { mtime = 1; size = 9; is_link = false };
  closed = [];
  hierarchy = init;
  settings = settings;
  fresh = 1;
}

-- No variables of the environment, no recursion.
abbrev expansion : Expansion
expansion = record { env = λ key. none; flags = no_flags; fuel = fuel; rounds = 1 }

expansion-IsBounded : IsBounded expansion
expansion-IsBounded = record { once = refl; enough = λ t. omega arith; some_round = omega arith }

read_props_expanded : expanded_properties expansion read_props ≡ some props
unfolding expanded_properties text_lt text_eq find
read_props_expanded = refl

read_props-IsSafe :
    IsSafe expansion (record { checked = changed; read = read_props; stored = changed; made = 1 })
read_props-IsSafe found e =
    let both = sym read_props_expanded ∙ e in
    let same : props ≡ found = cc in
    subst
      (λ p.
        All Safe (property_names (get_property_subset (codes "logger.") p))
        × All Safe (property_names (get_property_subset (codes "additivity.") p)))
      same (loggers-Safe, additivity-Safe)

run_rounds-Inv_example :
    (w' : Watched) × (run_rounds around expansion (λ app. []) rounds watched ≡ some w')
    × Inv w'.hierarchy
run_rounds-Inv_example =
    run_rounds-Inv around expansion (λ app. []) rounds watched expansion-IsBounded init-Inv
      (read_props-IsSafe, tt)

console_made : around.factories (codes "log4cplus::ConsoleAppender") ≡ some (λ props. true)
console_made = refl

do_configure-root_example :
    (h' : Hierarchy) × (do_configure around false 1 (λ app. []) (settings, init)
      ≡ some (configure_settings around (basic_properties false) settings, h'))
    × ((h'.heap 0).ll ≡ debug_log_level)
    × ((h'.heap 0).appenders ≡ 1 ∷ [])
    × ((x : ℕ) → (0 == x) ≡ false → h'.heap x ≡ init.heap x)
do_configure-root_example =
    do_configure-root around (λ props. true) false 1 (λ app. []) settings init console_made refl
      refl refl
