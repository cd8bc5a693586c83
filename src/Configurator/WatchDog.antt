-- ===== src/Configurator/WatchDog.antt =====
-- src/configurator.cxx: `ConfigurationWatchDogThread`, which configures again when its file changes.
--
-- A round of the thread sees the file three times: when it checks it, when it reads it, and when it
-- stores what it saw. Time stamps are numbers. The lock of the hierarchy makes a round one step.
pub mod Rounds
use log4cplus.Common.{
  ℕ, ◌+◌, Bool, true, false, not, ◌&&◌, ◌||◌, Option, none, some, List, [], ◌∷◌, Text, ltb, ◌==◌,
  if◌then◌else◌,
}
use log4cplus.Configurator.Configure.{Settings, Surroundings, configure}
use log4cplus.Hierarchy.Locker.{locker_reset_configuration}
use log4cplus.Hierarchy.{Hierarchy}
use log4cplus.Configurator.{init}
use log4cplus.Property.{Properties, Flags}

pub record FileInfo : Type 0 where
  pub mtime : ℕ
  pub size : ℕ
  pub is_link : Bool

-- What the file system says of the file: `stat`, with `none` for a failure, and the time stamp of the
-- link itself.
pub record Seen : Type 0 where
  pub info : Option FileInfo
  pub link_mtime : Option ℕ

-- `updateLastModInfo`
unfoldable pub update_last_mod_info : Seen → FileInfo → FileInfo
update_last_mod_info seen last = elim seen.info [ none ↦ last | some fi ↦ fi ]

-- The constructor: `now` is the time at which it runs.
unfoldable pub watch : ℕ → Seen → FileInfo
unfolding update_last_mod_info
watch now seen = update_last_mod_info seen (record { mtime = now; size = 0; is_link = false })

unfoldable pub link_modified : Option ℕ → FileInfo → Bool
link_modified none fi = false
link_modified (some link_time) fi = ltb fi.mtime link_time

unfoldable pub info_modified : Option ℕ → FileInfo → FileInfo → Bool
unfolding link_modified
info_modified link_time last fi =
    let modified = ltb last.mtime fi.mtime || not (fi.size == last.size) in
    if not modified && fi.is_link then link_modified link_time fi else modified

unfoldable pub check_for_file_modification : Seen → FileInfo → Bool
unfolding info_modified
check_for_file_modification seen last = elim seen.info [
  | none ↦ false
  | some fi ↦ info_modified seen.link_mtime last fi
]

-- What the thread works on: the hierarchy with the appenders that were closed, the settings, the
-- last state of the file, and the number of the next appender.
pub record Watched : Type 0 where
  pub last_file_info : FileInfo
  pub closed : List ℕ
  pub hierarchy : Hierarchy
  pub settings : Settings
  pub fresh : ℕ

-- What the expansion of variables takes: the environment, the flags that the configurator was made
-- with, and the fuel for each text and for the rounds over the keys.
pub record Expansion : Type 0 where
  pub env : Text → Option Text
  pub flags : Flags
  pub fuel : Text → ℕ
  pub rounds : ℕ

-- `reconfigure` up to `configure`: the properties that the file has, with their variables replaced.
unfoldable pub expanded_properties : Expansion → Properties → Option Properties
unfolding init
expanded_properties x properties = init x.env x.flags x.fuel x.rounds properties

-- What a round meets: the file at the check and at the end, and the properties that are read between.
pub record Round : Type 0 where
  pub checked : Seen
  pub read : Properties
  pub stored : Seen
  pub made : ℕ

-- `run`, one round of its loop; `made` counts the appenders that the configuration makes.
unfoldable pub run_round : Surroundings → Expansion → (ℕ → Text) → Round → Watched → Option Watched
unfolding check_for_file_modification update_last_mod_info locker_reset_configuration
    expanded_properties configure
run_round around x names round w =
    if check_for_file_modification round.checked w.last_file_info
    then (let (closed', h) = locker_reset_configuration (w.closed, w.hierarchy) in
        elim (expanded_properties x round.read) [
          | none ↦ none
          | some props ↦ elim (configure around props w.fresh names (w.settings, h)) [
            | none ↦ none
            | some (settings', h') ↦ some (record {
              last_file_info = update_last_mod_info round.stored w.last_file_info;
              closed = closed';
              hierarchy = h';
              settings = settings';
              fresh = w.fresh + round.made;
            })
          ]
        ])
    else some w
