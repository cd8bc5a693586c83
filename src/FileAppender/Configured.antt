-- ===== src/FileAppender/Configured.antt =====
-- src/fileappender.cxx: file appenders that are made from properties.
--
-- `lower` and `read_long` are as in Property/Values; `read_int` and `read_ulong` read a number off a
-- stream. `locks` says whether the lock file can be made and locked. Buffers and locales change only
-- how the text reaches the file.
use log4cplus.Common.{
  ℕ, Bool, true, false, not, ◌&&◌, Option, none, some, Text, codes, text_eq, is_empty, ℤ, pos,
  if◌then◌else◌,
}
use log4cplus.Property.{Properties, get_property, get_property_or}
use log4cplus.Property.Values.{get_bool, get_type_val}
use log4cplus.FileAppender.{
  Disk, Stream, open_stream, opened_append, opened_truncated, lock_file_name,
}

pub record FileSettings : Type 0 where
  pub filename : Text
  pub lock_file : Text
  pub locale_name : Text
  pub immediate_flush : Bool
  pub create_dirs : Bool
  pub reopen_delay : ℤ
  pub buffer_size : ℕ
  pub appends : Bool
  pub binary : Bool

abbrev pub or_default {ℓ} : {A : Type ℓ} → A → Option A → A
or_default a none = a
or_default a (some b) = b

module _ (lower : ℕ → ℕ) (read_long : Text → Option (ℤ × Text))
    (read_int : Text → Option (ℤ × Text)) (read_ulong : Text → Option (ℕ × Text)) where
  -- The constructor of `FileAppenderBase`; `mode_appends` says whether the mode has app or ate.
  unfoldable pub new_file_appender_base : Bool → Properties → FileSettings
  new_file_appender_base mode_appends props = record {
    filename = get_property (codes "File") props;
    lock_file = get_property (codes "LockFile") props;
    locale_name = get_property_or (codes "Locale") (codes "DEFAULT") props;
    immediate_flush = or_default true (get_bool lower read_long (codes "ImmediateFlush") props);
    create_dirs = or_default false (get_bool lower read_long (codes "CreateDirs") props);
    reopen_delay = or_default (pos 1) (get_type_val read_int (codes "ReopenDelay") props);
    buffer_size = or_default 0 (get_type_val read_ulong (codes "BufferSize") props);
    appends = or_default mode_appends (get_bool lower read_long (codes "Append") props);
    binary = text_eq (get_property_or (codes "TextMode") (codes "Text") props) (codes "Binary");
  }

  -- `FileAppenderBase::init`, with the name of the lock file that it chooses.
  unfoldable pub init_base :
      Bool → Bool → Bool → FileSettings → Stream → Disk → FileSettings × (Stream × Disk)
  unfolding lock_file_name open_stream
  init_base use_lock_file locks can_open s out disk =
      elim (lock_file_name use_lock_file s.filename s.lock_file) [
        | none ↦ (s, (out, disk))
        | some name ↦
            let s' = record s { lock_file = name } in
            if use_lock_file && not locks then (s', (out, disk)) else (
              s',
              (
                open_stream can_open out,
                if s.appends
                    then opened_append can_open s.filename disk
                    else opened_truncated can_open s.filename disk,
              ),
            )
      ]

  -- A `FileAppender` made from properties: `init` refuses an empty name.
  unfoldable pub new_file_appender :
      Bool → Bool → Bool → Bool → Properties → Disk → FileSettings × (Stream × Disk)
  unfolding new_file_appender_base init_base
  new_file_appender use_lock_file mode_appends locks can_open props disk =
      let s = new_file_appender_base mode_appends props in
      let out : Stream = record { good = true; reopen_time = 0 } in
      if is_empty s.filename
      then (s, (out, disk))
      else init_base use_lock_file locks can_open s out disk
