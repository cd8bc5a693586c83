-- ===== src/Rolling/Configured.antt =====
-- src/fileappender.cxx: the sizes of a `RollingFileAppender` that is made from properties.
--
-- A long has 64 bits: the product of an int and the factor of a unit fits in. `upper` is the upper
-- case of a character, `atoi` the C library's, and `read_int` reads a number off a stream.
use log4cplus.Common.{
  ℕ, suc, ◌-◌, ◌*◌, Bool, ◌&&◌, Option, none, some, Text, codes, text_eq, is_empty, length, drop, ℤ,
  pos, negsuc, leb_ℤ, eq_ℤ, ltb, if◌then◌else◌,
}
use log4cplus.StringHelper.{transform}
use log4cplus.Property.{Properties, get_property}
use log4cplus.Property.Values.{get_type_val}

abbrev pub default_rolling_log_size : ℕ
default_rolling_log_size = 10 * 1024 * 1024

abbrev pub minimum_rolling_log_size : ℕ
minimum_rolling_log_size = 200 * 1024

-- `*=` with a positive factor.
abbrev pub times : ℤ → ℕ → ℤ
times (pos n) factor = pos (n * factor)
times (negsuc n) factor = negsuc (suc n * factor - 1)

-- Whether a text of more than two characters ends with the two characters of a unit.
abbrev pub ends_with : Text → Text → Bool
ends_with unit tmp = ltb 2 (length tmp) && text_eq (drop (length tmp - 2) tmp) unit

-- `init`
unfoldable pub init_sizes : ℤ → ℤ → ℤ × ℤ
init_sizes max_file_size max_backup_index = (
  if leb_ℤ (pos minimum_rolling_log_size) max_file_size
      then max_file_size
      else pos minimum_rolling_log_size,
  if leb_ℤ (pos 1) max_backup_index then max_backup_index else pos 1,
)

module _ (upper : ℕ → ℕ) (atoi : Text → ℤ) (read_int : Text → Option (ℤ × Text)) where
  unfoldable pub read_max_file_size : Text → ℤ
  read_max_file_size tmp =
      let size = atoi tmp in
      if is_empty tmp
      then pos default_rolling_log_size
      else if eq_ℤ size (pos 0)
      then size
      else if ends_with (codes "MB") tmp
      then times size (1024 * 1024)
      else if ends_with (codes "KB") tmp
      then times size 1024
      else size

  unfoldable pub read_max_backup_index : Properties → ℤ
  read_max_backup_index properties =
      elim (get_type_val read_int (codes "MaxBackupIndex") properties) [
        | none ↦ pos 1
        | some index ↦ index
      ]

  -- The constructor: the size at which files roll over and the number of backups.
  unfoldable pub new_rolling_file_appender : Properties → ℤ × ℤ
  unfolding read_max_file_size read_max_backup_index init_sizes
  new_rolling_file_appender properties =
      init_sizes
        (read_max_file_size (transform upper (get_property (codes "MaxFileSize") properties)))
        (read_max_backup_index properties)
