-- ===== src/Storage/Limits.antt =====
-- `ExtractLimits` and `withDefaults` of internal/storage/archive/archive.go.
use cypherstorm.Base.{ℕ, ◌*◌, ◌^◌, zero, suc, ◌||◌, if◌then◌else◌, ℤ, pos, negsuc, is_negative}
use cypherstorm.Fault.{Result, ok, err, limits_negative}

pub record ExtractLimits : Type 0 where
  pub max_entries : ℤ
  pub max_entry_size : ℤ
  pub max_total_size : ℤ
  pub max_path_depth : ℤ

-- The limits behind `withDefaults`: none is negative.
pub record Limits : Type 0 where
  pub entries : ℕ
  pub entry_size : ℕ
  pub total_size : ℕ
  pub path_depth : ℕ

abbrev pub default_limits : Limits
default_limits = record {
  entries = 100000;
  entry_size = 4 * 2 ^ 30;
  total_size = 16 * 2 ^ 30;
  path_depth = 64;
}

abbrev or_default : ℤ → ℕ → ℕ
or_default (pos zero) d = d
or_default (pos (suc n)) d = suc n
or_default (negsuc n) d = d

unfoldable pub with_defaults : ExtractLimits → Result Limits
with_defaults l =
    if is_negative l.max_entries
      || is_negative l.max_entry_size
      || is_negative l.max_total_size
      || is_negative l.max_path_depth
    then err limits_negative
    else ok (record {
      entries = or_default l.max_entries default_limits.entries;
      entry_size = or_default l.max_entry_size default_limits.entry_size;
      total_size = or_default l.max_total_size default_limits.total_size;
      path_depth = or_default l.max_path_depth default_limits.path_depth;
    })
