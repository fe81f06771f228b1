-- ===== src/Storage/Links.antt =====
-- `validatePortableSymlink` of internal/storage/archive/scan.go.
pub mod Stays
pub mod Escapes
pub mod Confined
use cypherstorm.Base.{[], ◌∷◌, Bytes, ℕ, length, ◌==◌, ◌||◌, same, if◌then◌else◌}
use cypherstorm.Fault.{Result, ok, err, link_unsafe, link_escapes}
use cypherstorm.Storage.Names.{contains, is_abs, is_windows_drive_path}
use cypherstorm.Storage.Paths.{dot_dot, clean, dir, path_join, has_prefix}

unfoldable pub validate_portable_symlink : Bytes → Bytes → Result (Unit {0})
validate_portable_symlink name target =
    if length target == 0
      || contains 0 target
      || contains 92 target
      || is_abs target
      || is_windows_drive_path target
    then err link_unsafe
    else let resolved = clean (path_join (dir name) target) in
      if same resolved dot_dot || has_prefix resolved (46 ∷ 46 ∷ 47 ∷ [])
      then err link_escapes
      else ok tt
