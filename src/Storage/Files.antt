-- ===== src/Storage/Files.antt =====
-- internal/storage/fsutil/fsutil.go and directory.go: publication of a file or a directory by a
-- rename. The calls of package os are the fields of `Disk`, each of which may fail; `W` is the
-- state of the file system. A write function that panics is one that fails here: the deferred
-- cleanup is the same.
pub mod Laws
pub mod Parents
pub mod Publish
pub mod Replace
use cypherstorm.Base.{
  ℕ, suc, zero, ◌+◌, Bool, true, false, Option, none, some, Bytes, codes, length, same, not,
  if◌then◌else◌,
}
use cypherstorm.Fault.{
  Error, Result, ok, err, ◌>>=◌, ◌>>◌, refuse_if, out_of_fuel, staged_not_directory, parents_differ,
  component_symlink, destination_not_directory, rollback_failed, output_exists, not_exist,
  parent_not_directory, no_ancestor,
}
use cypherstorm.Storage.Paths.{clean, dir}

pub data NodeKind : Type 0 where
  regular directory symlink special : NodeKind

-- What a name stands for: its kind, its permissions, and its bytes or all that is below it.
pub record Node : Type 0 where
  pub kind : NodeKind
  pub mode : ℕ
  pub body : Bytes

-- The result of a call that returns an error only.
abbrev pub Outcome : Type 0 → Type 0
Outcome W = Option Error × W

pub record Disk (W : Type 0) : Type 0 where
  -- os.Stat and os.Lstat
  pub stat : Bytes → W → Result Node
  pub lstat : Bytes → W → Result Node
  -- os.CreateTemp and os.MkdirTemp in a directory, with the source's pattern
  pub create_temp : Bytes → W → Result Bytes × W
  pub mkdir_temp : Bytes → W → Result Bytes × W
  -- Sync and Close of the file at a path
  pub sync : Bytes → W → Outcome W
  pub close : Bytes → W → Outcome W
  pub chmod : Bytes → ℕ → W → Outcome W
  pub remove : Bytes → W → Outcome W
  pub remove_all : Bytes → W → Outcome W
  -- os.Rename, and the rename that refuses a target that exists
  pub rename : Bytes → Bytes → W → Outcome W
  pub rename_no_replace : Bytes → Bytes → W → Outcome W

abbrev pub is_directory_kind : NodeKind → Bool
is_directory_kind directory = true
is_directory_kind _ = false

abbrev pub is_symlink_kind : NodeKind → Bool
is_symlink_kind symlink = true
is_symlink_kind _ = false

-- `info.IsDir()`, and the test of the mode for a link
abbrev pub is_directory : Node → Bool
is_directory info = is_directory_kind info.kind

abbrev pub is_symlink : Node → Bool
is_symlink info = is_symlink_kind info.kind

infixl 5 ◌then◌
-- The next call behind one that may have failed.
abbrev pub ◌then◌ : {W : Type 0} → Outcome W → (W → Outcome W) → Outcome W
(none, w) then next = next w
(some e, w) then next = (some e, w)

-- What follows the attempt to make a temporary file, and a check of the paths.
module _ {W : Type 0} where
  unfoldable pub with_temp : Result Bytes × W → (Bytes → W → Outcome W) → Outcome W
  with_temp (err e, w) use_it = (some e, w)
  with_temp (ok tmp, w) use_it = use_it tmp w

  abbrev pub guarded : Result (Unit {0}) → W → (W → Outcome W) → Outcome W
  guarded (ok u) w next = next w
  guarded (err e) w next = (some e, w)

  -- `ReplaceDirectory`: the outcome of the way back, after the error of the publication
  unfoldable pub way_back : Error → Outcome W → Outcome W
  way_back e (none, w) = (some e, w)
  way_back e (some f, w) = (some rollback_failed, w)

-- `errors.Is(err, fs.ErrNotExist)`
abbrev pub is_missing : Error → Bool
is_missing not_exist = true
is_missing _ = false

-- `ValidateOutputTarget`: what os.Stat says of the target, and of one of its parents.
unfoldable pub target_allowed : Bool → Result Node → Result (Unit {0})
target_allowed allow_overwrite (ok info) = refuse_if (not allow_overwrite) output_exists
target_allowed allow_overwrite (err e) = refuse_if (not (is_missing e)) e

unfoldable pub parent_allowed : Result Node → Bool → Result (Unit {0}) → Result (Unit {0})
parent_allowed (ok info) top above = refuse_if (not (is_directory info)) parent_not_directory
parent_allowed (err e) top above =
    refuse_if (not (is_missing e)) e >> refuse_if top no_ancestor >> above

module _ {W : Type 0} (disk : Disk W) where
  -- `PublishAtomic` up to the publication: what happens to the temporary file.
  unfoldable pub staged : (Bytes → W → Outcome W) → Bytes → W → Outcome W
  staged write tmp w =
      write tmp w then disk.sync tmp then disk.close tmp then (λ v. disk.chmod tmp 384 v)

  unfoldable pub published : Bool → Bytes → (Bytes → W → Outcome W) → Bytes → W → Outcome W
  published true final write tmp w = staged write tmp w then disk.rename tmp final
  published false final write tmp w = staged write tmp w then disk.rename_no_replace tmp final

  -- The deferred function.
  unfoldable pub cleaned : Bytes → Outcome W → Outcome W
  cleaned tmp (none, w) = (none, w)
  cleaned tmp (some e, w) = (some e, (disk.remove tmp (disk.close tmp w).1).1)

  -- `PublishAtomic`
  unfoldable pub publish_atomic : Bytes → Bool → (Bytes → W → Outcome W) → W → Outcome W
  publish_atomic final allow_overwrite write w =
      with_temp (disk.create_temp (dir final) w)
        (λ tmp v. cleaned tmp (published allow_overwrite final write tmp v))

  -- `PublishDirectory`
  unfoldable pub publish_directory : Bytes → Bytes → W → Outcome W
  publish_directory staged_path final w =
      guarded
        (disk.lstat staged_path w >>= λ info.
          refuse_if (not (is_directory info)) staged_not_directory
          >> refuse_if (not (same (dir staged_path) (dir final))) parents_differ)
        w (disk.rename_no_replace staged_path final)

  -- The loop of `rejectSymlinkComponents`, on fuel.
  unfoldable pub reject_components : ℕ → Bytes → W → Result (Unit {0})
  reject_components zero current w = err out_of_fuel
  reject_components (suc fuel) current w =
      let above = reject_components fuel (dir current) w in
      disk.lstat current w >>= λ info.
      refuse_if (is_symlink info) component_symlink
      >> (if same (dir current) current then ok tt else above)

  unfoldable pub reject_symlink_components : Bytes → W → Result (Unit {0})
  reject_symlink_components target w =
      reject_components (suc (suc (length (clean target)))) (clean target) w

  -- What follows the rename of the staged directory.
  unfoldable pub settled : Bytes → Bytes → Outcome W → Outcome W
  settled backup final (none, w) = disk.remove_all backup w
  settled backup final (some e, w) = way_back e (disk.rename backup final w)

  unfoldable pub swapped : Bytes → Bytes → Bytes → W → Outcome W
  swapped staged_path final backup w =
      disk.remove backup w
      then disk.rename final backup
      then (λ v. settled backup final (disk.rename staged_path final v))

  unfoldable pub replace_directory : Bytes → Bytes → W → Outcome W
  replace_directory staged_path final w =
      guarded
        (refuse_if (not (same (dir staged_path) (dir final))) parents_differ
          >> reject_symlink_components final w
          >> (disk.lstat final w >>= λ info.
              refuse_if (not (is_directory info)) destination_not_directory))
        w (λ v. with_temp (disk.mkdir_temp (dir final) v) (swapped staged_path final))

  -- The loop of `ValidateOutputTarget` over the parents, on fuel.
  unfoldable pub find_parent : ℕ → Bytes → W → Result (Unit {0})
  find_parent zero d w = err out_of_fuel
  find_parent (suc fuel) d w =
      let above = find_parent fuel (dir d) w in
      parent_allowed (disk.stat d w) (same (dir d) d) above

  -- `ValidateOutputTarget`
  unfoldable pub validate_output_target : Bytes → Bool → W → Result (Unit {0})
  validate_output_target output_path allow_overwrite w =
      target_allowed allow_overwrite (disk.stat output_path w)
      >> find_parent (suc (suc (length (dir output_path)))) (dir output_path) w
