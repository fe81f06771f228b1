-- ===== src/Checks/Files.antt =====
-- Publication on a file system in memory, with failing calls.
use cypherstorm.Base.{
  ◌↔◌, ◌≡◌, ◌≢◌, refl, sym, ap, ◌∙◌, true, false, Option, none, some, List, [], ◌∷◌, Bytes, codes,
  same,
}
use cypherstorm.Fault.{Error, ok, write_failed, rename_failed, rollback_failed}
use cypherstorm.Stream.Laws.{pair_snd}
use cypherstorm.Storage.Names.{split, join, is_abs, contains}
use cypherstorm.Storage.Paths.{
  dir, clean, reduce, add_element, climb, rendered, up_to_slash, keep_byte,
}
use cypherstorm.Storage.Files.{
  Node, regular, directory, Outcome, staged, published, cleaned, with_temp, publish_atomic,
  reject_components, reject_symlink_components, way_back, settled, swapped, replace_directory,
  target_allowed, parent_allowed, find_parent, validate_output_target,
}
use cypherstorm.Storage.Files.Laws.{base, Kept, Others, Stays, at_path}
use cypherstorm.Storage.Files.Publish.{IsPublished, publish_atomic-Kept, publish_atomic-IsPublished}
use cypherstorm.Storage.Files.Parents.{
  IsWritable, HasParent, validate_output_target_iff, IsPlain, reject_symlink_components_iff,
}
use cypherstorm.Storage.Files.Replace.{Replaced, replace_directory-Replaced}
use cypherstorm.Checks.Disk.{
  put_entry-miss, Entries, Volume, put_entry, moved_entry, temp_name, volume, entry, volume-IsDisk,
}

abbrev file : Bytes → Node
file b = record { kind = regular; mode = 420; body = b }

abbrev folder : Bytes → Node
folder b = record { kind = directory; mode = 493; body = b }

-- "d" holds a file and two directories.
abbrev tree : Entries
tree = put_entry (codes "d") (codes "out") (some (file (codes "old"))) (
    put_entry (codes "d") (codes "dest") (some (folder (codes "before"))) (
      put_entry (codes "d") (codes "new") (some (folder (codes "after"))) (
        put_entry (codes ".") (codes "d") (some (folder []))
          (put_entry (codes ".") (codes ".") (some (folder [])) (λ e n. none)))))

abbrev calls : List (Option Error) → Volume
calls fs = record { entries = tree; faults = fs }

abbrev out : Bytes
out = codes "d/out"

-- A write function that leaves "new", or fails.
abbrev write_new : Bytes → Volume → Outcome Volume
write_new t v =
    (none, record v { entries = put_entry (dir t) (base t) (some (file (codes "new"))) v.entries })

abbrev write_nothing : Bytes → Volume → Outcome Volume
write_nothing t v = (some write_failed, v)

temp_out : base (temp_name (codes "d")) ≡ codes ".tmp"
unfolding base contains
temp_out = refl

written :
    (publish_atomic volume out true write_new (calls [])).1.entries (codes "d") (codes "out")
    ≡ some (record { kind = regular; mode = 384; body = codes "new" })
unfolding publish_atomic with_temp cleaned published staged put_entry moved_entry base contains dir
    clean reduce add_element climb rendered up_to_slash keep_byte split join is_abs same
written = refl

write_new-only : (t : Bytes) → Stays (Others entry (dir t) (base t)) (write_new t)
write_new-only t w w' r e m other =
    ap (λ (v : Volume). v.entries (dir t) m) (sym (pair_snd e))
    ∙ put_entry-miss (dir t) (base t) m (some (file (codes "new"))) w.entries other

write_nothing-only : (t : Bytes) → Stays (Others entry (dir t) (base t)) (write_nothing t)
write_nothing-only t w w' r e m other = ap (λ (v : Volume). v.entries (dir t) m) (sym (pair_snd e))

abbrev after_failure : Volume
after_failure = (publish_atomic volume out false write_nothing (calls [])).1

failed_write :
    publish_atomic volume out false write_nothing (calls []) ≡ (some write_failed, after_failure)
unfolding publish_atomic with_temp cleaned published staged put_entry base contains dir clean reduce
    add_element climb rendered up_to_slash keep_byte split join is_abs same
failed_write = refl

publish_atomic-Kept_example : Kept entry (dir out) (calls []) after_failure
publish_atomic-Kept_example =
    publish_atomic-Kept entry volume volume-IsDisk write_nothing write_nothing-only false out
      (calls []) after_failure write_failed failed_write

abbrev after_writing : Volume
after_writing = (publish_atomic volume out true write_new (calls [])).1

wrote : publish_atomic volume out true write_new (calls []) ≡ (none, after_writing)
unfolding publish_atomic with_temp cleaned published staged put_entry base contains dir clean reduce
    add_element climb rendered up_to_slash keep_byte split join is_abs same
wrote = refl

publish_atomic-IsPublished_example :
    IsPublished entry volume volume-IsDisk write_new write_new-only true out
      (calls [])
      after_writing
publish_atomic-IsPublished_example =
    publish_atomic-IsPublished entry volume volume-IsDisk write_new write_new-only true out
      (calls []) after_writing wrote

-- The rename to the destination fails, and so does the way back.
abbrev stuck : Volume
stuck = calls (none ∷ none ∷ some rename_failed ∷ some rename_failed ∷ [])

abbrev after_stuck : Volume
after_stuck = (replace_directory volume (codes "d/new") (codes "d/dest") stuck).1

stuck_swap :
    replace_directory volume (codes "d/new") (codes "d/dest") stuck
    ≡ (some rollback_failed, after_stuck)
unfolding replace_directory reject_symlink_components reject_components with_temp swapped settled
    way_back put_entry base contains dir clean reduce add_element climb rendered up_to_slash
    keep_byte split join is_abs same
stuck_swap = refl

after_stuck_backup : after_stuck.entries (codes "d") (codes ".tmp") ≡ some (folder (codes "before"))
unfolding replace_directory reject_symlink_components reject_components with_temp swapped settled
    way_back put_entry moved_entry base contains dir clean reduce add_element climb rendered
    up_to_slash keep_byte split join is_abs same
after_stuck_backup = refl

staged_there : at_path entry (codes "d/new") stuck ≡ some (folder (codes "after"))
unfolding put_entry base contains dir clean reduce add_element climb rendered up_to_slash keep_byte
    split join is_abs same
staged_there = refl

other_name : base (codes "d/new") ≢ base (codes "d/dest")
unfolding base contains
other_name e = cc e

replace_directory-Replaced_example :
    Replaced entry volume volume-IsDisk
      (codes "d/new")
      (codes "d/dest")
      stuck
      (some rollback_failed)
      after_stuck
replace_directory-Replaced_example =
    replace_directory-Replaced entry volume volume-IsDisk (codes "d/new") (codes "d/dest") stuck
      (folder (codes "after")) after_stuck (some rollback_failed) staged_there other_name stuck_swap

allowed : validate_output_target volume (codes "d/x/y") false (calls []) ≡ ok tt
unfolding validate_output_target target_allowed parent_allowed find_parent put_entry base contains
    dir clean reduce add_element climb rendered up_to_slash keep_byte split join is_abs same
allowed = refl

validate_output_target_iff_example :
    (validate_output_target volume (codes "d/x/y") false (calls []) ≡ ok tt) ↔ (
      IsWritable volume (calls []) false (codes "d/x/y")
      × HasParent volume (calls []) (dir (codes "d/x/y")))
validate_output_target_iff_example =
    validate_output_target_iff volume (calls []) (codes "d/x/y") false

reject_symlink_components_iff_example :
    (reject_symlink_components volume (codes "d/dest") (calls []) ≡ ok tt)
    ↔ IsPlain volume (calls []) (clean (codes "d/dest"))
reject_symlink_components_iff_example =
    reject_symlink_components_iff volume (calls []) (codes "d/dest")
