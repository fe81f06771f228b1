-- ===== src/Checks/Names.antt =====
-- Entry names at concrete inputs.
use cypherstorm.Base.{◌<◌, ◌≡◌, refl, true, false, List, [], ◌∷◌, Bytes, codes, length, All, same}
use cypherstorm.Fault.{ok, err, name_absolute}
use cypherstorm.Storage.Names.{
  contains, split, join, is_abs, is_letter, is_windows_drive_path, segments_of, validate_entry_name,
}
use cypherstorm.Storage.Names.Segments.{IsSegment, validate_entry_name-AreSegments}
use cypherstorm.Storage.Names.Canonical.{validate_entry_name-join, dot_drive_accepted}

abbrev segments : List Bytes
segments = codes "a" ∷ codes "b.txt" ∷ []

accepted : validate_entry_name (codes "./a//b.txt") ≡ ok segments
unfolding contains split is_abs is_letter is_windows_drive_path segments_of same validate_entry_name
accepted = refl

no_drive : is_windows_drive_path (join segments) ≡ false
unfolding join is_windows_drive_path
no_drive = refl

lacks :
    (contains 47 (codes "x") ≡ false)
    × (contains 0 (codes "x") ≡ false)
    × (contains 92 (codes "x") ≡ false)
unfolding contains
lacks = (refl, refl, refl)

letter : is_letter 67 ≡ true
unfolding is_letter
letter = refl

validate_entry_name-AreSegments_example : (0 < length segments) × All IsSegment segments
validate_entry_name-AreSegments_example =
    validate_entry_name-AreSegments (codes "./a//b.txt") segments accepted

validate_entry_name-join_example : validate_entry_name (join segments) ≡ ok segments
validate_entry_name-join_example =
    validate_entry_name-join (codes "./a//b.txt") segments accepted no_drive

dot_drive_accepted_example :
    (validate_entry_name (67 ∷ 58 ∷ codes "x") ≡ err name_absolute)
    × (validate_entry_name (46 ∷ 47 ∷ 67 ∷ 58 ∷ codes "x") ≡ ok ((67 ∷ 58 ∷ codes "x") ∷ []))
dot_drive_accepted_example = dot_drive_accepted 67 (codes "x") letter lacks.0 lacks.1 lacks.2
