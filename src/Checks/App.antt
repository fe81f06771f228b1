-- ===== src/Checks/App.antt =====
-- Manifests and merges at concrete inputs.
use cypherstorm.Base.{
  ◌≡◌, ◌↔◌, refl, true, Option, none, some, List, [], ◌∷◌, Bytes, codes, same, before, pos,
}
use cypherstorm.Fault.{Error, Result, ok}
use cypherstorm.App.Manifest.{
  ManifestEntry, Manifest, added, set_entry, add_entries, find_entry, map_of, sort_keys, keys_of,
  change_of, compare_keys, compare_manifests, check_entries, load_manifest,
}
use cypherstorm.App.Manifest.Compare.{change_at, compare_manifests_iff}
use cypherstorm.App.Manifest.Compare.Changes.{IsChange, compare_manifests-IsChange}
use cypherstorm.App.Manifest.Check.{IsLoaded, load_manifest-IsLoaded}
use cypherstorm.App.Merge.{
  file, dir, Forest, nil, cons, conflict_rename, conflict_overwrite, find, set, candidate,
  free_name, resolve_conflict, merge_trees, merge_tree,
}
use cypherstorm.App.Merge.Trees.{lookup, Keeps}
use cypherstorm.App.Merge.Keeps.{merge_trees-Keeps}
use cypherstorm.App.Merge.Wins.{proper_file, proper_nil, proper_cons, merge_trees_wins}

abbrev directory : Bytes → ManifestEntry
directory name = record {
  path = name;
  kind = codes "directory";
  size = pos 4096;
  mode = 493;
  digest = [];
  link_target = [];
}

abbrev left : Manifest
left = record {
  schema_version = pos 1;
  root = codes "r";
  entries = directory (codes "a") ∷ directory (codes "b") ∷ [];
}

abbrev right : Manifest
right = record {
  schema_version = pos 1;
  root = codes "s";
  entries = directory (codes "c") ∷ directory (codes "b") ∷ [];
}

compared : change_at (codes "c") (compare_manifests left right).changes ≡ some added
unfolding compare_manifests compare_keys keys_of sort_keys change_of find_entry add_entries
    set_entry same before
compared = refl

compare_manifests-IsChange_example :
    IsChange
      (find_entry (codes "a") (map_of left))
      (find_entry (codes "a") (map_of right))
      (change_at (codes "a") (compare_manifests left right).changes)
compare_manifests-IsChange_example = compare_manifests-IsChange left right (codes "a")

compare_manifests_iff_example :
    ((compare_manifests left right).equal ≡ true)
    ↔ ((k : Bytes) → find_entry k (map_of left) ≡ find_entry k (map_of right))
compare_manifests_iff_example = compare_manifests_iff left right

abbrev decode_left : Bytes → Option Manifest
decode_left text = some left

loaded : load_manifest decode_left (ok (codes "{}")) ≡ ok left
unfolding load_manifest check_entries same
loaded = refl

load_manifest-IsLoaded_example :
    (text : Bytes) × (◌≡◌ {A = Result Bytes} (ok (codes "{}")) (ok text))
    × (decode_left text ≡ some left)
    × IsLoaded text left
load_manifest-IsLoaded_example = load_manifest-IsLoaded decode_left (ok (codes "{}")) left loaded

abbrev never : List Bytes → Option Error
never path = none

-- "d/x" on both sides, with different contents.
abbrev incoming : Forest
incoming = cons (codes "d") (dir (cons (codes "x") (file (1 ∷ []) 420) nil)) nil

abbrev existing : Forest
existing = cons (codes "d") (dir (cons (codes "x") (file (2 ∷ []) 384) nil)) nil

abbrev beside : Forest
beside =
    cons (codes "d")
      (dir (
        cons (codes "x") (file (2 ∷ []) 384) (cons (codes "x.restored-1") (file (1 ∷ []) 420) nil)))
      nil

renamed_beside : merge_trees never conflict_rename [] incoming existing ≡ ok beside
unfolding merge_trees merge_tree resolve_conflict free_name candidate find set same
renamed_beside = refl

merge_trees-Keeps_example : Keeps existing beside
merge_trees-Keeps_example =
    merge_trees-Keeps never conflict_rename incoming existing beside tt renamed_beside

overwritten : merge_trees never conflict_overwrite [] incoming existing ≡ ok incoming
unfolding merge_trees merge_tree resolve_conflict find set same
overwritten = refl

no_other : find (codes "d") nil ≡ none
unfolding find
no_other = refl

no_other_file : find (codes "x") nil ≡ none
unfolding find
no_other_file = refl

at_x : lookup (codes "d" ∷ codes "x" ∷ []) (dir incoming) ≡ some (file (1 ∷ []) 420)
unfolding lookup find same
at_x = refl

merge_trees_wins_example :
    lookup (codes "d" ∷ codes "x" ∷ []) (dir incoming) ≡ some (file (1 ∷ []) 420)
merge_trees_wins_example =
    merge_trees_wins never incoming existing incoming
      (proper_cons no_other (proper_cons no_other_file proper_file proper_nil) proper_nil)
      overwritten (codes "d" ∷ codes "x" ∷ []) (file (1 ∷ []) 420) refl at_x
