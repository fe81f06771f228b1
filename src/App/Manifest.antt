-- ===== src/App/Manifest.antt =====
-- internal/app/manifest.go: manifests of a tree, their checks and their comparison. Encoding and
-- hashing of files are arguments.
pub mod Compare
pub mod Check
use cypherstorm.Base.{
  ℕ, zero, suc, ◌+◌, ◌-◌, ◌*◌, ◌^◌, ◌%◌, Bool, true, false, Option, none, some, List, [], ◌∷◌, ◌++◌,
  map, Bytes, codes, length, ltb, leb, ◌==◌, not, ◌&&◌, ◌||◌, same, before, if◌then◌else◌, ℤ,
  same_int,
}
use cypherstorm.Fault.{
  Error, Result, ok, err, ◌>>=◌, ◌>>◌, refuse_if, cancelled, manifest_size, manifest_version,
  manifest_duplicate, manifest_digest, manifest_limit, malformed_manifest, source_changed,
  unsupported_node,
}

abbrev pub max_manifest_size : ℕ
max_manifest_size = 64 * 2 ^ 20

abbrev pub max_manifest_entries : ℕ
max_manifest_entries = 1000000

pub record ManifestEntry : Type 0 where
  pub path : Bytes
  pub kind : Bytes
  pub size : ℤ
  pub mode : ℕ
  pub digest : Bytes
  pub link_target : Bytes

pub record Manifest : Type 0 where
  pub schema_version : ℤ
  pub root : Bytes
  pub entries : List ManifestEntry

pub data ChangeKind : Type 0 where
  added removed type_changed modified : ChangeKind

pub record Change : Type 0 where
  pub path : Bytes
  pub kind : ChangeKind

pub record CompareResult : Type 0 where
  pub equal : Bool
  pub changes : List Change

-- A map from paths to entries: an assignment replaces the entry of the same path.
unfoldable pub set_entry : ManifestEntry → List ManifestEntry → List ManifestEntry
set_entry e [] = e ∷ []
set_entry e (f ∷ m) = let rest = set_entry e m in if same f.path e.path then e ∷ m else f ∷ rest

unfoldable pub add_entries : List ManifestEntry → List ManifestEntry → List ManifestEntry
add_entries m [] = m
add_entries m (e ∷ es) = add_entries (set_entry e m) es

unfoldable pub find_entry : Bytes → List ManifestEntry → Option ManifestEntry
find_entry k [] = none
find_entry k (f ∷ m) = if same f.path k then some f else find_entry k m

abbrev pub map_of : Manifest → List ManifestEntry
map_of m = add_entries [] m.entries

is_found : Option ManifestEntry → Bool
is_found none = false
is_found (some e) = true

-- The keys of the second map that the first one lacks.
other_keys : List ManifestEntry → List ManifestEntry → List Bytes
other_keys am [] = []
other_keys am (f ∷ bm) =
    let rest = other_keys am bm in if is_found (find_entry f.path am) then rest else f.path ∷ rest

insert_key : Bytes → List Bytes → List Bytes
insert_key k [] = k ∷ []
insert_key k (j ∷ keys) =
    let rest = insert_key k keys in if before j k then j ∷ rest else k ∷ j ∷ keys

-- `sort.Strings`
unfoldable pub sort_keys : List Bytes → List Bytes
unfolding insert_key
sort_keys [] = []
sort_keys (k ∷ keys) = insert_key k (sort_keys keys)

unfoldable pub keys_of : List ManifestEntry → List ManifestEntry → List Bytes
unfolding other_keys is_found
keys_of am bm = sort_keys (map (λ e. e.path) am ++ other_keys am bm)

-- The switch of `compareManifests`; `none` is its empty kind.
unfoldable pub change_of : Option ManifestEntry → Option ManifestEntry → Option ChangeKind
change_of none y = some added
change_of (some x) none = some removed
change_of (some x) (some y) =
    if not (same x.kind y.kind)
    then some type_changed
    else if not (same x.digest y.digest)
        || not (same x.link_target y.link_target)
        || not (same_int x.size y.size)
        || not (x.mode == y.mode)
    then some modified
    else none

report : Bytes → Option ChangeKind → CompareResult → CompareResult
report k none r = r
report k (some c) r = record { equal = false; changes = record { path = k; kind = c } ∷ r.changes }

-- The loop over the sorted keys.
unfoldable pub compare_keys : List ManifestEntry → List ManifestEntry → List Bytes → CompareResult
unfolding report
compare_keys am bm [] = record { equal = true; changes = [] }
compare_keys am bm (k ∷ keys) =
    report k (change_of (find_entry k am) (find_entry k bm)) (compare_keys am bm keys)

unfoldable pub compare_manifests : Manifest → Manifest → CompareResult
compare_manifests a b = compare_keys (map_of a) (map_of b) (keys_of (map_of a) (map_of b))

hex_digit : ℕ → Option ℕ
hex_digit c =
    if leb 48 c && leb c 57
    then some (c - 48)
    else if leb 97 c && leb c 102
    then some (c - 87)
    else if leb 65 c && leb c 70
    then some (c - 55)
    else none

hex_byte : Option ℕ → Option ℕ → Option Bytes → Option Bytes
hex_byte (some h) (some l) (some rest) = some ((16 * h + l) ∷ rest)
hex_byte _ _ _ = none

-- `hex.DecodeString`
unfoldable pub decode_hex : Bytes → Option Bytes
unfolding hex_digit hex_byte
decode_hex [] = some []
decode_hex (a ∷ []) = none
decode_hex (a ∷ b ∷ text) = hex_byte (hex_digit a) (hex_digit b) (decode_hex text)

is_digest : Option Bytes → Bool
is_digest none = false
is_digest (some d) = length d == 32

abbrev pub is_seen : Bytes → List Bytes → Bool
is_seen k [] = false
is_seen k (j ∷ seen) = same j k || is_seen k seen

-- The loop over the entries in `loadManifest`.
unfoldable pub check_entries : List Bytes → List ManifestEntry → Result (Unit {0})
unfolding is_digest
check_entries seen [] = ok tt
check_entries seen (e ∷ es) = do
  refuse_if (is_seen e.path seen) manifest_duplicate
  refuse_if (same e.kind (codes "file") && not (is_digest (decode_hex e.digest))) manifest_digest
  check_entries (e.path ∷ seen) es

decoded : Option Manifest → Result Manifest
decoded none = err malformed_manifest
decoded (some m) = ok m

-- `loadManifest`, on what reading the file up to one byte over the limit gives.
unfoldable pub load_manifest : (Bytes → Option Manifest) → Result Bytes → Result Manifest
unfolding decoded
load_manifest decode file = do
  text ← file
  refuse_if (ltb max_manifest_size (length text)) manifest_size
  m ← decoded (decode text)
  refuse_if
      (not (same_int m.schema_version (ℤ.pos 1)) || ltb max_manifest_entries (length m.entries))
      manifest_version
  check_entries [] m.entries
  ok m
