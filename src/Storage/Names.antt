-- ===== src/Storage/Names.antt =====
-- internal/storage/archive/extract.go: the names of archive entries. A name is the bytes of a Go
-- string.
pub mod Split
pub mod Segments
pub mod Canonical
use cypherstorm.Base.{
  ℕ, Bool, true, false, List, [], ◌∷◌, ◌++◌, Bytes, length, leb, ◌==◌, not, ◌&&◌, ◌||◌, same,
  if◌then◌else◌,
}
use cypherstorm.Fault.{
  Error, Result, ok, err, ◌>>=◌, name_empty, name_nul, name_backslash, name_absolute,
  name_traversal, name_no_path,
}

-- `strings.ContainsRune` and `strings.Contains` for one ASCII byte
unfoldable pub contains : ℕ → Bytes → Bool
contains c [] = false
contains c (x ∷ xs) = x == c || contains c xs

unfoldable pub add_byte : Bool → ℕ → List Bytes → List Bytes
add_byte true c pieces = [] ∷ pieces
add_byte false c [] = (c ∷ []) ∷ []
add_byte false c (p ∷ pieces) = (c ∷ p) ∷ pieces

-- `strings.Split(name, "/")`
unfoldable pub split : Bytes → List Bytes
unfolding add_byte
split [] = [] ∷ []
split (c ∷ cs) = add_byte (c == 47) c (split cs)

-- `strings.Join(segments, "/")`, as the callers of `validateEntryName` use it
unfoldable pub join : List Bytes → Bytes
join [] = []
join (s ∷ []) = s
join (s ∷ t ∷ rest) = s ++ 47 ∷ join (t ∷ rest)

-- `path.IsAbs`
unfoldable pub is_abs : Bytes → Bool
is_abs [] = false
is_abs (c ∷ cs) = c == 47

unfoldable pub is_letter : ℕ → Bool
is_letter c = leb 65 c && leb c 90 || leb 97 c && leb c 122

unfoldable pub is_windows_drive_path : Bytes → Bool
is_windows_drive_path [] = false
is_windows_drive_path (c ∷ []) = false
is_windows_drive_path (c ∷ d ∷ cs) = if not (d == 58) then false else is_letter c

-- The loop over the pieces of a name: empty pieces and "." are dropped, ".." is an error.
unfoldable pub segments_of : List Bytes → Result (List Bytes)
segments_of [] = ok []
segments_of (s ∷ raw) =
    let rest = segments_of raw in
    if same s [] || same s (46 ∷ [])
    then rest
    else if same s (46 ∷ 46 ∷ [])
    then err name_traversal
    else (do segments ← rest; ok (s ∷ segments))

pub some_segment : List Bytes → Result (List Bytes)
some_segment [] = err name_no_path
some_segment (s ∷ segments) = ok (s ∷ segments)

unfoldable pub validate_entry_name : Bytes → Result (List Bytes)
unfolding some_segment
validate_entry_name name =
    if length name == 0
    then err name_empty
    else if contains 0 name
    then err name_nul
    else if contains 92 name
    then err name_backslash
    else if is_abs name || is_windows_drive_path name
    then err name_absolute
    else (do segments ← segments_of (split name); some_segment segments)
