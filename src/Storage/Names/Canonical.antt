-- ===== src/Storage/Names/Canonical.antt =====
-- The joined segments of a valid name, and the drive form that they can take.
use cypherstorm.Base.{
  ℕ, suc, ◌<◌, ◌≡◌, refl, true, false, List, [], ◌∷◌, ◌++◌, Bytes, length, ◌==◌, same, arith, All,
  ||-neither,
}
use cypherstorm.Fault.{ok, err, name_absolute}
use cypherstorm.Storage.Names.{
  contains, add_byte, split, join, is_abs, is_letter, is_windows_drive_path, segments_of,
  some_segment, validate_entry_name,
}
use cypherstorm.Storage.Names.Split.{Lacks, split-piece, split-join}
use cypherstorm.Storage.Names.Segments.{IsSegment, validate_entry_name-AreSegments}

contains-append : (c : ℕ) (xs ys : Bytes) → Lacks c xs → Lacks c ys → Lacks c (xs ++ ys)
unfolding contains
contains-append c [] ys h k = k
contains-append c (x ∷ xs) ys h k =
    let (a, b) = ||-neither (x == c) (contains c xs) h in rw a (contains-append c xs ys b k)

contains-join :
    (c : ℕ) (segments : List Bytes)
    → (47 == c) ≡ false
    → All (Lacks c) segments
    → Lacks c (join segments)
unfolding join contains
contains-join c [] n h = refl
contains-join c (s ∷ []) n h = h.0
contains-join c (s ∷ t ∷ rest) n h =
    contains-append c s (47 ∷ join (t ∷ rest)) h.0 (rw n (contains-join c (t ∷ rest) n h.1))

pub All-Lacks :
    (segments : List Bytes)
    → All IsSegment segments
    → All (Lacks 0) segments × All (Lacks 92) segments × All (Lacks 47) segments
All-Lacks [] h = (tt, tt, tt)
All-Lacks (s ∷ rest) h =
    let (a, b, c) = All-Lacks rest h.1 in
    ((h.0.no_nul, a), (h.0.no_backslash, b), (h.0.no_slash, c))

segments_of-same :
    (segments : List Bytes) → All IsSegment segments → segments_of segments ≡ ok segments
unfolding segments_of
segments_of-same [] h = refl
segments_of-same (s ∷ rest) h =
    rw (h.0.nonempty, h.0.no_dot, h.0.no_parent, segments_of-same rest h.1) refl

-- The joined path is neither empty nor absolute.
pub join-start :
    (s : Bytes) (rest : List Bytes)
    → All IsSegment (s ∷ rest)
    → ((length (join (s ∷ rest)) == 0) ≡ false) × (is_abs (join (s ∷ rest)) ≡ false)
unfolding join is_abs contains same
join-start [] rest h = cc h.0.nonempty
join-start (c ∷ cs) [] h = (ground arith, (||-neither (c == 47) (contains 47 cs) h.0.no_slash).0)
join-start (c ∷ cs) (t ∷ rest) h =
    (ground arith, (||-neither (c == 47) (contains 47 cs) h.0.no_slash).0)

rebuilt :
    (segments : List Bytes)
    → 0 < length segments
    → All IsSegment segments
    → is_windows_drive_path (join segments) ≡ false
    → validate_entry_name (join segments) ≡ ok segments
unfolding validate_entry_name some_segment
rebuilt [] pos h d = absurd (omega arith)
rebuilt (s ∷ rest) pos h d =
    let (full, relative) = join-start s rest h in
    let (n, b, l) = All-Lacks (s ∷ rest) h in
    rw
      (
        full,
        contains-join 0 (s ∷ rest) refl n,
        contains-join 92 (s ∷ rest) refl b,
        relative,
        d,
        split-join s rest l,
        segments_of-same (s ∷ rest) h,
      )
      refl

-- The path that is joined from the segments of an accepted name is accepted with the same segments,
-- unless the path is a Windows drive path.
pub validate_entry_name-join :
    (name : Bytes) (segments : List Bytes)
    → validate_entry_name name ≡ ok segments
    → is_windows_drive_path (join segments) ≡ false
    → validate_entry_name (join segments) ≡ ok segments
validate_entry_name-join name segments e d =
    let (pos, h) = validate_entry_name-AreSegments name segments e in rebuilt segments pos h d

letter_differs :
    (c : ℕ)
    → is_letter c ≡ true
    → ((c == 47) ≡ false) × ((c == 0) ≡ false) × ((c == 92) ≡ false) × ((c == 46) ≡ false)
unfolding is_letter
letter_differs c l = (ground arith, ground arith, ground arith, ground arith)

suc_not_zero : (n : ℕ) → (suc n == 0) ≡ false
suc_not_zero n = ground arith

-- A drive path whose rest has no slash, NUL or backslash is refused, but "./" in front of it makes
-- it accepted, with the drive path itself as its one segment.
pub dot_drive_accepted :
    (c : ℕ) (rest : Bytes)
    → is_letter c ≡ true
    → Lacks 47 rest
    → Lacks 0 rest
    → Lacks 92 rest
    → (validate_entry_name (c ∷ 58 ∷ rest) ≡ err name_absolute)
      × (validate_entry_name (46 ∷ 47 ∷ c ∷ 58 ∷ rest) ≡ ok ((c ∷ 58 ∷ rest) ∷ []))
unfolding validate_entry_name some_segment contains is_abs is_windows_drive_path split add_byte
    segments_of same
dot_drive_accepted c rest l s n b =
    let (ls, ln, lb, ld) = letter_differs c l in
    (
      rw (n, b, ln, lb, ls, l, suc_not_zero (suc (length rest))) refl,
      rw (n, b, ln, lb, ls, split-piece rest s, ld, suc_not_zero (suc (suc (suc (length rest)))))
          refl,
    )
