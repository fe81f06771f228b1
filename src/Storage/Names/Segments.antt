-- ===== src/Storage/Names/Segments.antt =====
-- The segments that a valid name has.
use cypherstorm.Base.{
  ℕ, ◌<◌, ◌≡◌, refl, subst, Bool, true, false, List, [], ◌∷◌, Bytes, length, ◌==◌, ◌||◌, same,
  arith, All, Bool-cases, inl, inr, ||-neither,
}
use cypherstorm.Fault.{ok, >>=-eq-ok, ok-injective}
use cypherstorm.Storage.Names.{
  contains, add_byte, split, is_abs, is_windows_drive_path, segments_of, some_segment,
  validate_entry_name,
}
use cypherstorm.Storage.Names.Split.{Lacks}

-- A segment: not empty, neither "." nor "..", and free of "/", NUL and backslash.
pub record IsSegment (s : Bytes) : Type 0 where
  pub nonempty : same s [] ≡ false
  pub no_dot : same s (46 ∷ []) ≡ false
  pub no_parent : same s (46 ∷ 46 ∷ []) ≡ false
  pub no_slash : Lacks 47 s
  pub no_nul : Lacks 0 s
  pub no_backslash : Lacks 92 s

-- What is left of a byte that the name lacks.
abbrev IsClear : Bytes → Type 0
IsClear s = Lacks 47 s × Lacks 0 s × Lacks 92 s

add_byte-IsClear :
    (c : ℕ) (pieces : List Bytes) (slash : Bool)
    → (c == 47) ≡ slash
    → (c == 0) ≡ false
    → (c == 92) ≡ false
    → All IsClear pieces
    → All IsClear (add_byte slash c pieces)
unfolding add_byte contains
add_byte-IsClear c pieces true e n0 b0 h = ((refl, refl, refl), h)
add_byte-IsClear c [] false e n0 b0 h = ((rw e refl, rw n0 refl, rw b0 refl), tt)
add_byte-IsClear c (p ∷ pieces) false e n0 b0 h = ((rw e h.0.0, rw n0 h.0.1, rw b0 h.0.2), h.1)

split-IsClear : (name : Bytes) → Lacks 0 name → Lacks 92 name → All IsClear (split name)
unfolding split contains
split-IsClear [] n b = ((refl, refl, refl), tt)
split-IsClear (c ∷ cs) n b =
    let (n0, ns) = ||-neither (c == 0) (contains 0 cs) n in
    let (b0, bs) = ||-neither (c == 92) (contains 92 cs) b in
    add_byte-IsClear c (split cs) (c == 47) refl n0 b0 (split-IsClear cs ns bs)

segments_of-IsSegment :
    (raw segments : List Bytes)
    → All IsClear raw
    → segments_of raw ≡ ok segments
    → All IsSegment segments
unfolding segments_of
segments_of-IsSegment [] segments h e = subst (All IsSegment) (ok-injective e) tt
segments_of-IsSegment (s ∷ raw) segments h e = elim (Bool-cases (same s [] || same s (46 ∷ []))) [
  | inl skip ↦ segments_of-IsSegment raw segments h.1 (rw skip at e)
  | inr keep ↦ elim (Bool-cases (same s (46 ∷ 46 ∷ []))) [
    | inl up ↦ let z = rw (keep, up) at e in cc
    | inr n ↦
        let (rest, r, q) = >>=-eq-ok (segments_of raw) _ (rw (keep, n) at e) in
        let (a, d) = ||-neither (same s []) (same s (46 ∷ [])) keep in
        subst (All IsSegment) (ok-injective q) (
          record {
            nonempty = a;
            no_dot = d;
            no_parent = n;
            no_slash = h.0.0;
            no_nul = h.0.1;
            no_backslash = h.0.2;
          },
          segments_of-IsSegment raw rest h.1 r,
        )
  ]
]

some_segment-nonempty :
    (raw segments : List Bytes)
    → some_segment raw ≡ ok segments
    → (raw ≡ segments) × (0 < length segments)
unfolding some_segment
some_segment-nonempty [] segments e = cc
some_segment-nonempty (s ∷ raw) segments e =
    let q = ok-injective e in (q, subst (λ z. 0 < length z) q (omega arith))

-- The checks before the loop, and its result.
pub validate_entry_name-parts :
    (name : Bytes) (segments : List Bytes)
    → validate_entry_name name ≡ ok segments
    → Lacks 0 name
      × Lacks 92 name
      × ((raw : List Bytes) × (segments_of (split name) ≡ ok raw)
          × (some_segment raw ≡ ok segments))
unfolding validate_entry_name
validate_entry_name-parts name segments e = elim (Bool-cases (length name == 0)) [
  | inl a ↦ let z = rw a at e in cc
  | inr a ↦ elim (Bool-cases (contains 0 name)) [
    | inl b ↦ let z = rw (a, b) at e in cc
    | inr b ↦ elim (Bool-cases (contains 92 name)) [
      | inl c ↦ let z = rw (a, b, c) at e in cc
      | inr c ↦ elim (Bool-cases (is_abs name || is_windows_drive_path name)) [
        | inl d ↦ let z = rw (a, b, c, d) at e in cc
        | inr d ↦ (b, c, >>=-eq-ok (segments_of (split name)) some_segment (rw (a, b, c, d) at e))
      ]
    ]
  ]
]

-- A name that validateEntryName accepts has at least one segment, and each segment is nonempty,
-- neither "." nor "..", and free of slashes, backslashes and NUL.
pub validate_entry_name-AreSegments :
    (name : Bytes) (segments : List Bytes)
    → validate_entry_name name ≡ ok segments
    → (0 < length segments) × All IsSegment segments
validate_entry_name-AreSegments name segments e =
    let (n, b, (raw, r, q)) = validate_entry_name-parts name segments e in
    let (eq, pos) = some_segment-nonempty raw segments q in
    (
      pos,
      subst (All IsSegment) eq (segments_of-IsSegment (split name) raw (split-IsClear name n b) r),
    )
