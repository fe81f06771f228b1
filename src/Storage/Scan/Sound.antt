-- ===== src/Storage/Scan/Sound.antt =====
-- What holds of every scan that has not failed: the loop's invariant.
use cypherstorm.Base.{
  if◌then◌else◌, Bool, ℕ, ◌+◌, ◌≤◌, ◌<◌, ◌≡◌, refl, subst, true, false, Option, none, some, List,
  [], ◌∷◌, ◌++◌, Bytes, length, ltb, ltb→le, same, ℤ, pos, negsuc, All, All-append, Bool-cases, inl,
  inr, arith,
}
use cypherstorm.Fault.{Error, ok, >>-eq-ok, ok-injective}
use cypherstorm.Storage.Names.{join, split}
use cypherstorm.Storage.Names.Segments.{IsSegment}
use cypherstorm.Storage.Links.{validate_portable_symlink}
use cypherstorm.Storage.Links.Stays.{stays}
use cypherstorm.Storage.Links.Confined.{is_unsafe}
use cypherstorm.Storage.Limits.{Limits}
use cypherstorm.Storage.Scan.{
  TypeFlag, type_reg, type_dir, type_symlink, type_other, TarHeader, EntryType, entry_file,
  entry_dir, entry_symlink, Entry, ScanSummary, Scan, empty_scan, lookup_seen, Typed, scan_file,
  scan_typed,
}

abbrev pub total_size : List Entry → ℕ
total_size [] = 0
total_size (e ∷ es) = e.size + total_size es

-- No two entries have the same path.
abbrev pub AreDistinct : List Entry → Type 0
AreDistinct [] = Unit
AreDistinct (e ∷ es) = All (λ f. same e.path f.path ≡ false) es × AreDistinct es

abbrev pub same_kind : EntryType → EntryType → Bool
same_kind entry_file entry_file = true
same_kind entry_dir entry_dir = true
same_kind entry_symlink entry_symlink = true
same_kind _ _ = false

-- An entry within the policy, with the segments of its path.
pub record IsAccepted (lim : Limits) (e : Entry) : Type 0 where
  pub first : Bytes
  pub rest : List Bytes
  pub path_is : e.path ≡ join (first ∷ rest)
  pub valid : All IsSegment (first ∷ rest)
  pub depth : length rest < lim.path_depth
  pub small : e.size ≤ lim.entry_size
  pub confined :
      e.kind ≡ entry_symlink
      → (is_unsafe e.link_target ≡ false)
        × (stays (some (length rest)) (split e.link_target) ≡ true)

-- The number of visited entries of one kind.
abbrev pub count_kind : EntryType → List Entry → ℕ
count_kind k [] = 0
count_kind k (e ∷ es) = (if same_kind e.kind k then 1 else 0) + count_kind k es

-- The counts and the totals of the summary.
pub record IsCounted (lim : Limits) (s : ScanSummary) (visited : List Entry) : Type 0 where
  pub counted : s.entries ≡ length visited
  pub files_are : s.files ≡ count_kind entry_file visited
  pub dirs_are : s.dirs ≡ count_kind entry_dir visited
  pub links_are : s.links ≡ count_kind entry_symlink visited
  pub total : s.bytes ≡ total_size visited
  pub entries_bound : s.entries ≤ lim.entries
  pub bytes_bound : s.bytes ≤ lim.total_size

pub record IsSound (lim : Limits) (st : Scan) : Type 0 where
  pub totals : IsCounted lim st.summary st.visited
  pub accepted : All (IsAccepted lim) st.visited
  pub distinct : AreDistinct st.visited
  pub tracked :
      (name : Bytes)
      → lookup_seen name st.seen ≡ none
      → All (λ e. same e.path name ≡ false) st.visited

pub empty_scan-IsSound : (lim : Limits) → IsSound lim empty_scan
empty_scan-IsSound lim = record {
  totals = omega arith;
  accepted = tt;
  distinct = tt;
  tracked = λ name e. tt;
}

pub total_size-append :
    (es : List Entry) (e : Entry) → total_size (es ++ (e ∷ [])) ≡ total_size es + e.size
total_size-append [] e = omega arith
total_size-append (x ∷ es) e = omega (arith, total_size-append es e)

pub count_kind-append :
    (k : EntryType) (es fs : List Entry)
    → count_kind k (es ++ fs) ≡ count_kind k es + count_kind k fs
count_kind-append k [] fs = omega arith
count_kind-append k (e ∷ es) fs = omega (arith, count_kind-append k es fs)

pub append-AreDistinct :
    (es : List Entry) (e : Entry)
    → AreDistinct es
    → All (λ f. same f.path e.path ≡ false) es
    → AreDistinct (es ++ (e ∷ []))
append-AreDistinct [] e d a = (tt, tt)
append-AreDistinct (x ∷ es) e d a =
    (All-append _ es (e ∷ []) d.0 (a.0, tt), append-AreDistinct es e d.1 a.1)

-- What the switch on the type has checked.
pub record IsTyped (lim : Limits) (s : ScanSummary) (e : Entry) (t : Typed) : Type 0 where
  pub same_path : t.visit.path ≡ e.path
  pub small : t.visit.size ≤ lim.entry_size
  pub confined :
      t.visit.kind ≡ entry_symlink → validate_portable_symlink e.path t.visit.link_target ≡ ok tt
  pub entries : t.summary.entries ≡ s.entries
  pub files_are : t.summary.files ≡ s.files + count_kind entry_file (t.visit ∷ [])
  pub dirs_are : t.summary.dirs ≡ s.dirs + count_kind entry_dir (t.visit ∷ [])
  pub links_are : t.summary.links ≡ s.links + count_kind entry_symlink (t.visit ∷ [])
  pub bytes : t.summary.bytes ≡ s.bytes + t.visit.size
  pub bytes_bound : s.bytes ≤ lim.total_size → t.summary.bytes ≤ lim.total_size

abbrev kind_number : EntryType → ℕ
kind_number entry_file = 0
kind_number entry_dir = 1
kind_number entry_symlink = 2

module _ (lim : Limits) (s : ScanSummary) (e : Entry) (t : Typed) where
  scan_file-IsTyped :
      (payload : Option Error) (size : ℤ)
      → scan_file lim s e payload size ≡ ok t
      → IsTyped lim s e t
  unfolding scan_file
  scan_file-IsTyped payload (negsuc n) h = cc
  scan_file-IsTyped (some x) (pos n) h = ground arith
  scan_file-IsTyped none (pos n) h = elim (Bool-cases (ltb lim.entry_size n)) [
    | inl a ↦ let z = rw a at h in cc
    | inr a ↦ elim (Bool-cases (ltb lim.total_size (s.bytes + n))) [
      | inl b ↦ let z = rw (a, b) at h in cc
      | inr b ↦ subst (IsTyped lim s e) (ok-injective (rw (a, b) at h)) (record {
        same_path = refl;
        small = ltb→le lim.entry_size n a;
        confined = λ k. cc;
        entries = refl;
        files_are = omega arith;
        dirs_are = omega arith;
        links_are = omega arith;
        bytes = refl;
        bytes_bound = λ k. ltb→le lim.total_size (s.bytes + n) b;
      })
    ]
  ]

  pub scan_typed-IsTyped :
      (h : TarHeader) (payload : Option Error) (flag : TypeFlag)
      → e.size ≡ 0
      → scan_typed lim s e h payload flag ≡ ok t
      → IsTyped lim s e t
  unfolding scan_typed
  scan_typed-IsTyped h payload type_reg z q = scan_file-IsTyped payload h.size q
  scan_typed-IsTyped h payload type_dir z q = subst (IsTyped lim s e) (ok-injective q) (record {
    same_path = refl;
    small = omega (arith, z);
    confined = λ k. cc;
    entries = refl;
    files_are = omega arith;
    dirs_are = omega arith;
    links_are = omega arith;
    bytes = omega (arith, z);
    bytes_bound = λ k. k;
  })
  scan_typed-IsTyped h payload type_symlink z q =
      let (u, v, w) = >>-eq-ok (validate_portable_symlink e.path h.linkname) _ q in
      subst (IsTyped lim s e) (ok-injective w) (record {
        same_path = refl;
        small = omega (arith, z);
        confined = λ k. v;
        entries = refl;
        files_are = omega arith;
        dirs_are = omega arith;
        links_are = omega arith;
        bytes = omega (arith, z);
        bytes_bound = λ k. k;
      })
  scan_typed-IsTyped h payload (type_other k) z q = cc
