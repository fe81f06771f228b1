-- ===== src/App/Manifest/Check.antt =====
-- What a loaded manifest satisfies, and that its map keeps every entry.
use cypherstorm.Base.{
  ◌≤◌, ◌≡◌, refl, ap, ◌∙◌, subst, Bool, true, false, Option, none, some, List, [], ◌∷◌, map, Bytes,
  codes, length, ltb, ltb→le, ==→eq, not, ◌&&◌, ◌||◌, ||-neither, same, same→eq, same_refl,
  same_comm, if◌then◌else◌, ℤ, same_int, same_int→eq, All, Bool-cases, inl, inr, arith,
}
use cypherstorm.Fault.{
  Error, Result, ok, >>=-eq-ok, >>-eq-ok, refuse_if, refuse_if-eq-ok, ok-injective,
}
use cypherstorm.App.Manifest.{
  ManifestEntry, Manifest, max_manifest_size, max_manifest_entries, set_entry, add_entries,
  find_entry, map_of, is_seen, decode_hex, is_digest, check_entries, decoded, load_manifest,
}

abbrev paths : List ManifestEntry → List Bytes
paths = map (λ e. e.path)

-- No path stands twice.
abbrev pub AreDistinct : List ManifestEntry → Type 0
AreDistinct [] = Unit
AreDistinct (e ∷ es) = (is_seen e.path (paths es) ≡ false) × AreDistinct es

-- The digest of a file is the hexadecimal text of 32 bytes.
abbrev pub HasDigest : ManifestEntry → Type 0
HasDigest e =
    same e.kind (codes "file") ≡ true
    → (d : Bytes) × (decode_hex e.digest ≡ some d) × (length d ≡ 32)

is_digest-some :
    (o : Option Bytes) → is_digest o ≡ true → (d : Bytes) × (o ≡ some d) × (length d ≡ 32)
unfolding is_digest
is_digest-some none h = cc
is_digest-some (some d) h = (d, refl, ==→eq (length d) 32 h)

unseen_by :
    (k : Bytes) (seen : List Bytes) (es : List ManifestEntry)
    → All (λ f. is_seen f.path (k ∷ seen) ≡ false) es
    → (is_seen k (paths es) ≡ false) × All (λ f. is_seen f.path seen ≡ false) es
unseen_by k seen [] h = (refl, tt)
unseen_by k seen (f ∷ es) (h, hs) =
    let (a, b) = ||-neither (same k f.path) (is_seen f.path seen) h in
    let (c, d) = unseen_by k seen es hs in (rw (same_comm f.path k, a) c, (b, d))

-- What the loop over the entries has checked when it ends without an error.
checked :
    (seen : List Bytes) (es : List ManifestEntry)
    → check_entries seen es ≡ ok tt
    → All (λ e. is_seen e.path seen ≡ false) es × AreDistinct es × All HasDigest es
unfolding check_entries
checked seen [] h = (tt, tt, tt)
checked seen (e ∷ es) h =
    let (_, new, h1) = >>-eq-ok (refuse_if (is_seen e.path seen) Error.manifest_duplicate) _ h in
    let (_, digest, h2) =
      >>-eq-ok
        (refuse_if (same e.kind (codes "file") && not (is_digest (decode_hex e.digest)))
          Error.manifest_digest)
        _ h1 in
    let (unseen, distinct, digests) = checked (e.path ∷ seen) es h2 in
    let (apart, others) = unseen_by e.path seen es unseen in
    let good : HasDigest e = λ file.
      is_digest-some (decode_hex e.digest) (second_test _ _ file (refuse_if-eq-ok _ _ digest)) in
    ((refuse_if-eq-ok _ _ new, others), (apart, distinct), (good, digests))
  where
    second_test : (a b : Bool) → a ≡ true → (a && not b) ≡ false → b ≡ true
    second_test true true p q = refl
    second_test true false p q = cc
    second_test false b p q = cc

same_both : (a b k : Bytes) → same a k ≡ true → same b k ≡ true → same a b ≡ true
same_both a b k p q = rw (same→eq a k p, same→eq b k q) (same_refl k)

find_entry-set_entry :
    (k : Bytes) (e : ManifestEntry) (m : List ManifestEntry)
    → find_entry k (set_entry e m) ≡ (if same e.path k then some e else find_entry k m)
unfolding find_entry set_entry
find_entry-set_entry k e [] = refl
find_entry-set_entry k e (f ∷ m) = elim (Bool-cases (same f.path e.path)) [
  | inr n ↦ rw n (ground (arith, find_entry-set_entry k e m, same_both f.path e.path k))
  | inl y ↦
      let moved : same f.path k ≡ same e.path k = ap (λ p. same p k) (same→eq f.path e.path y) in
      rw y (ground arith)
]

find_entry-add_entries :
    (k : Bytes) (m es : List ManifestEntry)
    → is_seen k (paths es) ≡ false
    → find_entry k (add_entries m es) ≡ find_entry k m
unfolding add_entries
find_entry-add_entries k m [] h = refl
find_entry-add_entries k m (e ∷ es) h =
    let (a, b) = ||-neither (same e.path k) (is_seen k (paths es)) h in
    find_entry-add_entries k (set_entry e m) es b ∙ rw (find_entry-set_entry k e m, a) refl

-- Every entry of a list of distinct paths is what its map has under its path.
kept :
    (m es : List ManifestEntry)
    → AreDistinct es
    → All (λ e. find_entry e.path (add_entries m es) ≡ some e) es
unfolding add_entries
kept m [] h = tt
kept m (e ∷ es) (new, h) = (
  find_entry-add_entries e.path (set_entry e m) es new
      ∙ rw (find_entry-set_entry e.path e m, same_refl e.path) refl,
  kept (set_entry e m) es h,
)

decoded-some : (o : Option Manifest) (m : Manifest) → decoded o ≡ ok m → o ≡ some m
unfolding decoded
decoded-some none m h = cc
decoded-some (some n) m h = ap some (ok-injective h)

-- What `loadManifest` has checked of the manifest that it returns.
pub record IsLoaded (text : Bytes) (m : Manifest) : Type 0 where
  pub short : length text ≤ max_manifest_size
  pub version : m.schema_version ≡ ℤ.pos 1
  pub few : length m.entries ≤ max_manifest_entries
  pub distinct : AreDistinct m.entries
  pub digests : All HasDigest m.entries
  pub kept_entries : All (λ e. find_entry e.path (map_of m) ≡ some e) m.entries

version_and_count : (a b : Bool) → (not a || b) ≡ false → (a ≡ true) × (b ≡ false)
version_and_count true false h = (refl, refl)
version_and_count true true h = cc
version_and_count false b h = cc

-- A manifest that loadManifest returns is what the text decodes to: a text of at most 64 MiB, version
-- 1, at most a million entries, no path twice, a digest of 32 bytes for every file; and the map
-- that the comparison makes of it keeps every entry.
pub load_manifest-IsLoaded :
    (decode : Bytes → Option Manifest) (file : Result Bytes) (m : Manifest)
    → load_manifest decode file ≡ ok m
    → (text : Bytes) × (file ≡ ok text) × (decode text ≡ some m) × IsLoaded text m
unfolding load_manifest
load_manifest-IsLoaded decode file m h =
    let (text, read, h1) = >>=-eq-ok file _ h in
    let (_, short, h2) =
      >>-eq-ok (refuse_if (ltb max_manifest_size (length text)) Error.manifest_size) _ h1 in
    let (n, parsed, h3) = >>=-eq-ok (decoded (decode text)) _ h2 in
    let (_, sane, h4) =
      >>-eq-ok
        (refuse_if
          (not (same_int n.schema_version (ℤ.pos 1)) || ltb max_manifest_entries (length n.entries))
          Error.manifest_version)
        _ h3 in
    let (_, entries, h5) = >>-eq-ok (check_entries [] n.entries) _ h4 in
    let (version, few) = version_and_count _ _ (refuse_if-eq-ok _ _ sane) in
    let (_, distinct, digests) = checked [] n.entries entries in
    subst (λ x. (text : Bytes) × (file ≡ ok text) × (decode text ≡ some x) × IsLoaded text x)
      (ok-injective h5)
      (
        text,
        read,
        decoded-some (decode text) n parsed,
        record {
          short = ltb→le max_manifest_size (length text) (refuse_if-eq-ok _ _ short);
          version = same_int→eq n.schema_version (ℤ.pos 1) version;
          few = ltb→le max_manifest_entries (length n.entries) few;
          distinct = distinct;
          digests = digests;
          kept_entries = kept [] n.entries distinct;
        },
      )
