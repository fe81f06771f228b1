-- ===== src/App/Manifest/Compare.antt =====
-- The comparison of two manifests against the maps that they stand for.
pub mod Changes
use cypherstorm.Base.{
  not, ◌⊎◌, ◌≡◌, ◌≢◌, ◌↔◌, refl, sym, ap, ◌∙◌, subst, Bool, true, false, Option, none, some, List,
  [], ◌∷◌, ◌++◌, map, Bytes, ◌==◌, ==→eq, ◌||◌, same, same→eq, same_refl, if◌then◌else◌, same_int,
  same_int→eq, same_int_refl, ==_refl, Bool-cases, inl, inr, arith,
}
use cypherstorm.App.Manifest.{
  ManifestEntry, Manifest, ChangeKind, added, removed, type_changed, modified, Change,
  CompareResult, find_entry, map_of, is_found, other_keys, insert_key, sort_keys, keys_of,
  change_of, report, compare_keys, compare_manifests, is_seen,
}

insert_key-is_seen :
    (k j : Bytes) (keys : List Bytes) → is_seen k (insert_key j keys) ≡ is_seen k (j ∷ keys)
unfolding insert_key
insert_key-is_seen k j [] = refl
insert_key-is_seen k j (i ∷ keys) = ground (arith, insert_key-is_seen k j keys)

sort_keys-is_seen : (k : Bytes) (keys : List Bytes) → is_seen k (sort_keys keys) ≡ is_seen k keys
unfolding sort_keys
sort_keys-is_seen k [] = refl
sort_keys-is_seen k (j ∷ keys) =
    insert_key-is_seen k j (sort_keys keys) ∙ ap (λ b. same j k || b) (sort_keys-is_seen k keys)

append-is_seen :
    (k : Bytes) (xs ys : List Bytes) → is_seen k (xs ++ ys) ≡ (is_seen k xs || is_seen k ys)
append-is_seen k [] ys = refl
append-is_seen k (x ∷ xs) ys = ground (arith, append-is_seen k xs ys)

paths-is_seen :
    (k : Bytes) (m : List ManifestEntry)
    → is_seen k (map (λ e. e.path) m) ≡ is_found (find_entry k m)
unfolding find_entry is_found
paths-is_seen k [] = refl
paths-is_seen k (e ∷ m) = ground (arith, paths-is_seen k m)

found-cons :
    (k : Bytes) (f : ManifestEntry) (m : List ManifestEntry)
    → is_found (find_entry k (f ∷ m)) ≡ (same f.path k || is_found (find_entry k m))
unfolding find_entry is_found
found-cons k f m = ground arith

-- A key of the second map is listed, unless the first map has it.
other_keys-is_seen :
    (k : Bytes) (am bm : List ManifestEntry)
    → is_seen k (other_keys am bm)
      ≡ (if is_found (find_entry k am) then false else is_found (find_entry k bm))
unfolding other_keys
other_keys-is_seen k am [] = unfold find_entry is_found in ground arith
other_keys-is_seen k am (f ∷ bm) = elim (Bool-cases (same f.path k)) [
  | inl y ↦
      let moved : is_found (find_entry f.path am) ≡ is_found (find_entry k am) =
        ap (λ p. is_found (find_entry p am)) (same→eq f.path k y) in
      ground (arith, other_keys-is_seen k am bm, found-cons k f bm)
  | inr n ↦ ground (arith, other_keys-is_seen k am bm, found-cons k f bm)
]

keys_of-is_seen :
    (k : Bytes) (am bm : List ManifestEntry)
    → is_seen k (keys_of am bm) ≡ (is_found (find_entry k am) || is_found (find_entry k bm))
unfolding keys_of
keys_of-is_seen k am bm =
    sort_keys-is_seen k (map (λ e. e.path) am ++ other_keys am bm)
    ∙ append-is_seen k (map (λ e. e.path) am) (other_keys am bm)
    ∙ rw (paths-is_seen k am, other_keys-is_seen k am bm) (ground arith)

-- What a report says of a path: the first change that it lists for it.
abbrev pub change_at : Bytes → List Change → Option ChangeKind
change_at k [] = none
change_at k (c ∷ changes) = if same c.path k then some c.kind else change_at k changes

-- What two maps say of a path; a path of neither has not changed.
abbrev pub expected : Option ManifestEntry → Option ManifestEntry → Option ChangeKind
expected none none = none
expected none (some y) = some added
expected (some x) y = change_of (some x) y

first_change : Option ChangeKind → Option ChangeKind → Option ChangeKind
first_change none rest = rest
first_change (some c) rest = some c

change_at-report :
    (k j : Bytes) (o : Option ChangeKind) (r : CompareResult)
    → change_at k (report j o r).changes
      ≡ (if same j k then first_change o (change_at k r.changes) else change_at k r.changes)
unfolding report first_change
change_at-report k j none r = ground arith
change_at-report k j (some c) r = refl

first_change_same :
    (o rest : Option ChangeKind) (b : Bool)
    → rest ≡ (if b then o else none)
    → first_change o rest ≡ o
unfolding first_change
first_change_same none rest true h = h
first_change_same none rest false h = h
first_change_same (some c) rest b h = refl

module _ (am bm : List ManifestEntry) where
  change_at-compare_keys :
      (k : Bytes) (keys : List Bytes)
      → change_at k (compare_keys am bm keys).changes
        ≡ (if is_seen k keys then change_of (find_entry k am) (find_entry k bm) else none)
  unfolding compare_keys
  change_at-compare_keys k [] = refl
  change_at-compare_keys k (j ∷ keys) =
      let rest = compare_keys am bm keys in
      let ih = change_at-compare_keys k keys in
      elim (Bool-cases (same j k)) [
        | inr n ↦
            rw (change_at-report k j (change_of (find_entry j am) (find_entry j bm)) rest, n) ih
        | inl y ↦
            let moved : change_of (find_entry j am) (find_entry j bm)
                ≡ change_of (find_entry k am) (find_entry k bm) =
              ap (λ p. change_of (find_entry p am) (find_entry p bm)) (same→eq j k y) in
            rw (change_at-report k j (change_of (find_entry j am) (find_entry j bm)) rest, y, moved)
              (first_change_same (change_of (find_entry k am) (find_entry k bm))
                (change_at k rest.changes) (is_seen k keys) ih)
      ]

  -- The result is equal exactly if it lists no change.
  equal-compare_keys :
      (keys : List Bytes)
      → (compare_keys am bm keys).equal ≡ true
      → (k : Bytes) → change_at k (compare_keys am bm keys).changes ≡ none
  unfolding compare_keys
  equal-compare_keys [] e k = refl
  equal-compare_keys (j ∷ keys) e k =
      reported (change_of (find_entry j am) (find_entry j bm)) (λ h. equal-compare_keys keys h k) e
    where
      reported :
          (o : Option ChangeKind)
          → ((compare_keys am bm keys).equal ≡ true
              → change_at k (compare_keys am bm keys).changes ≡ none)
          → (report j o (compare_keys am bm keys)).equal ≡ true
          → change_at k (report j o (compare_keys am bm keys)).changes ≡ none
      reported none ih h = ih h
      reported (some c) ih h = cc

  unchanged-compare_keys :
      (keys : List Bytes)
      → ((k : Bytes) → change_at k (compare_keys am bm keys).changes ≡ none)
      → (compare_keys am bm keys).equal ≡ true
  unfolding compare_keys
  unchanged-compare_keys [] h = refl
  unchanged-compare_keys (j ∷ keys) h =
      reported (change_of (find_entry j am) (find_entry j bm)) (unchanged-compare_keys keys) h
    where
      reported :
          (o : Option ChangeKind)
          → (((k : Bytes) → change_at k (compare_keys am bm keys).changes ≡ none)
              → (compare_keys am bm keys).equal ≡ true)
          → ((k : Bytes) → change_at k (report j o (compare_keys am bm keys)).changes ≡ none)
          → (report j o (compare_keys am bm keys)).equal ≡ true
      reported none ih g = ih g
      reported (some c) ih g = let z = rw (same_refl j) at (g j) in cc

expected-listed :
    (x y : Option ManifestEntry)
    → (if is_found x || is_found y then change_of x y else none) ≡ expected x y
unfolding is_found change_of
expected-listed none none = refl
expected-listed none (some y) = refl
expected-listed (some x) y = refl

compare_manifests-expected :
    (a b : Manifest) (k : Bytes)
    → change_at k (compare_manifests a b).changes
      ≡ expected (find_entry k (map_of a)) (find_entry k (map_of b))
unfolding compare_manifests
compare_manifests-expected a b k =
    change_at-compare_keys (map_of a) (map_of b) k (keys_of (map_of a) (map_of b))
    ∙ rw (keys_of-is_seen k (map_of a) (map_of b))
        (expected-listed (find_entry k (map_of a)) (find_entry k (map_of b)))

found-path :
    (k : Bytes) (m : List ManifestEntry) (e : ManifestEntry) → find_entry k m ≡ some e → e.path ≡ k
unfolding find_entry
found-path k [] e h = cc
found-path k (f ∷ m) e h = elim (Bool-cases (same f.path k)) [
  | inl y ↦
      let z : some f ≡ some e = rw y at h in
      let q : f ≡ e = cc in subst (λ g. g.path ≡ k) q (same→eq f.path k y)
  | inr n ↦ found-path k m e (rw n at h)
]

tests_hold :
    (x y : ManifestEntry)
    → change_of (some x) (some y) ≡ none
    → (same x.kind y.kind ≡ true)
      × (same x.digest y.digest ≡ true)
      × (same x.link_target y.link_target ≡ true)
      × (same_int x.size y.size ≡ true)
      × ((x.mode == y.mode) ≡ true)
unfolding change_of
tests_hold x y h = ground arith

change_of-none :
    (x y : ManifestEntry) → x.path ≡ y.path → change_of (some x) (some y) ≡ none → x ≡ y
change_of-none x y p h =
    let (k, d, l, s, m) = tests_hold x y h in
    ground (
      arith,
      same→eq x.kind y.kind k,
      same→eq x.digest y.digest d,
      same→eq x.link_target y.link_target l,
      same_int→eq x.size y.size s,
      ==→eq x.mode y.mode m,
    )

removed_changed : (x : ManifestEntry) → change_of (some x) none ≡ none → some x ≡ none
unfolding change_of
removed_changed x e = cc

unchanged_eq :
    (k : Bytes) (am bm : List ManifestEntry)
    → expected (find_entry k am) (find_entry k bm) ≡ none
    → find_entry k am ≡ find_entry k bm
unchanged_eq k am bm h = both (find_entry k am) (find_entry k bm) refl refl h
  where
    both :
        (x y : Option ManifestEntry)
        → find_entry k am ≡ x
        → find_entry k bm ≡ y
        → expected x y ≡ none
        → x ≡ y
    both none none p q e = refl
    both none (some y) p q e = cc
    both (some x) none p q e = removed_changed x e
    both (some x) (some y) p q e =
        ap some (change_of-none x y (found-path k am x p ∙ sym (found-path k bm y q)) e)

expected-same : (x : Option ManifestEntry) → expected x x ≡ none
unfolding change_of
expected-same none = refl
expected-same (some x) =
    rw
      (
        same_refl x.kind,
        same_refl x.digest,
        same_refl x.link_target,
        same_int_refl x.size,
        ==_refl x.mode,
      )
      refl

-- The comparison reports equality exactly if the two manifests stand for the same map from paths to
-- entries.
pub compare_manifests_iff :
    (a b : Manifest)
    → ((compare_manifests a b).equal ≡ true)
      ↔ ((k : Bytes) → find_entry k (map_of a) ≡ find_entry k (map_of b))
compare_manifests_iff a b =
    let keys = keys_of (map_of a) (map_of b) in
    (
      λ e k. unchanged_eq k (map_of a) (map_of b) (
          sym (compare_manifests-expected a b k)
          ∙ (unfold compare_manifests in equal-compare_keys (map_of a) (map_of b) keys e k)),
      λ h.
          unfold compare_manifests in
          unchanged-compare_keys (map_of a) (map_of b) keys (λ k.
            compare_manifests-expected a b k ∙ rw (h k) (expected-same (find_entry k (map_of b)))),
    )
