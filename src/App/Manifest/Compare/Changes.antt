-- ===== src/App/Manifest/Compare/Changes.antt =====
-- What `compareManifests` lists of each path.
use cypherstorm.Base.{
  not, ◌⊎◌, ◌≡◌, ◌≢◌, refl, sym, ◌∙◌, subst, true, false, Option, none, some, Bytes, ◌==◌, ◌||◌,
  same, same→eq, same_refl, same_int, Bool-cases, inl, inr,
}
use cypherstorm.App.Manifest.{
  ManifestEntry, Manifest, ChangeKind, added, removed, type_changed, modified, find_entry, map_of,
  change_of, compare_manifests,
}
use cypherstorm.App.Manifest.Compare.{
  change_at, expected, found-path, change_of-none, expected-same, compare_manifests-expected,
}

-- What a comparison has to say of a path, by the entries that two maps have for it.
pub data IsChange : Option ManifestEntry → Option ManifestEntry → Option ChangeKind → Type 0 where
  absent : IsChange none none none
  was_added : {y : ManifestEntry} → IsChange none (some y) (some added)
  was_removed : {x : ManifestEntry} → IsChange (some x) none (some removed)
  new_type :
      {x y : ManifestEntry} → x.kind ≢ y.kind → IsChange (some x) (some y) (some type_changed)
  new_rest :
      {x y : ManifestEntry} → x.kind ≡ y.kind → x ≢ y → IsChange (some x) (some y) (some modified)
  unchanged : {x y : ManifestEntry} → x ≡ y → IsChange (some x) (some y) none

unlike : (x y : Bytes) → same x y ≡ false → x ≢ y
unlike x y n e = cc (same_refl x, subst (λ z. same x z ≡ false) (sym e) n)

new_type-change_of :
    (x y : ManifestEntry)
    → same x.kind y.kind ≡ false
    → change_of (some x) (some y) ≡ some type_changed
unfolding change_of
new_type-change_of x y n = rw n refl

removed-change_of : (x : ManifestEntry) → change_of (some x) none ≡ some removed
unfolding change_of
removed-change_of x = refl

same_type :
    (x y : ManifestEntry)
    → same x.kind y.kind ≡ true
    → (change_of (some x) (some y) ≡ none) ⊎ (change_of (some x) (some y) ≡ some modified)
unfolding change_of
same_type x y k =
    elim (Bool-cases (
      not (same x.digest y.digest)
      || not (same x.link_target y.link_target)
      || not (same_int x.size y.size)
      || not (x.mode == y.mode))) [
        | inl t ↦ inr (rw k (rw t refl))
        | inr f ↦ inl (rw k (rw f refl))
      ]

-- The switch on two entries of one path.
change_of-IsChange :
    (x y : ManifestEntry)
    → x.path ≡ y.path
    → IsChange (some x) (some y) (change_of (some x) (some y))
change_of-IsChange x y p = elim (Bool-cases (same x.kind y.kind)) [
  | inr n ↦
      subst (IsChange (some x) (some y)) (sym (new_type-change_of x y n))
        (new_type (unlike x.kind y.kind n))
  | inl k ↦ elim (same_type x y k) [
    | inl none_found ↦
        subst (IsChange (some x) (some y)) (sym none_found)
          (unchanged (change_of-none x y p none_found))
    | inr found ↦ subst (IsChange (some x) (some y)) (sym found) (
        new_rest (same→eq x.kind y.kind k) (λ e.
          cc (found, subst (λ z. change_of (some x) (some z) ≡ none) e (expected-same (some x)))))
  ]
]

-- For every path, what the comparison lists is right by the entries that the two manifests have for it:
-- nothing, if neither has one or both have the same; added or removed, if one of them has none; a
-- change of type, if the types differ; and a modification, if anything else does.
pub compare_manifests-IsChange :
    (a b : Manifest) (k : Bytes)
    → IsChange
        (find_entry k (map_of a))
        (find_entry k (map_of b))
        (change_at k (compare_manifests a b).changes)
compare_manifests-IsChange a b k =
    subst (IsChange (find_entry k (map_of a)) (find_entry k (map_of b)))
      (sym (compare_manifests-expected a b k))
      (both (find_entry k (map_of a)) (find_entry k (map_of b)) refl refl)
  where
    both :
        (x y : Option ManifestEntry)
        → find_entry k (map_of a) ≡ x
        → find_entry k (map_of b) ≡ y
        → IsChange x y (expected x y)
    both none none p q = absent
    both none (some y) p q = was_added
    both (some x) none p q = subst (IsChange (some x) none) (sym (removed-change_of x)) was_removed
    both (some x) (some y) p q =
        change_of-IsChange x y (found-path k (map_of a) x p ∙ sym (found-path k (map_of b) y q))
