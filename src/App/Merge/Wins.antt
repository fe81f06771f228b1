-- ===== src/App/Merge/Wins.antt =====
-- With the policy to overwrite, a merge puts everything from the source in its place.
use cypherstorm.Base.{
  ℕ, ◌≡◌, refl, sym, ap, ◌∙◌, subst, true, false, Option, none, some, List, [], ◌∷◌, Bytes, same,
  same_refl, Bool-cases, inl, inr,
}
use cypherstorm.Fault.{Error, ok, >>=-eq-ok, ok-injective}
use cypherstorm.App.Merge.{
  Tree, file, link, dir, Forest, nil, cons, conflict_overwrite, find, set, resolve_conflict,
  merge_trees, merge_tree,
}
use cypherstorm.App.Merge.Trees.{
  lookup, is_leaf, find-set, find_moved, lookup-dir, lookup-inv, root_not_leaf,
}
use cypherstorm.App.Merge.Keeps.{change-done}

-- No directory has a name twice.
pub data IsProper : Tree → Type 0 where
  proper_file : {b : Bytes} {m : ℕ} → IsProper (file b m)
  proper_link : {b : Bytes} → IsProper (link b)
  proper_nil : IsProper (dir nil)
  proper_cons :
      {n : Bytes} {t : Tree} {f : Forest}
      → find n f ≡ none
      → IsProper t
      → IsProper (dir f)
      → IsProper (dir (cons n t f))

find-cons_hit :
    (n k : Bytes) (t : Tree) (f : Forest) → same n k ≡ true → find k (cons n t f) ≡ some t
unfolding find
find-cons_hit n k t f y = rw y refl

find-cons_miss :
    (n k : Bytes) (t : Tree) (f : Forest) → same n k ≡ false → find k (cons n t f) ≡ find k f
unfolding find
find-cons_miss n k t f x = rw x refl

find-nil : (k : Bytes) → find k nil ≡ none
unfolding find
find-nil k = refl

find-set_self : (n : Bytes) (t : Tree) (f : Forest) → find n (set n t f) ≡ some t
find-set_self n t f = find-set n n t f ∙ rw (same_refl n) refl

placed :
    (at : List Bytes) (n : Bytes) (t : Tree) (dst g : Forest) (path : List Bytes) (x : Tree)
    → lookup path t ≡ some x
    → set n t dst ≡ g
    → (u : Tree) × (find n g ≡ some u) × (lookup path u ≡ some x)
placed at n t dst g path x q e = (t, subst (λ f. find n f ≡ some t) e (find-set_self n t dst), q)

module _ (fails : List Bytes → Option Error) where
  overwritten :
      (at : List Bytes) (n : Bytes) (t : Tree) (dst g : Forest)
      → resolve_conflict fails conflict_overwrite at n t dst ≡ ok g
      → set n t dst ≡ g
  unfolding resolve_conflict
  overwritten at n t dst g e = change-done fails _ g _ e

  -- One entry changes what stands under its own name, and nothing else.
  tree_sets :
      (at : List Bytes) (n : Bytes) (t : Tree) (o : Option Tree) (dst g : Forest)
      → merge_tree fails conflict_overwrite at n t o dst ≡ ok g
      → (u : Tree) × (set n u dst ≡ g)
  unfolding merge_tree
  tree_sets at n t none dst g e = (t, change-done fails _ g _ e)
  tree_sets at n (dir s) (some (dir d)) dst g e =
      let (merged, _, done) = >>=-eq-ok (merge_trees fails conflict_overwrite (n ∷ at) s d) _ e in
      (dir merged, ok-injective done)
  tree_sets at n (dir s) (some (file b m)) dst g e = (dir s, overwritten at n (dir s) dst g e)
  tree_sets at n (dir s) (some (link b)) dst g e = (dir s, overwritten at n (dir s) dst g e)
  tree_sets at n (file b m) (some u) dst g e = (file b m, overwritten at n (file b m) dst g e)
  tree_sets at n (link b) (some u) dst g e = (link b, overwritten at n (link b) dst g e)

  -- A name that the source does not have stays as it is.
  untouched :
      (at : List Bytes) (src dst g : Forest) (k : Bytes)
      → find k src ≡ none
      → merge_trees fails conflict_overwrite at src dst ≡ ok g
      → find k g ≡ find k dst
  unfolding merge_trees
  untouched at nil dst g k new e = ap (find k) (sym (ok-injective e))
  untouched at (cons n t src) dst g k new e =
      let (mid, one, rest) =
        >>=-eq-ok (merge_tree fails conflict_overwrite at n t (find n dst) dst) _ e in
      let (u, put) = tree_sets at n t (find n dst) dst mid one in
      elim (Bool-cases (same n k)) [
        | inl y ↦ let z = find-cons_hit n k t src y in cc (z, new)
        | inr x ↦
            untouched at src mid g k (sym (find-cons_miss n k t src x) ∙ new) rest
            ∙ ap (find k) (sym put)
            ∙ find-set k n u dst
            ∙ rw x refl
      ]

  mutual
    unfolding merge_trees merge_tree

    trees_win :
        (at : List Bytes) (src dst g : Forest)
        → IsProper (dir src)
        → merge_trees fails conflict_overwrite at src dst ≡ ok g
        → (path : List Bytes) (x : Tree) → is_leaf x ≡ true
        → lookup path (dir src) ≡ some x
        → lookup path (dir g) ≡ some x
    trees_win at src dst g p e [] x l q = absurd (root_not_leaf src x l q)
    trees_win at nil dst g p e (k ∷ path) x l q =
        let (u, found, _) = lookup-inv k path nil q in cc (found, find-nil k)
    trees_win at (cons n t src) dst g (proper_cons new proper propers) e (k ∷ path) x l q =
        let (mid, one, rest) =
          >>=-eq-ok (merge_tree fails conflict_overwrite at n t (find n dst) dst) _ e in
        let (u, found, below) = lookup-inv k path (cons n t src) q in
        elim (Bool-cases (same n k)) [
          | inr a ↦
              trees_win at src mid g propers rest (k ∷ path) x l
                (lookup-dir k path src (sym (find-cons_miss n k t src a) ∙ found) ∙ below)
          | inl y ↦
              let z = find-cons_hit n k t src y in
              let same_tree : u ≡ t = cc (found, z) in
              let (v, here, won) =
                tree_wins at n t (find n dst) dst mid proper one path x l
                  (subst (λ w. lookup path w ≡ some x) same_tree below) in
              lookup-dir k path g (find_moved n k g y ∙ untouched at src mid g n new rest ∙ here)
              ∙ won
        ]

    tree_wins :
        (at : List Bytes) (n : Bytes) (t : Tree) (o : Option Tree) (dst g : Forest)
        → IsProper t
        → merge_tree fails conflict_overwrite at n t o dst ≡ ok g
        → (path : List Bytes) (x : Tree) → is_leaf x ≡ true
        → lookup path t ≡ some x
        → (u : Tree) × (find n g ≡ some u) × (lookup path u ≡ some x)
    tree_wins at n t none dst g p e path x l q =
        placed at n t dst g path x q (change-done fails _ g _ e)
    tree_wins at n (dir s) (some (dir d)) dst g p e path x l q =
        let (merged, below, done) =
          >>=-eq-ok (merge_trees fails conflict_overwrite (n ∷ at) s d) _ e in
        (
          dir merged,
          subst (λ f. find n f ≡ some (dir merged)) (ok-injective done)
              (find-set_self n (dir merged) dst),
          trees_win (n ∷ at) s d merged p below path x l q,
        )
    tree_wins at n (dir s) (some (file b m)) dst g p e path x l q =
        placed at n (dir s) dst g path x q (overwritten at n (dir s) dst g e)
    tree_wins at n (dir s) (some (link b)) dst g p e path x l q =
        placed at n (dir s) dst g path x q (overwritten at n (dir s) dst g e)
    tree_wins at n (file b m) (some u) dst g p e path x l q =
        placed at n (file b m) dst g path x q (overwritten at n (file b m) dst g e)
    tree_wins at n (link b) (some u) dst g p e path x l q =
        placed at n (link b) dst g path x q (overwritten at n (link b) dst g e)

-- A merge that succeeds with the policy to overwrite has every file and symlink of the source in its
-- place, at any depth, when no directory of the source has a name twice.
pub merge_trees_wins :
    (fails : List Bytes → Option Error) (src dst g : Forest)
    → IsProper (dir src)
    → merge_trees fails conflict_overwrite [] src dst ≡ ok g
    → (path : List Bytes) (x : Tree) → is_leaf x ≡ true
    → lookup path (dir src) ≡ some x
    → lookup path (dir g) ≡ some x
merge_trees_wins fails src dst g p e = trees_win fails [] src dst g p e
