-- ===== src/App/Merge/Keeps.antt =====
-- Without the policy to overwrite, a merge loses nothing that stood in the destination.
use cypherstorm.Base.{
  ℕ, zero, suc, ◌≡◌, refl, subst, true, Option, none, some, List, [], ◌∷◌, Bytes, Bool-cases, inl,
  inr,
}
use cypherstorm.Fault.{Error, ok, >>=-eq-ok, ok-injective}
use cypherstorm.App.Merge.{
  Tree, file, link, dir, Forest, nil, cons, ConflictPolicy, conflict_fail, conflict_skip,
  conflict_rename, conflict_overwrite, find, candidate, is_free, free_name, change, renamed,
  resolve_conflict, merge_trees, merge_tree,
}
use cypherstorm.App.Merge.Trees.{Keeps, set-Keeps_new, set-Keeps-dir}

abbrev pub IsGentle : ConflictPolicy → Type 0
IsGentle conflict_fail = Unit
IsGentle conflict_skip = Unit
IsGentle conflict_rename = Unit
IsGentle conflict_overwrite = ⊥

is_free-none : (o : Option Tree) → is_free o ≡ true → o ≡ none
unfolding is_free
is_free-none none h = refl
is_free-none (some t) h = cc

pub free_name-find :
    (left i : ℕ) (n : Bytes) (dst : Forest) (name : Bytes)
    → free_name left i n dst ≡ some name
    → find name dst ≡ none
unfolding free_name
free_name-find zero i n dst name e = cc
free_name-find (suc left) i n dst name e = elim (Bool-cases (is_free (find (candidate n i) dst))) [
  | inl y ↦
      let z : some (candidate n i) ≡ some name = rw y at e in
      let q : candidate n i ≡ name = cc in subst (λ m. find m dst ≡ none) q (is_free-none _ y)
  | inr x ↦ free_name-find left (suc i) n dst name (rw x at e)
]

module _ (fails : List Bytes → Option Error) where
  pub change-done : (f g : Forest) (o : Option Error) → change fails f o ≡ ok g → f ≡ g
  unfolding change
  change-done f g none e = ok-injective e
  change-done f g (some x) e = cc

  renamed-Keeps :
      (at : List Bytes) (n : Bytes) (t : Tree) (dst g : Forest) (o : Option Bytes)
      → free_name 10000 1 n dst ≡ o
      → renamed fails at t dst o ≡ ok g
      → Keeps dst g
  unfolding renamed
  renamed-Keeps at n t dst g none q e = cc
  renamed-Keeps at n t dst g (some name) q e =
      subst (Keeps dst) (change-done _ g _ e)
        (set-Keeps_new name t dst (free_name-find 10000 1 n dst name q))

  resolve_conflict-Keeps :
      (policy : ConflictPolicy) (at : List Bytes) (n : Bytes) (t : Tree) (dst g : Forest)
      → IsGentle policy
      → resolve_conflict fails policy at n t dst ≡ ok g
      → Keeps dst g
  unfolding resolve_conflict
  resolve_conflict-Keeps conflict_fail at n t dst g p e = cc
  resolve_conflict-Keeps conflict_skip at n t dst g p e =
      subst (Keeps dst) (ok-injective e) (λ path x l h. h)
  resolve_conflict-Keeps conflict_rename at n t dst g p e =
      renamed-Keeps at n t dst g (free_name 10000 1 n dst) refl e
  resolve_conflict-Keeps conflict_overwrite at n t dst g p e = absurd p

  mutual
    unfolding merge_trees merge_tree

    -- A merge that succeeds with any policy but to overwrite leaves every file and symlink of the
    -- destination where it was, as it was.
    trees_keep :
        (policy : ConflictPolicy) (at : List Bytes) (src dst g : Forest)
        → IsGentle policy
        → merge_trees fails policy at src dst ≡ ok g
        → Keeps dst g
    trees_keep policy at nil dst g p e = subst (Keeps dst) (ok-injective e) (λ path x l h. h)
    trees_keep policy at (cons n t src) dst g p e =
        let (mid, one, rest) = >>=-eq-ok (merge_tree fails policy at n t (find n dst) dst) _ e in
        let first = tree-Keeps policy at n t (find n dst) dst mid p refl one in
        let later = trees_keep policy at src mid g p rest in
        λ path x l h. later path x l (first path x l h)

    tree-Keeps :
        (policy : ConflictPolicy) (at : List Bytes) (n : Bytes) (t : Tree) (o : Option Tree)
        (dst g : Forest)
        → IsGentle policy
        → find n dst ≡ o
        → merge_tree fails policy at n t o dst ≡ ok g
        → Keeps dst g
    tree-Keeps policy at n t none dst g p q e =
        subst (Keeps dst) (change-done _ g _ e) (set-Keeps_new n t dst q)
    tree-Keeps policy at n (dir s) (some (dir d)) dst g p q e =
        let (merged, below, done) = >>=-eq-ok (merge_trees fails policy (n ∷ at) s d) _ e in
        subst (Keeps dst) (ok-injective done)
          (set-Keeps-dir n d merged dst q (trees_keep policy (n ∷ at) s d merged p below))
    tree-Keeps policy at n (dir s) (some (file b m)) dst g p q e =
        resolve_conflict-Keeps policy at n (dir s) dst g p e
    tree-Keeps policy at n (dir s) (some (link b)) dst g p q e =
        resolve_conflict-Keeps policy at n (dir s) dst g p e
    tree-Keeps policy at n (file b m) (some u) dst g p q e =
        resolve_conflict-Keeps policy at n (file b m) dst g p e
    tree-Keeps policy at n (link b) (some u) dst g p q e =
        resolve_conflict-Keeps policy at n (link b) dst g p e

-- A merge that succeeds with any policy but to overwrite leaves every file and symlink of the
-- destination where it was, as it was, at any depth.
pub merge_trees-Keeps :
    (fails : List Bytes → Option Error) (policy : ConflictPolicy) (src dst g : Forest)
    → IsGentle policy
    → merge_trees fails policy [] src dst ≡ ok g
    → Keeps dst g
merge_trees-Keeps fails policy src dst g p e = trees_keep fails policy [] src dst g p e
