-- ===== src/App/Merge.antt =====
-- `mergeTrees` of internal/app/restore.go, on trees in place of directories. A directory's entries
-- stand in the order of their names, as the source sorts them. `fails` is the error, if any, with which
-- the calls that change a path end; the names of a path stand innermost first.
pub mod Trees
pub mod Keeps
pub mod Wins
use cypherstorm.Base.{
  ℕ, zero, suc, ◌+◌, ◌/◌, ◌%◌, Bool, true, false, Option, none, some, List, [], ◌∷◌, ◌++◌, Bytes,
  codes, ltb, same, if◌then◌else◌,
}
use cypherstorm.Fault.{Error, Result, ok, err, ◌>>=◌, ◌>>◌, merge_conflict, no_free_name}

mutual
  -- A regular file with its content and mode, a symlink, or a directory.
  pub data Tree : Type 0 where
    file : Bytes → ℕ → Tree
    link : Bytes → Tree
    dir : Forest → Tree

  pub data Forest : Type 0 where
    nil : Forest
    cons : Bytes → Tree → Forest → Forest

pub data ConflictPolicy : Type 0 where
  conflict_fail conflict_skip conflict_rename conflict_overwrite : ConflictPolicy

-- `os.Lstat`, and the renaming of a tree to a name, which replaces what stands there
unfoldable pub find : Bytes → Forest → Option Tree
find n nil = none
find n (cons m t f) = if same m n then some t else find n f

unfoldable pub set : Bytes → Tree → Forest → Forest
set n t nil = cons n t nil
set n t (cons m u f) = let rest = set n t f in if same m n then cons m t f else cons m u rest

decimal : ℕ → ℕ → Bytes
decimal zero n = []
decimal (suc fuel) n =
    let front = decimal fuel (n / 10) in
    if ltb n 10 then (48 + n) ∷ [] else front ++ ((48 + n % 10) ∷ [])

-- `fmt.Sprintf("%s.restored-%d", to, i)`, for an `i` of at most five digits
unfoldable pub candidate : Bytes → ℕ → Bytes
unfolding decimal
candidate n i = n ++ (codes ".restored-" ++ decimal 5 i)

is_free : Option Tree → Bool
is_free none = true
is_free (some t) = false

-- The loop over the candidates, with the rounds that are left.
unfoldable pub free_name : ℕ → ℕ → Bytes → Forest → Option Bytes
unfolding is_free
free_name zero i n dst = none
free_name (suc left) i n dst =
    let later = free_name left (suc i) n dst in
    if is_free (find (candidate n i) dst) then some (candidate n i) else later

module _ (fails : List Bytes → Option Error) where
  -- `os.Rename`, `os.RemoveAll`
  pub change : Forest → Option Error → Result Forest
  change changed none = ok changed
  change changed (some e) = err e

  renamed : List Bytes → Tree → Forest → Option Bytes → Result Forest
  unfolding change
  renamed at t dst none = err no_free_name
  renamed at t dst (some name) = change (set name t dst) (fails (name ∷ at))

  -- The switch on the policy.
  unfoldable pub resolve_conflict :
      ConflictPolicy → List Bytes → Bytes → Tree → Forest → Result Forest
  unfolding change renamed
  resolve_conflict conflict_fail at n t dst = err merge_conflict
  resolve_conflict conflict_skip at n t dst = ok dst
  resolve_conflict conflict_overwrite at n t dst = change (set n t dst) (fails (n ∷ at))
  resolve_conflict conflict_rename at n t dst = renamed at t dst (free_name 10000 1 n dst)

  unfoldable mutual
    unfolding change

    -- The loop over the entries of a directory.
    pub merge_trees : ConflictPolicy → List Bytes → Forest → Forest → Result Forest
    merge_trees policy at nil dst = ok dst
    merge_trees policy at (cons n t src) dst = do
      dst' ← merge_tree policy at n t (find n dst) dst
      merge_trees policy at src dst'

    -- One entry, with what stands under its name in the destination.
    pub merge_tree :
        ConflictPolicy → List Bytes → Bytes → Tree → Option Tree → Forest → Result Forest
    merge_tree policy at n t none dst = change (set n t dst) (fails (n ∷ at))
    merge_tree policy at n (dir s) (some (dir d)) dst = do
      merged ← merge_trees policy (n ∷ at) s d
      ok (set n (dir merged) dst)
    merge_tree policy at n (dir s) (some (file b m)) dst = resolve_conflict policy at n (dir s) dst
    merge_tree policy at n (dir s) (some (link b)) dst = resolve_conflict policy at n (dir s) dst
    merge_tree policy at n (file b m) (some u) dst = resolve_conflict policy at n (file b m) dst
    merge_tree policy at n (link b) (some u) dst = resolve_conflict policy at n (link b) dst
