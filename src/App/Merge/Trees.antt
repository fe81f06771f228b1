-- ===== src/App/Merge/Trees.antt =====
-- What stands at a path of a tree.
use cypherstorm.Base.{
  ◌≡◌, refl, sym, ap, ◌∙◌, subst, Bool, true, false, Option, none, some, List, [], ◌∷◌, Bytes, same,
  same→eq, same_refl, if◌then◌else◌, Bool-cases, inl, inr, arith,
}
use cypherstorm.App.Merge.{Tree, file, link, dir, Forest, nil, cons, find, set}

through : (Tree → Option Tree) → Option Tree → Option Tree
through next none = none
through next (some t) = next t

-- The path's names stand outermost first.
unfoldable pub lookup : List Bytes → Tree → Option Tree
unfolding through
lookup [] t = some t
lookup (n ∷ path) (file b m) = none
lookup (n ∷ path) (link b) = none
lookup (n ∷ path) (dir f) = through (lookup path) (find n f)

abbrev pub is_leaf : Tree → Bool
is_leaf (file b m) = true
is_leaf (link b) = true
is_leaf (dir f) = false

same_both : (a b k : Bytes) → same a k ≡ true → same b k ≡ true → same a b ≡ true
same_both a b k p q = rw (same→eq a k p, same→eq b k q) (same_refl k)

pub find-set :
    (k n : Bytes) (t : Tree) (f : Forest)
    → find k (set n t f) ≡ (if same n k then some t else find k f)
unfolding find set
find-set k n t nil = refl
find-set k n t (cons m u f) = elim (Bool-cases (same m n)) [
  | inr x ↦ rw x (ground (arith, find-set k n t f, same_both m n k))
  | inl y ↦
      let moved : same m k ≡ same n k = ap (λ p. same p k) (same→eq m n y) in rw y (ground arith)
]

pub find_moved : (n k : Bytes) (f : Forest) → same n k ≡ true → find k f ≡ find n f
find_moved n k f y = ap (λ p. find p f) (sym (same→eq n k y))

pub lookup-dir :
    (n : Bytes) (path : List Bytes) (f : Forest) {t : Tree}
    → find n f ≡ some t
    → lookup (n ∷ path) (dir f) ≡ lookup path t
unfolding lookup
lookup-dir n path f e = rw e refl

-- What a path through a directory has found.
pub lookup-inv :
    (n : Bytes) (path : List Bytes) (f : Forest) {x : Tree}
    → lookup (n ∷ path) (dir f) ≡ some x
    → (t : Tree) × (find n f ≡ some t) × (lookup path t ≡ some x)
unfolding lookup
lookup-inv n path f {x} e = found (find n f) refl e
  where
    found :
        (o : Option Tree)
        → find n f ≡ o
        → through (lookup path) o ≡ some x
        → (t : Tree) × (find n f ≡ some t) × (lookup path t ≡ some x)
    found none q h = cc
    found (some t) q h = (t, q, h)

-- Every file and symlink stays where it is, as it is.
abbrev pub Keeps : Forest → Forest → Type 0
Keeps f g =
    (path : List Bytes) (x : Tree)
    → is_leaf x ≡ true
    → lookup path (dir f) ≡ some x
    → lookup path (dir g) ≡ some x

pub root_not_leaf : (f : Forest) (x : Tree) → is_leaf x ≡ true → lookup [] (dir f) ≡ some x → ⊥
unfolding lookup
root_not_leaf f (file b m) l e = cc
root_not_leaf f (link b) l e = cc
root_not_leaf f (dir g) l e = cc

-- A new name changes nothing else.
pub set-Keeps_new : (n : Bytes) (t : Tree) (f : Forest) → find n f ≡ none → Keeps f (set n t f)
set-Keeps_new n t f new [] x l e = absurd (root_not_leaf f x l e)
set-Keeps_new n t f new (k ∷ path) x l e =
    let (u, found, below) = lookup-inv k path f e in
    elim (Bool-cases (same n k)) [
      | inl y ↦ let z : find k f ≡ none = find_moved n k f y ∙ new in cc
      | inr d ↦ lookup-dir k path (set n t f) (rw (find-set k n t f, d) found) ∙ below
    ]

-- Nor does a directory that keeps what it has.
pub set-Keeps-dir :
    (n : Bytes) (d d' f : Forest)
    → find n f ≡ some (dir d)
    → Keeps d d'
    → Keeps f (set n (dir d') f)
set-Keeps-dir n d d' f old keeps [] x l e = absurd (root_not_leaf f x l e)
set-Keeps-dir n d d' f old keeps (k ∷ path) x l e =
    let (u, found, below) = lookup-inv k path f e in
    elim (Bool-cases (same n k)) [
      | inr a ↦ lookup-dir k path (set n (dir d') f) (rw (find-set k n (dir d') f, a) found) ∙ below
      | inl y ↦
          let z : find k f ≡ some (dir d) = find_moved n k f y ∙ old in
          let q : u ≡ dir d = cc (found, z) in
          lookup-dir k path (set n (dir d') f) (rw (find-set k n (dir d') f, y) refl)
          ∙ keeps path x l (subst (λ t. lookup path t ≡ some x) q below)
    ]
