-- ===== src/Storage/Files/Parents.antt =====
-- The loops over the parents of a path, in `ValidateOutputTarget` and `rejectSymlinkComponents`.
use cypherstorm.Base.{
  ℕ, zero, suc, ◌+◌, ◌≤◌, ◌≡◌, ◌≢◌, ◌⊎◌, ◌↔◌, inl, inr, refl, sym, ap, subst, ◌∙◌, Bool, true,
  false, Bytes, length, same, same→eq, same_refl, not, not-eq-false, arith, Bool-cases,
}
use cypherstorm.Fault.{
  Error, Result, ok, err, ◌>>◌, >>=-eq-ok, >>-eq-ok, refuse_if, refuse_if-eq-ok, no_ancestor,
  component_symlink, parent_not_directory, not_exist, output_exists,
}
use cypherstorm.Storage.Paths.{clean, dir}
use cypherstorm.Storage.Paths.Shrink.{dir-shrinks, dir-dot, dir-root}
use cypherstorm.Storage.Files.{
  Node, NodeKind, regular, directory, symlink, special, is_directory_kind, Disk, is_symlink,
  is_missing, target_allowed, parent_allowed, find_parent, validate_output_target,
  reject_components, reject_symlink_components,
}

-- Fuel for the loop from `p` on: two more than the bytes, or one for a path that is its own parent.
abbrev Enough : ℕ → Bytes → Type 0
Enough fuel p = (length p + 2 ≤ fuel) ⊎ ((dir p ≡ p) × (1 ≤ fuel))

Enough-start : (p : Bytes) → Enough (suc (suc (length p))) p
Enough-start p = inl (omega arith)

Enough-none : (p : Bytes) → Enough 0 p → ⊥
Enough-none p (inl h) = omega (arith, h)
Enough-none p (inr (e, h)) = omega (arith, h)

Enough-dir : (fuel : ℕ) (p : Bytes) → Enough (suc fuel) p → dir p ≢ p → Enough fuel (dir p)
Enough-dir fuel p (inr (e, h)) n = absurd (n e)
Enough-dir fuel p (inl h) n = elim (dir-shrinks p) [
  | inl e ↦ inr (subst (λ z. dir z ≡ z) (sym e) dir-dot, omega (arith, h))
  | inr (inl e) ↦ inr (subst (λ z. dir z ≡ z) (sym e) dir-root, omega (arith, h))
  | inr (inr l) ↦ inl (omega (arith, h, l))
]

top_dir : (p : Bytes) → same (dir p) p ≡ true → dir p ≡ p
top_dir p e = same→eq (dir p) p e

lower_dir : (p : Bytes) → same (dir p) p ≡ false → dir p ≢ p
lower_dir p e q = cc (same_refl p, subst (λ z. same z p ≡ false) q e)

unlike_dir : (p : Bytes) → dir p ≢ p → same (dir p) p ≡ false
unlike_dir p n = elim (Bool-cases (same (dir p) p)) [
  | inl e ↦ absurd (n (same→eq (dir p) p e))
  | inr e ↦ e
]

directory_is : (k : NodeKind) → is_directory_kind k ≡ true → k ≡ directory
directory_is regular e = cc
directory_is directory e = refl
directory_is symlink e = cc
directory_is special e = cc

missing_is : (e : Error) → is_missing e ≡ true → e ≡ not_exist
missing_is not_exist h = refl
missing_is _ h = cc

-- What one step of the loop of `ValidateOutputTarget` accepts.
parent_allowed-ok :
    (s : Result Node) (top : Bool) (rest : Result (Unit {0}))
    → parent_allowed s top rest ≡ ok tt
    → ((x : Node) × (s ≡ ok x) × (x.kind ≡ directory))
      ⊎ ((s ≡ err not_exist) × (top ≡ false) × (rest ≡ ok tt))
unfolding parent_allowed
parent_allowed-ok (ok x) top rest h =
    inl (x, refl, directory_is x.kind (not-eq-false _ (refuse_if-eq-ok _ parent_not_directory h)))
parent_allowed-ok (err e) top rest h =
    let (a, first, last) =
      >>-eq-ok (refuse_if (not (is_missing e)) e >> refuse_if top no_ancestor) rest h in
    let (b, missing, below) =
      >>-eq-ok (refuse_if (not (is_missing e)) e) (refuse_if top no_ancestor) first in
    inr (
      ap err (missing_is e (not-eq-false _ (refuse_if-eq-ok _ e missing))),
      refuse_if-eq-ok top no_ancestor below,
      last,
    )

module _ {W : Type 0} (disk : Disk W) (w : W) where
  -- The nearest of a directory and its parents that exists is a directory.
  pub data HasParent : Bytes → Type 0 where
    here : {d : Bytes} {x : Node} → disk.stat d w ≡ ok x → x.kind ≡ directory → HasParent d
    above :
        {d : Bytes} → disk.stat d w ≡ err not_exist → dir d ≢ d → HasParent (dir d) → HasParent d

  find_parent-HasParent : (fuel : ℕ) (d : Bytes) → find_parent disk fuel d w ≡ ok tt → HasParent d
  unfolding find_parent
  find_parent-HasParent zero d h = cc h
  find_parent-HasParent (suc fuel) d h =
      elim (parent_allowed-ok (disk.stat d w) (same (dir d) d) _ h) [
        | inl (x, s, y) ↦ here s y
        | inr (s, top, rest) ↦ above s (lower_dir d top) (find_parent-HasParent fuel (dir d) rest)
      ]

  HasParent-find_parent :
      (fuel : ℕ) (d : Bytes) → Enough fuel d → HasParent d → find_parent disk fuel d w ≡ ok tt
  unfolding find_parent parent_allowed
  HasParent-find_parent zero d enough p = absurd (Enough-none d enough)
  HasParent-find_parent (suc fuel) d enough (here s y) = rw s (rw y refl)
  HasParent-find_parent (suc fuel) d enough (above s n p) =
      let rest = HasParent-find_parent fuel (dir d) (Enough-dir fuel d enough n) p in
      rw s (rw (unlike_dir d n) rest)

  -- A target that may be written: it does not exist, or it exists and may be overwritten.
  pub data IsWritable (allow_overwrite : Bool) (output_path : Bytes) : Type 0 where
    new : disk.stat output_path w ≡ err not_exist → IsWritable allow_overwrite output_path
    overwritten :
        {x : Node}
        → disk.stat output_path w ≡ ok x
        → allow_overwrite ≡ true
        → IsWritable allow_overwrite output_path

  target_allowed-IsWritable :
      (allow : Bool) (p : Bytes) (s : Result Node)
      → disk.stat p w ≡ s
      → target_allowed allow s ≡ ok tt
      → IsWritable allow p
  unfolding target_allowed
  target_allowed-IsWritable allow p (ok x) q e =
      overwritten q (not-eq-false allow (refuse_if-eq-ok _ output_exists e))
  target_allowed-IsWritable allow p (err e) q h =
      new (q ∙ ap err (missing_is e (not-eq-false _ (refuse_if-eq-ok _ e h))))

  IsWritable-target_allowed :
      (allow : Bool) (p : Bytes) → IsWritable allow p → target_allowed allow (disk.stat p w) ≡ ok tt
  unfolding target_allowed
  IsWritable-target_allowed allow p (new q) = rw q refl
  IsWritable-target_allowed allow p (overwritten q a) = rw q (rw a refl)

  -- `ValidateOutputTarget` accepts a path exactly when os.Stat finds that the path does not exist, or
  -- it exists and overwriting is allowed, and going up from its directory, where nothing but
  -- missing directories are passed, the first one that exists is a directory. Any other error of
  -- os.Stat is refused. The loop over the parents comes to its end on every path.
  pub validate_output_target_iff :
      (output_path : Bytes) (allow_overwrite : Bool)
      → (validate_output_target disk output_path allow_overwrite w ≡ ok tt)
        ↔ (IsWritable allow_overwrite output_path × HasParent (dir output_path))
  unfolding validate_output_target
  validate_output_target_iff output_path allow_overwrite =
      let d = dir output_path in
      (
        λ e.
            let (a, first, rest) =
              >>-eq-ok (target_allowed allow_overwrite (disk.stat output_path w)) _ e in
            (
              target_allowed-IsWritable allow_overwrite output_path _ refl first,
              find_parent-HasParent _ d rest,
            ),
        λ (q, p).
            rw (IsWritable-target_allowed allow_overwrite output_path q)
              (HasParent-find_parent _ d (Enough-start d) p),
      )

  -- A path and all its parents exist, and none of them is a symbolic link.
  pub data IsPlain : Bytes → Type 0 where
    top :
        {p : Bytes} {x : Node}
        → disk.lstat p w ≡ ok x
        → is_symlink x ≡ false
        → dir p ≡ p
        → IsPlain p
    below :
        {p : Bytes} {x : Node}
        → disk.lstat p w ≡ ok x
        → is_symlink x ≡ false
        → dir p ≢ p
        → IsPlain (dir p)
        → IsPlain p

  reject_components-IsPlain :
      (fuel : ℕ) (p : Bytes) → reject_components disk fuel p w ≡ ok tt → IsPlain p
  unfolding reject_components
  reject_components-IsPlain zero p h = cc h
  reject_components-IsPlain (suc fuel) p h =
      let (x, seen, rest) = >>=-eq-ok (disk.lstat p w) _ h in
      let (u, plain, last) = >>-eq-ok (refuse_if (is_symlink x) component_symlink) _ rest in
      let no_link = refuse_if-eq-ok (is_symlink x) component_symlink plain in
      elim (Bool-cases (same (dir p) p)) [
        | inl y ↦ top seen no_link (top_dir p y)
        | inr n ↦
            below seen no_link (lower_dir p n)
              (reject_components-IsPlain fuel (dir p) (rw n at last))
      ]

  IsPlain-reject_components :
      (fuel : ℕ) (p : Bytes) → Enough fuel p → IsPlain p → reject_components disk fuel p w ≡ ok tt
  unfolding reject_components
  IsPlain-reject_components zero p enough h = absurd (Enough-none p enough)
  IsPlain-reject_components (suc fuel) p enough (top s y e) =
      rw s (rw (y, ap (λ z. same z p) e ∙ same_refl p) refl)
  IsPlain-reject_components (suc fuel) p enough (below s y n h) =
      let rest = IsPlain-reject_components fuel (dir p) (Enough-dir fuel p enough n) h in
      rw s (rw (y, unlike_dir p n) rest)

  -- `rejectSymlinkComponents` accepts a path exactly when the cleaned path and every parent of it,
  -- up to the path that is its own parent, exist and are not symbolic links. Its loop comes to its
  -- end on every path.
  pub reject_symlink_components_iff :
      (target : Bytes) → (reject_symlink_components disk target w ≡ ok tt) ↔ IsPlain (clean target)
  unfolding reject_symlink_components
  reject_symlink_components_iff target = (
    λ e. reject_components-IsPlain _ (clean target) e,
    λ p. IsPlain-reject_components _ (clean target) (Enough-start (clean target)) p,
  )
