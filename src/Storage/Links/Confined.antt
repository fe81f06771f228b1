-- ===== src/Storage/Links/Confined.antt =====
-- `validatePortableSymlink` as a walk along the target from the directory of the entry.
use cypherstorm.Base.{
  ℕ, suc, ◌+◌, ◌≡◌, ◌↔◌, refl, ap, subst, Bool, true, false, some, List, [], ◌∷◌, ◌++◌, Bytes,
  length, ◌==◌, ◌||◌, same, if◌then◌else◌, reverse, All, arith,
}
use cypherstorm.Fault.{Result, ok, err, link_escapes, link_unsafe}
use cypherstorm.Storage.Names.{split, join, is_abs, contains, is_windows_drive_path}
use cypherstorm.Storage.Names.Split.{split-append}
use cypherstorm.Storage.Names.Segments.{IsSegment}
use cypherstorm.Storage.Names.Canonical.{join-start}
use cypherstorm.Storage.Paths.{
  add_element, reduce, rendered, clean, dir, path_join, up_to_slash, keep_byte,
}
use cypherstorm.Storage.Paths.Normal.{
  IsElement, stack_of, stack_of-IsNormal, stack_of-clean, clean-relative, is_abs-clean, clean-clean,
  reduce-append, IsNormal-reverse,
}
use cypherstorm.Storage.Links.Stays.{stays, AtDepth, Verdict, add_element-AtDepth, reduce-Verdict}
use cypherstorm.Storage.Links.Escapes.{
  escapes, opposite, escapes-Verdict, all_but_last, split-up_to_slash,
}
use cypherstorm.Storage.Links.{validate_portable_symlink}

-- The first test: the target is empty, holds NUL or a backslash, or is absolute or a drive path.
abbrev pub is_unsafe : Bytes → Bool
is_unsafe target =
    length target == 0
    || contains 0 target
    || contains 92 target
    || is_abs target
    || is_windows_drive_path target

segments_AtDepth :
    (d : ℕ) (stack xs : List Bytes)
    → All IsSegment xs
    → AtDepth (some d) stack
    → AtDepth (some (length xs + d)) (reduce false stack xs)
unfolding reduce
segments_AtDepth d stack [] h a = (a.0, omega (arith, a.1))
segments_AtDepth d stack (x ∷ xs) (s, h) a =
    let deeper : AtDepth (some (suc d)) (add_element false stack x) =
      rw (s.nonempty, s.no_dot, s.no_parent) at (add_element-AtDepth d stack x a) in
    let rest = segments_AtDepth (suc d) (add_element false stack x) xs h deeper in
    (rest.0, omega (arith, rest.1))

pub all_but_last-AreSegments :
    (xs : List Bytes) → All IsSegment xs → All IsSegment (all_but_last xs)
all_but_last-AreSegments [] h = tt
all_but_last-AreSegments (s ∷ []) h = tt
all_but_last-AreSegments (s ∷ t ∷ rest) h = (h.0, all_but_last-AreSegments (t ∷ rest) h.1)

length-all_but_last :
    (s : Bytes) (rest : List Bytes) → length (all_but_last (s ∷ rest)) ≡ length rest
length-all_but_last s [] = refl
length-all_but_last s (t ∷ rest) = ap suc (length-all_but_last t rest)

pub reduce-last : (stack : List Bytes) → reduce false stack ([] ∷ []) ≡ stack
unfolding reduce add_element same
reduce-last stack = refl

rendered-cons :
    (xs : List Bytes) → All IsElement xs → (c : ℕ) × (cs : Bytes) × (rendered false xs ≡ c ∷ cs)
unfolding rendered join same
rendered-cons [] h = (46, [], refl)
rendered-cons ([] ∷ xs) (e, h) = cc e.nonempty
rendered-cons ((c ∷ cs) ∷ []) h = (c, cs, refl)
rendered-cons ((c ∷ cs) ∷ x ∷ xs) h = (c, cs ++ 47 ∷ join (x ∷ xs), refl)

-- Joining to a nonempty relative directory.
path_join-relative :
    (d target : Bytes)
    → (c : ℕ) × (cs : Bytes) × (d ≡ c ∷ cs)
    → is_abs d ≡ false
    → (path_join d target ≡ clean (d ++ 47 ∷ target)) × (is_abs (d ++ 47 ∷ target) ≡ false)
unfolding path_join is_abs
path_join-relative d target (c, cs, e) r = (rw e refl, rw e (rw e at r))

keep_byte-relative : (c : ℕ) (kept : Bytes) → (c == 47) ≡ false → is_abs (keep_byte c kept) ≡ false
unfolding keep_byte is_abs
keep_byte-relative c [] n = rw n refl
keep_byte-relative c (d ∷ ds) n = n

is_abs-up_to_slash : (t : Bytes) → is_abs t ≡ false → is_abs (up_to_slash t) ≡ false
unfolding up_to_slash is_abs
is_abs-up_to_slash [] r = refl
is_abs-up_to_slash (c ∷ cs) r = keep_byte-relative c (up_to_slash cs) r

pub up_to_slash-relative :
    (s : Bytes) (rest : List Bytes)
    → All IsSegment (s ∷ rest)
    → is_abs (up_to_slash (join (s ∷ rest))) ≡ false
up_to_slash-relative s rest h = is_abs-up_to_slash (join (s ∷ rest)) (join-start s rest h).1

-- The directory's elements are the entry's but for the last.
dir-AtDepth :
    (s : Bytes) (rest : List Bytes)
    → All IsSegment (s ∷ rest)
    → AtDepth (some (length rest)) (stack_of (dir (join (s ∷ rest))))
unfolding dir
dir-AtDepth s rest h =
    let inner = all_but_last (s ∷ rest) in
    let start : AtDepth (some 0) [] = (tt, refl) in
    let there : AtDepth (some (length rest)) (reduce false [] inner) =
      subst (λ n. AtDepth (some n) (reduce false [] inner))
        (omega (arith, length-all_but_last s rest))
        (segments_AtDepth 0 [] inner (all_but_last-AreSegments (s ∷ rest) h) start) in
    rw
      (
        stack_of-clean (up_to_slash (join (s ∷ rest))) (up_to_slash-relative s rest h),
        split-up_to_slash s rest h,
        reduce-append false [] inner ([] ∷ []),
        reduce-last,
      )
      there

-- The resolved path escapes exactly if the walk does.
resolved-escapes :
    (s : Bytes) (rest : List Bytes) (target : Bytes)
    → All IsSegment (s ∷ rest)
    → escapes (clean (path_join (dir (join (s ∷ rest))) target))
      ≡ opposite (stays (some (length rest)) (split target))
resolved-escapes s rest target h =
    let u = up_to_slash (join (s ∷ rest)) in
    let d = dir (join (s ∷ rest)) in
    let r : is_abs d ≡ false = unfold dir in is_abs-clean u (up_to_slash-relative s rest h) in
    let nonempty : (c : ℕ) × (cs : Bytes) × (d ≡ c ∷ cs) =
      unfold dir in
      rw (clean-relative u (up_to_slash-relative s rest h)) (
        rendered-cons (reverse (stack_of u))
          (IsNormal-reverse (stack_of u) (stack_of-IsNormal u))) in
    let (joined, relative) = path_join-relative d target nonempty r in
    let x = d ++ 47 ∷ target in
    let parts : stack_of x ≡ reduce false (stack_of d) (split target) =
      rw (split-append d target) (reduce-append false [] (split d) (split target)) in
    let verdict : Verdict (stays (some (length rest)) (split target)) (stack_of x) =
      rw parts
        (reduce-Verdict (some (length rest)) (stack_of d) (split target) (dir-AtDepth s rest h)) in
    rw (joined, clean-clean x relative, clean-relative x relative)
      (escapes-Verdict (stays (some (length rest)) (split target)) (stack_of x)
        (stack_of-IsNormal x) verdict)

-- The two tests of `validatePortableSymlink`, one after the other.
both_tests :
    (u e v : Bool)
    → e ≡ opposite v
    → (◌≡◌ {A = Result (Unit {0})}
        (if u then err link_unsafe else if e then err link_escapes else ok tt)
        (ok tt))
      ↔ (u ≡ false) × (v ≡ true)
both_tests true e v q = (λ p. cc, λ p. cc p.0)
both_tests false true true q = cc
both_tests false true false q = (λ p. cc, λ p. cc p.1)
both_tests false false true q = (λ p. (refl, refl), λ p. refl)
both_tests false false false q = cc

-- For an entry with a valid name, validatePortableSymlink accepts a target exactly if the target is
-- not empty, holds no NUL and no backslash, is neither absolute nor a drive path, and the walk along
-- its elements from the entry's directory never leaves the root.
pub validate_portable_symlink_iff :
    (s : Bytes) (rest : List Bytes) (target : Bytes)
    → All IsSegment (s ∷ rest)
    → (validate_portable_symlink (join (s ∷ rest)) target ≡ ok tt)
      ↔ (is_unsafe target ≡ false) × (stays (some (length rest)) (split target) ≡ true)
unfolding validate_portable_symlink
validate_portable_symlink_iff s rest target h =
    both_tests (is_unsafe target) (escapes (clean (path_join (dir (join (s ∷ rest))) target)))
      (stays (some (length rest)) (split target)) (resolved-escapes s rest target h)
