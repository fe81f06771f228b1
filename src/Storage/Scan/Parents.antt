-- ===== src/Storage/Scan/Parents.antt =====
-- The loop over the parents of an entry: it ends within its fuel, and looks at every proper prefix.
use cypherstorm.Base.{
  ℕ, zero, suc, ◌<◌, ◌≡◌, ◌⊎◌, refl, sym, ap, ◌∙◌, subst, true, false, List, [], ◌∷◌, ◌++◌, Bytes,
  length, take, same, same→eq, same_refl, reverse, reverse-cons, reverse-reverse, All, Bool-cases,
  inl, inr, arith, append_assoc, append-nil,
}
use cypherstorm.Fault.{Result, ok, err, parent_conflict}
use cypherstorm.Storage.Names.{split, join}
use cypherstorm.Storage.Names.Split.{split-join}
use cypherstorm.Storage.Names.Segments.{IsSegment}
use cypherstorm.Storage.Names.Canonical.{All-Lacks}
use cypherstorm.Storage.Paths.{dot, add_element, reduce, rendered, dir, up_to_slash}
use cypherstorm.Storage.Paths.Normal.{stack_of, clean-relative, reduce-append}
use cypherstorm.Storage.Links.Escapes.{all_but_last, split-up_to_slash}
use cypherstorm.Storage.Links.Confined.{up_to_slash-relative, all_but_last-AreSegments, reduce-last}
use cypherstorm.Storage.Scan.{EntryType, lookup_seen, blocks, check_parents}

reduce-segments :
    (stack xs : List Bytes) → All IsSegment xs → reduce false stack xs ≡ reverse xs ++ stack
unfolding reduce add_element
reduce-segments stack [] h = refl
reduce-segments stack (x ∷ xs) (s, h) =
    rw (s.nonempty, s.no_dot, s.no_parent)
      (reduce-segments (x ∷ stack) xs h
        ∙ sym (rw (reverse-cons x xs) (append_assoc (reverse xs) (x ∷ []) stack)))

-- The directory of an entry's path is its path without the last segment.
dir-join :
    (s : Bytes) (rest : List Bytes)
    → All IsSegment (s ∷ rest)
    → dir (join (s ∷ rest)) ≡ rendered false (all_but_last (s ∷ rest))
unfolding dir
dir-join s rest h =
    let inner = all_but_last (s ∷ rest) in
    let stack : stack_of (up_to_slash (join (s ∷ rest))) ≡ reverse inner =
      rw (split-up_to_slash s rest h, reduce-append false [] inner ([] ∷ []), reduce-last)
        (reduce-segments [] inner (all_but_last-AreSegments (s ∷ rest) h)
          ∙ append-nil (reverse inner)) in
    rw
      (
        clean-relative (up_to_slash (join (s ∷ rest))) (up_to_slash-relative s rest h),
        stack,
        reverse-reverse inner,
      )
      refl

take-all : (xs : List Bytes) → take (length xs) xs ≡ xs
take-all [] = refl
take-all (x ∷ xs) = ap (λ l. x ∷ l) (take-all xs)

all_but_last-take :
    (k : ℕ) (xs : List Bytes) → k < length xs → all_but_last (take (suc k) xs) ≡ take k xs
all_but_last-take zero [] h = absurd (omega arith)
all_but_last-take (suc k) [] h = absurd (omega arith)
all_but_last-take zero (x ∷ xs) h = refl
all_but_last-take (suc k) (x ∷ []) h = absurd (omega arith)
all_but_last-take (suc k) (x ∷ y ∷ xs) h =
    ap (λ l. x ∷ l) (all_but_last-take k (y ∷ xs) (omega arith))

take-AreSegments : (k : ℕ) (xs : List Bytes) → All IsSegment xs → All IsSegment (take k xs)
take-AreSegments zero xs h = tt
take-AreSegments (suc k) [] h = tt
take-AreSegments (suc k) (x ∷ xs) h = (h.0, take-AreSegments k xs h.1)

-- The parent of so many segments; there is none above the first segment.
abbrev pub parent_path : ℕ → List Bytes → Bytes
parent_path zero segments = dot
parent_path (suc k) segments = join (take (suc k) segments)

rendered-take :
    (k : ℕ) (xs : List Bytes) → k < length xs → rendered false (take k xs) ≡ parent_path k xs
unfolding rendered
rendered-take zero xs h = refl
rendered-take (suc k) [] h = absurd (omega arith)
rendered-take (suc k) (x ∷ xs) h = refl

dir-parent_path :
    (k : ℕ) (xs : List Bytes)
    → All IsSegment xs
    → k < length xs
    → dir (parent_path (suc k) xs) ≡ parent_path k xs
dir-parent_path k [] h lt = absurd (omega arith)
dir-parent_path k (x ∷ xs) h lt =
    dir-join x (take k xs) (take-AreSegments (suc k) (x ∷ xs) h)
    ∙ ap (rendered false) (all_but_last-take k (x ∷ xs) lt)
    ∙ rendered-take k (x ∷ xs) lt

split-dot : split dot ≡ dot ∷ []
unfolding split
split-dot = refl

head_or : List Bytes → Bytes
head_or [] = []
head_or (x ∷ xs) = x

join-not_dot :
    (x : Bytes) (xs : List Bytes) → All IsSegment (x ∷ xs) → same (join (x ∷ xs)) dot ≡ false
unfolding head_or
join-not_dot x xs h = elim (Bool-cases (same (join (x ∷ xs)) dot)) [
  | inr n ↦ n
  | inl y ↦
      let whole : x ∷ xs ≡ dot ∷ [] =
        sym (split-join x xs (All-Lacks (x ∷ xs) h).2) ∙ ap split (same→eq _ dot y) ∙ split-dot in
      let z : same dot dot ≡ false =
        subst (λ t. same t dot ≡ false) (ap head_or whole) h.0.no_dot in
      cc (z, same_refl dot)
]

-- What the loop finds among the first so many parents.
abbrev pub ParentsChecked : List (Bytes × EntryType) → List Bytes → ℕ → Result (Unit {0}) → Type 0
ParentsChecked seen segments k r =
    (r ≡ ok tt)
      × ((j : ℕ) → j < k → blocks (lookup_seen (join (take (suc j) segments)) seen) ≡ false)
    ⊎ (r ≡ err parent_conflict)
      × (j : ℕ) × (j < k)
      × (blocks (lookup_seen (join (take (suc j) segments)) seen) ≡ true)

parent_path-not_dot :
    (k : ℕ) (xs : List Bytes)
    → All IsSegment xs
    → k < length xs
    → same (parent_path (suc k) xs) dot ≡ false
parent_path-not_dot k [] h lt = absurd (omega arith)
parent_path-not_dot k (x ∷ xs) h lt =
    join-not_dot x (take k xs) (take-AreSegments (suc k) (x ∷ xs) h)

lt_suc_cases : (j k : ℕ) → j < suc k → (j ≡ k) ⊎ (j < k)
lt_suc_cases j k h = ground arith

dir-entry :
    (s : Bytes) (rest : List Bytes)
    → All IsSegment (s ∷ rest)
    → dir (join (s ∷ rest)) ≡ parent_path (length rest) (s ∷ rest)
dir-entry s rest h =
    dir-join s rest h
    ∙ ap (rendered false) (
        ap all_but_last (sym (take-all (s ∷ rest)))
        ∙ all_but_last-take (length rest) (s ∷ rest) (omega arith))
    ∙ rendered-take (length rest) (s ∷ rest) (omega arith)

module _ (seen : List (Bytes × EntryType)) (segments : List Bytes) where
  one_more :
      (k : ℕ) (r : Result (Unit {0}))
      → blocks (lookup_seen (parent_path (suc k) segments) seen) ≡ false
      → ParentsChecked seen segments k r
      → ParentsChecked seen segments (suc k) r
  one_more k r b (inl (e, all)) =
      inl (e, λ j lt. elim (lt_suc_cases j k lt) [ inl q ↦ rw q b | inr less ↦ all j less ])
  one_more k r b (inr (e, j, lt, found)) = inr (e, j, omega arith, found)

  check_parents-below :
      (fuel k : ℕ)
      → All IsSegment segments
      → k < length segments
      → k < fuel
      → ParentsChecked seen segments k (check_parents fuel seen (parent_path k segments))
  unfolding check_parents
  check_parents-below zero k h short enough = absurd (omega arith)
  check_parents-below (suc fuel) zero h short enough =
      rw (same_refl dot) (inl (refl, λ j lt. absurd (omega arith)))
  check_parents-below (suc fuel) (suc k) h short enough =
      let more = check_parents-below fuel k h (omega arith) (omega arith) in
      elim (Bool-cases (blocks (lookup_seen (parent_path (suc k) segments) seen))) [
        | inl y ↦
            rw (parent_path-not_dot k segments h (omega arith), y) (inr (refl, k, omega arith, y))
        | inr n ↦
            rw
              (
                parent_path-not_dot k segments h (omega arith),
                n,
                dir-parent_path k segments h (omega arith),
              )
              (one_more k _ n more)
      ]

-- The loop over the parents of a valid entry ends within its fuel: it lets the entry through if no
-- proper prefix of its path was seen as a file or symlink, and otherwise it reports a conflict, and
-- there is such a prefix.
pub check_parents_decides :
    (seen : List (Bytes × EntryType)) (s : Bytes) (rest : List Bytes)
    → All IsSegment (s ∷ rest)
    → ParentsChecked seen
        (s ∷ rest)
        (length rest)
        (check_parents (length (s ∷ rest)) seen (dir (join (s ∷ rest))))
check_parents_decides seen s rest h = rw (dir-entry s rest h) (
    check_parents-below seen (s ∷ rest) (length (s ∷ rest)) (length rest) h (omega arith)
      (omega arith))
