-- ===== src/Storage/Paths/Normal.antt =====
-- The stack of `Clean`, its normal form, and that `Clean` gives back what it has cleaned.
use cypherstorm.Base.{
  ◌≡◌, refl, sym, ap, ◌∙◌, Bool, true, false, List, [], ◌∷◌, ◌++◌, Bytes, ◌==◌, ◌||◌, same, same→eq,
  reverse, reverse-cons, All, All-append, Bool-cases, inl, inr, ||-neither,
}
use cypherstorm.Storage.Names.{split, add_byte, join, is_abs, contains}
use cypherstorm.Storage.Names.Split.{Lacks, split-join, split-Lacks}
use cypherstorm.Storage.Paths.{dot, dot_dot, climb, add_element, reduce, rendered, clean}

pub reduce-append :
    (rooted : Bool) (stack a b : List Bytes)
    → reduce rooted stack (a ++ b) ≡ reduce rooted (reduce rooted stack a) b
unfolding reduce
reduce-append rooted stack [] b = refl
reduce-append rooted stack (p ∷ a) b = reduce-append rooted (add_element rooted stack p) a b

-- An element that stands in a result: neither empty nor ".", and free of slashes.
pub record IsElement (p : Bytes) : Type 0 where
  pub nonempty : same p [] ≡ false
  pub no_dot : same p dot ≡ false
  pub no_slash : Lacks 47 p

abbrev pub AreUp : List Bytes → Type 0
AreUp = All (λ p. same p dot_dot ≡ true)

-- A stack as `Clean` builds it from a relative path: ".." only below every other element.
abbrev pub IsNormal : List Bytes → Type 0
IsNormal [] = Unit
IsNormal (p ∷ stack) = IsElement p × (same p dot_dot ≡ true → AreUp stack) × IsNormal stack

dot_dot-IsElement : IsElement dot_dot
unfolding same contains
dot_dot-IsElement = record { nonempty = refl; no_dot = refl; no_slash = refl }

climb-IsNormal : (stack : List Bytes) → IsNormal stack → IsNormal (climb false stack)
unfolding climb
climb-IsNormal [] n = (dot_dot-IsElement, λ _. tt, tt)
climb-IsNormal (t ∷ stack) (e, up, n) = elim (Bool-cases (same t dot_dot)) [
  | inl y ↦ rw y (dot_dot-IsElement, (λ _. (y, up y)), (e, up, n))
  | inr x ↦ rw x n
]

add_element-IsNormal :
    (stack : List Bytes) (p : Bytes)
    → Lacks 47 p
    → IsNormal stack
    → IsNormal (add_element false stack p)
unfolding add_element
add_element-IsNormal stack p s n = elim (Bool-cases (same p [] || same p dot)) [
  | inl y ↦ rw y n
  | inr x ↦ elim (Bool-cases (same p dot_dot)) [
    | inl y ↦ rw (x, y) (climb-IsNormal stack n)
    | inr z ↦
        let (a, b) = ||-neither (same p []) (same p dot) x in
        rw (x, z) (record { nonempty = a; no_dot = b; no_slash = s }, (λ y. cc), n)
  ]
]

pub reduce-IsNormal :
    (stack pieces : List Bytes)
    → All (λ p. Lacks 47 p) pieces
    → IsNormal stack
    → IsNormal (reduce false stack pieces)
unfolding reduce
reduce-IsNormal stack [] s n = n
reduce-IsNormal stack (p ∷ pieces) (s, ss) n =
    reduce-IsNormal (add_element false stack p) pieces ss (add_element-IsNormal stack p s n)

climb_up : (stack : List Bytes) → AreUp stack → climb false stack ≡ dot_dot ∷ stack
unfolding climb
climb_up [] u = refl
climb_up (t ∷ stack) (y, u) = rw y refl

add_element_back :
    (stack : List Bytes) (p : Bytes)
    → IsElement p
    → (same p dot_dot ≡ true → AreUp stack)
    → add_element false stack p ≡ p ∷ stack
unfolding add_element
add_element_back stack p e up = elim (Bool-cases (same p dot_dot)) [
  | inl y ↦
      rw (e.nonempty, e.no_dot, y, climb_up stack (up y))
        (ap (λ t. t ∷ stack) (sym (same→eq p dot_dot y)))
  | inr x ↦ rw (e.nonempty, e.no_dot, x) refl
]

-- Reduced once more, a normal stack stays as it is.
pub reduce-reverse : (stack : List Bytes) → IsNormal stack → reduce false [] (reverse stack) ≡ stack
unfolding reduce
reduce-reverse [] n = refl
reduce-reverse (p ∷ stack) (e, up, n) =
    rw
      (
        reverse-cons p stack,
        reduce-append false [] (reverse stack) (p ∷ []),
        reduce-reverse stack n,
      )
      (add_element_back stack p e up)

pub elements-Lacks : (xs : List Bytes) → All IsElement xs → All (Lacks 47) xs
elements-Lacks [] h = tt
elements-Lacks (x ∷ xs) (e, h) = (e.no_slash, elements-Lacks xs h)

pub IsNormal-reverse : (stack : List Bytes) → IsNormal stack → All IsElement (reverse stack)
IsNormal-reverse [] n = tt
IsNormal-reverse (p ∷ stack) (e, up, n) =
    rw (reverse-cons p stack)
      (All-append IsElement (reverse stack) (p ∷ []) (IsNormal-reverse stack n) (e, tt))

-- What is written for a list of elements starts with no slash and splits into them again.
rendered-relative : (xs : List Bytes) → All IsElement xs → is_abs (rendered false xs) ≡ false
unfolding rendered is_abs join same contains
rendered-relative [] h = refl
rendered-relative ([] ∷ xs) (e, h) = cc e.nonempty
rendered-relative ((c ∷ cs) ∷ []) (e, h) = (||-neither (c == 47) (contains 47 cs) e.no_slash).0
rendered-relative ((c ∷ cs) ∷ x ∷ xs) (e, h) = (||-neither (c == 47) (contains 47 cs) e.no_slash).0

reduce-dot : reduce false [] (split dot) ≡ []
unfolding reduce split add_byte add_element same
reduce-dot = refl

reduce-nil : (stack : List Bytes) → reduce false stack [] ≡ stack
unfolding reduce
reduce-nil stack = refl

reduce-rendered :
    (xs : List Bytes)
    → All IsElement xs
    → reduce false [] (split (rendered false xs)) ≡ reduce false [] xs
unfolding rendered
reduce-rendered [] h = reduce-dot ∙ sym (reduce-nil [])
reduce-rendered (x ∷ xs) h = rw (split-join x xs (elements-Lacks (x ∷ xs) h)) refl

-- The stack of a relative path.
abbrev pub stack_of : Bytes → List Bytes
stack_of p = reduce false [] (split p)

pub stack_of-IsNormal : (p : Bytes) → IsNormal (stack_of p)
stack_of-IsNormal p = reduce-IsNormal [] (split p) (split-Lacks p) tt

pub clean-relative :
    (p : Bytes) → is_abs p ≡ false → clean p ≡ rendered false (reverse (stack_of p))
unfolding clean
clean-relative p r = rw r refl

pub is_abs-clean : (p : Bytes) → is_abs p ≡ false → is_abs (clean p) ≡ false
is_abs-clean p r =
    rw (clean-relative p r) (
      rendered-relative (reverse (stack_of p))
        (IsNormal-reverse (stack_of p) (stack_of-IsNormal p)))

-- Cleaning does not change what the elements of a relative path come to.
pub stack_of-clean : (p : Bytes) → is_abs p ≡ false → stack_of (clean p) ≡ stack_of p
stack_of-clean p r = rw (clean-relative p r) (
    reduce-rendered (reverse (stack_of p)) (IsNormal-reverse (stack_of p) (stack_of-IsNormal p))
    ∙ reduce-reverse (stack_of p) (stack_of-IsNormal p))

-- `Clean` of a relative path leaves nothing to clean.
pub clean-clean : (p : Bytes) → is_abs p ≡ false → clean (clean p) ≡ clean p
clean-clean p r =
    clean-relative (clean p) (is_abs-clean p r) ∙ rw (stack_of-clean p r) (sym (clean-relative p r))
