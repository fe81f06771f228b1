-- ===== src/Storage/Links/Stays.antt =====
-- Which targets `validatePortableSymlink` lets through: those that never climb above the root.
use cypherstorm.Base.{
  ℕ, zero, suc, ◌≡◌, Bool, true, false, Option, none, some, List, [], ◌∷◌, Bytes, length, ◌||◌,
  same, same_refl, if◌then◌else◌, All, Bool-cases, inl, inr, arith,
}
use cypherstorm.Storage.Paths.{dot, dot_dot, climb, add_element, reduce}

-- The depth below the root after one more element of a target; `none` is above the root.
abbrev pub lower : ℕ → Option ℕ
lower zero = none
lower (suc d) = some d

abbrev pub depth_after : ℕ → Bytes → Option ℕ
depth_after d p =
    if same p [] || same p dot then some d else if same p dot_dot then lower d else some (suc d)

-- A walk along the elements of a target, which must not leave the root at any point.
abbrev pub stays : Option ℕ → List Bytes → Bool
stays none pieces = false
stays (some d) [] = true
stays (some d) (p ∷ pieces) = stays (depth_after d p) pieces

-- The stack below the root has ".." at its bottom; inside, it has as many elements as the depth.
abbrev pub HasUp : List Bytes → Type 0
HasUp [] = ⊥
HasUp (t ∷ []) = same t dot_dot ≡ true
HasUp (t ∷ u ∷ stack) = HasUp (u ∷ stack)

abbrev pub IsPlain : List Bytes → Type 0
IsPlain = All (λ p. same p dot_dot ≡ false)

abbrev pub AtDepth : Option ℕ → List Bytes → Type 0
AtDepth none stack = HasUp stack
AtDepth (some d) stack = IsPlain stack × (length stack ≡ d)

push-HasUp : (p : Bytes) (stack : List Bytes) → HasUp stack → HasUp (p ∷ stack)
push-HasUp p [] h = absurd h
push-HasUp p (t ∷ stack) h = h

climb-HasUp : (stack : List Bytes) → HasUp stack → HasUp (climb false stack)
unfolding climb
climb-HasUp [] h = absurd h
climb-HasUp (t ∷ []) h = rw h h
climb-HasUp (t ∷ u ∷ stack) h = elim (Bool-cases (same t dot_dot)) [
  | inl y ↦ rw y h
  | inr x ↦ rw x h
]

add_element-HasUp :
    (stack : List Bytes) (p : Bytes) → HasUp stack → HasUp (add_element false stack p)
unfolding add_element
add_element-HasUp stack p h = elim (Bool-cases (same p [] || same p dot)) [
  | inl y ↦ rw y h
  | inr x ↦ elim (Bool-cases (same p dot_dot)) [
    | inl y ↦ rw (x, y) (climb-HasUp stack h)
    | inr z ↦ rw (x, z) (push-HasUp p stack h)
  ]
]

climb-AtDepth :
    (d : ℕ) (stack : List Bytes) → AtDepth (some d) stack → AtDepth (lower d) (climb false stack)
unfolding climb
climb-AtDepth zero [] h = same_refl dot_dot
climb-AtDepth (suc d) [] h = absurd (omega arith)
climb-AtDepth zero (t ∷ stack) h = absurd (omega arith)
climb-AtDepth (suc d) (t ∷ stack) ((n, plain), len) = rw n (plain, omega arith)

pub add_element-AtDepth :
    (d : ℕ) (stack : List Bytes) (p : Bytes)
    → AtDepth (some d) stack
    → AtDepth (depth_after d p) (add_element false stack p)
unfolding add_element
add_element-AtDepth d stack p h = elim (Bool-cases (same p [] || same p dot)) [
  | inl y ↦ rw y h
  | inr x ↦ elim (Bool-cases (same p dot_dot)) [
    | inl y ↦ rw (x, y) (climb-AtDepth d stack h)
    | inr z ↦ rw (x, z) ((z, h.0), omega (arith, h.1))
  ]
]

-- Inside the root, or out of it for good.
abbrev pub Verdict : Bool → List Bytes → Type 0
Verdict true stack = IsPlain stack
Verdict false stack = HasUp stack

pub reduce-Verdict :
    (o : Option ℕ) (stack pieces : List Bytes)
    → AtDepth o stack
    → Verdict (stays o pieces) (reduce false stack pieces)
unfolding reduce
reduce-Verdict none stack [] h = h
reduce-Verdict none stack (p ∷ pieces) h =
    reduce-Verdict none (add_element false stack p) pieces (add_element-HasUp stack p h)
reduce-Verdict (some d) stack [] h = h.0
reduce-Verdict (some d) stack (p ∷ pieces) h =
    reduce-Verdict (depth_after d p) (add_element false stack p) pieces
      (add_element-AtDepth d stack p h)
