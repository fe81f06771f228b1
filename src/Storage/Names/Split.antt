-- ===== src/Storage/Names/Split.antt =====
-- Splitting a text at its slashes and joining the pieces again.
use cypherstorm.Base.{
  ℕ, ◌≡◌, refl, ◌∙◌, Bool, true, false, List, [], ◌∷◌, ◌++◌, Bytes, ◌==◌, All, Bool-cases, inl, inr,
  ||-neither,
}
use cypherstorm.Storage.Names.{contains, add_byte, split, join}

-- The bytes lack the byte `c`.
abbrev pub Lacks : ℕ → Bytes → Type 0
Lacks c s = contains c s ≡ false

add_byte-append :
    (slash : Bool) (c : ℕ) (b : Bytes) (pieces more : List Bytes)
    → add_byte slash c ((b ∷ pieces) ++ more) ≡ add_byte slash c (b ∷ pieces) ++ more
unfolding add_byte
add_byte-append true c b pieces more = refl
add_byte-append false c b pieces more = refl

pub split-cons : (text : Bytes) → (b : Bytes) × (rest : List Bytes) × (split text ≡ b ∷ rest)
unfolding split add_byte
split-cons [] = ([], [], refl)
split-cons (c ∷ cs) =
    let (b, rest, e) = split-cons cs in
    elim (Bool-cases (c == 47)) [
      | inl y ↦ ([], b ∷ rest, rw (y, e) refl)
      | inr n ↦ (c ∷ b, rest, rw (n, e) refl)
    ]

-- A text is split at each of its slashes.
pub split-append : (a b : Bytes) → split (a ++ 47 ∷ b) ≡ split a ++ split b
unfolding split
split-append [] b = refl
split-append (c ∷ a) b =
    let (p, rest, e) = split-cons a in
    rw (split-append a b, e) (add_byte-append (c == 47) c p rest (split b))

pub split-piece : (s : Bytes) → Lacks 47 s → split s ≡ s ∷ []
unfolding split contains add_byte
split-piece [] h = refl
split-piece (c ∷ cs) h =
    let (a, b) = ||-neither (c == 47) (contains 47 cs) h in rw (a, split-piece cs b) refl

pub split-join :
    (s : Bytes) (rest : List Bytes) → All (Lacks 47) (s ∷ rest) → split (join (s ∷ rest)) ≡ s ∷ rest
unfolding join
split-join s [] h = split-piece s h.0
split-join s (t ∷ rest) h =
    split-append s (join (t ∷ rest)) ∙ rw (split-piece s h.0, split-join t rest h.1) refl

add_byte-Lacks :
    (c : ℕ) (slash : Bool) (pieces : List Bytes)
    → (c == 47) ≡ slash
    → All (Lacks 47) pieces
    → All (Lacks 47) (add_byte slash c pieces)
unfolding add_byte contains
add_byte-Lacks c true pieces e h = (refl, h)
add_byte-Lacks c false [] e h = (rw e refl, tt)
add_byte-Lacks c false (p ∷ pieces) e h = (rw e h.0, h.1)

-- No piece has a slash.
pub split-Lacks : (text : Bytes) → All (Lacks 47) (split text)
unfolding split contains
split-Lacks [] = (refl, tt)
split-Lacks (c ∷ cs) = add_byte-Lacks c (c == 47) (split cs) refl (split-Lacks cs)
