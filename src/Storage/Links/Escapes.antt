-- ===== src/Storage/Links/Escapes.antt =====
-- How a cleaned path shows that it leaves the root, and the directory of an entry.
use cypherstorm.Base.{
  ℕ, ◌≡◌, refl, sym, ap, ◌∙◌, subst, Bool, true, false, List, [], ◌∷◌, ◌++◌, Bytes, ◌==◌, ◌||◌,
  same, same→eq, same_refl, if◌then◌else◌, reverse, reverse-cons, All, All-append, Bool-cases, inl,
  inr, ||-neither, arith,
}
use cypherstorm.Storage.Names.{split, join, contains}
use cypherstorm.Storage.Names.Split.{Lacks, split-append, split-piece}
use cypherstorm.Storage.Names.Segments.{IsSegment}
use cypherstorm.Storage.Paths.{dot, dot_dot, rendered, has_prefix, up_to_slash, keep_byte}
use cypherstorm.Storage.Paths.Normal.{IsElement, IsNormal, IsNormal-reverse}
use cypherstorm.Storage.Links.Stays.{HasUp, IsPlain, Verdict}

abbrev pub slashed : Bytes
slashed = 46 ∷ 46 ∷ 47 ∷ []

-- the second test of `validatePortableSymlink`
abbrev pub escapes : Bytes → Bool
escapes resolved = same resolved dot_dot || has_prefix resolved slashed

escapes-up : (rest : List Bytes) → escapes (join (dot_dot ∷ rest)) ≡ true
unfolding join same has_prefix
escapes-up [] = refl
escapes-up (x ∷ rest) = refl

-- The element in front of the first slash of a text.
first_of : Bytes → Bytes
first_of [] = []
first_of (c ∷ cs) = let rest = first_of cs in if c == 47 then [] else c ∷ rest

first_of-join : (x : Bytes) (xs : List Bytes) → Lacks 47 x → first_of (join (x ∷ xs)) ≡ x
unfolding first_of join contains
first_of-join [] [] h = refl
first_of-join [] (y ∷ xs) h = refl
first_of-join (c ∷ cs) [] h =
    let (a, b) = ||-neither (c == 47) (contains 47 cs) h in rw (a, first_of-join cs [] b) refl
first_of-join (c ∷ cs) (y ∷ xs) h =
    let (a, b) = ||-neither (c == 47) (contains 47 cs) h in rw (a, first_of-join cs (y ∷ xs) b) refl

first_of-slashed : (text : Bytes) → has_prefix text slashed ≡ true → first_of text ≡ dot_dot
unfolding has_prefix first_of
first_of-slashed [] h = cc
first_of-slashed (a ∷ []) h = ground arith
first_of-slashed (a ∷ b ∷ []) h = ground arith
first_of-slashed (a ∷ b ∷ c ∷ cs) h = ground arith

first_of-up : (text : Bytes) → escapes text ≡ true → first_of text ≡ dot_dot
first_of-up text h = elim (Bool-cases (same text dot_dot)) [
  | inl y ↦ rw (same→eq text dot_dot y) (unfold first_of in refl)
  | inr n ↦ first_of-slashed text (rw n at h)
]

dot-escapes : escapes dot ≡ false
unfolding same has_prefix
dot-escapes = refl

not_true : (b : Bool) → (b ≡ true → ⊥) → b ≡ false
not_true true h = absurd (h refl)
not_true false h = refl

-- A rendered list of elements escapes exactly if its first element is "..".
escapes-rendered_plain :
    (xs : List Bytes) → All IsElement xs → IsPlain xs → escapes (rendered false xs) ≡ false
unfolding rendered
escapes-rendered_plain [] h p = dot-escapes
escapes-rendered_plain (x ∷ xs) (e, h) (n, p) = not_true (escapes (join (x ∷ xs))) λ y.
    let up : x ≡ dot_dot = sym (first_of-join x xs e.no_slash) ∙ first_of-up _ y in
    let z : same dot_dot dot_dot ≡ false = subst (λ t. same t dot_dot ≡ false) up n in
    cc (same_refl dot_dot)

IsPlain-reverse : (stack : List Bytes) → IsPlain stack → IsPlain (reverse stack)
IsPlain-reverse [] p = tt
IsPlain-reverse (t ∷ stack) (n, p) =
    rw (reverse-cons t stack)
      (All-append _ (reverse stack) (t ∷ []) (IsPlain-reverse stack p) (n, tt))

-- The bottom of a stack is the first element that is written.
bottom_up :
    (stack : List Bytes) → HasUp stack → (rest : List Bytes) × (reverse stack ≡ dot_dot ∷ rest)
bottom_up [] h = absurd h
bottom_up (t ∷ []) h = ([], ap (λ z. z ∷ []) (same→eq t dot_dot h))
bottom_up (t ∷ u ∷ stack) h =
    let (rest, e) = bottom_up (u ∷ stack) h in
    (rest ++ (t ∷ []), reverse-cons t (u ∷ stack) ∙ rw e refl)

abbrev pub opposite : Bool → Bool
opposite true = false
opposite false = true

-- The test on the cleaned path reads off the verdict of the walk.
pub escapes-Verdict :
    (v : Bool) (stack : List Bytes)
    → IsNormal stack
    → Verdict v stack
    → escapes (rendered false (reverse stack)) ≡ opposite v
escapes-Verdict true stack n p =
    escapes-rendered_plain (reverse stack) (IsNormal-reverse stack n) (IsPlain-reverse stack p)
escapes-Verdict false stack n h =
    let (rest, e) = bottom_up stack h in rw e (unfold rendered in escapes-up rest)

-- The directory of an entry has all elements but the last one.
abbrev pub all_but_last : List Bytes → List Bytes
all_but_last [] = []
all_but_last (s ∷ []) = []
all_but_last (s ∷ t ∷ rest) = s ∷ all_but_last (t ∷ rest)

up_to_slash-piece : (s : Bytes) → Lacks 47 s → up_to_slash s ≡ []
unfolding up_to_slash contains
up_to_slash-piece [] h = refl
up_to_slash-piece (c ∷ cs) h =
    let (a, b) = ||-neither (c == 47) (contains 47 cs) h in rw (up_to_slash-piece cs b) (rw a refl)

keep_byte-cons : (c : ℕ) (d : ℕ) (ds : Bytes) → keep_byte c (d ∷ ds) ≡ c ∷ d ∷ ds
unfolding keep_byte
keep_byte-cons c d ds = refl

up_to_slash-after : (s b : Bytes) → up_to_slash (s ++ 47 ∷ b) ≡ s ++ 47 ∷ up_to_slash b
unfolding up_to_slash
up_to_slash-after [] b = at_slash (up_to_slash b)
  where
    at_slash : (t : Bytes) → keep_byte 47 t ≡ 47 ∷ t
    at_slash [] = refl
    at_slash (d ∷ ds) = refl
up_to_slash-after (c ∷ []) b = rw (up_to_slash-after [] b) (keep_byte-cons c 47 (up_to_slash b))
up_to_slash-after (c ∷ d ∷ s) b =
    rw (up_to_slash-after (d ∷ s) b) (keep_byte-cons c d (s ++ 47 ∷ up_to_slash b))

pub split-up_to_slash :
    (s : Bytes) (rest : List Bytes)
    → All IsSegment (s ∷ rest)
    → split (up_to_slash (join (s ∷ rest))) ≡ all_but_last (s ∷ rest) ++ ([] ∷ [])
unfolding join
split-up_to_slash s [] h = rw (up_to_slash-piece s h.0.no_slash) (unfold split in refl)
split-up_to_slash s (t ∷ rest) h =
    rw
      (
        up_to_slash-after s (join (t ∷ rest)),
        split-append s (up_to_slash (join (t ∷ rest))),
        split-piece s h.0.no_slash,
        split-up_to_slash t rest h.1,
      )
      refl
