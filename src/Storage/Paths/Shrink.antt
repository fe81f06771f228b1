-- ===== src/Storage/Paths/Shrink.antt =====
-- `path.Dir` gives ".", "/" or a shorter path, so that a loop over the parents of a path ends.
use cypherstorm.Base.{
  ℕ, suc, ◌+◌, ◌≤◌, ◌<◌, ◌≡◌, ◌⊎◌, inl, inr, refl, sym, ap, ◌∙◌, Bool, true, false, List, [], ◌∷◌,
  ◌++◌, Bytes, length, length-append, same, same→eq, ◌==◌, if◌then◌else◌, arith, reverse,
  reverse-cons, Bool-cases, ==→eq,
}
use cypherstorm.Storage.Names.{split, join, is_abs, add_byte}
use cypherstorm.Storage.Names.Split.{split-cons, split-append}
use cypherstorm.Storage.Paths.{
  dot, dot_dot, climb, add_element, reduce, rendered, clean, keep_byte, up_to_slash, dir,
}
use cypherstorm.Storage.Paths.Normal.{reduce-append}

-- The bytes of the elements, with a slash for each.
abbrev weight : List Bytes → ℕ
weight [] = 0
weight (p ∷ ps) = suc (length p) + weight ps

weight-append : (xs ys : List Bytes) → weight (xs ++ ys) ≡ weight xs + weight ys
weight-append [] ys = omega arith
weight-append (x ∷ xs) ys = omega (arith, weight-append xs ys)

weight-reverse : (xs : List Bytes) → weight (reverse xs) ≡ weight xs
weight-reverse [] = refl
weight-reverse (x ∷ xs) =
    ap weight (reverse-cons x xs)
    ∙ omega (arith, weight-append (reverse xs) (x ∷ []), weight-reverse xs)

weight-add_byte :
    (s : Bool) (c : ℕ) (b : Bytes) (rest : List Bytes)
    → weight (add_byte s c (b ∷ rest)) ≡ suc (weight (b ∷ rest))
unfolding add_byte
weight-add_byte true c b rest = omega arith
weight-add_byte false c b rest = omega arith

weight-split : (text : Bytes) → weight (split text) ≡ suc (length text)
unfolding split
weight-split [] = refl
weight-split (c ∷ cs) =
    let (b, rest, e) = split-cons cs in
    ap (λ l. weight (add_byte (c == 47) c l)) e
    ∙ weight-add_byte (c == 47) c b rest
    ∙ ap (λ l. suc (weight l)) (sym e)
    ∙ ap suc (weight-split cs)

weight-climb : (rooted : Bool) (stack : List Bytes) → weight (climb rooted stack) ≤ weight stack + 3
unfolding climb
weight-climb true [] = omega arith
weight-climb false [] = omega arith
weight-climb true (t ∷ stack) = ground arith
weight-climb false (t ∷ stack) = ground arith

weight-add_element :
    (rooted : Bool) (stack : List Bytes) (p : Bytes)
    → weight (add_element rooted stack p) ≤ weight stack + suc (length p)
unfolding add_element
weight-add_element rooted stack p = elim (Bool-cases (same p dot_dot)) [
  | inl y ↦
      let e : p ≡ dot_dot = same→eq p dot_dot y in
      let size : length p ≡ 2 = ap length e in
      let climbed = weight-climb rooted stack in ground arith
  | inr n ↦ ground arith
]

weight-reduce :
    (rooted : Bool) (stack ps : List Bytes)
    → weight (reduce rooted stack ps) ≤ weight stack + weight ps
unfolding reduce
weight-reduce rooted stack [] = omega arith
weight-reduce rooted stack (p ∷ ps) =
    omega (
      arith,
      weight-reduce rooted (add_element rooted stack p) ps,
      weight-add_element rooted stack p,
    )

length-join : (x : Bytes) (xs : List Bytes) → suc (length (join (x ∷ xs))) ≡ weight (x ∷ xs)
unfolding join
length-join x [] = omega arith
length-join x (y ∷ ys) = omega (arith, length-append x (47 ∷ join (y ∷ ys)), length-join y ys)

length-rendered_absolute :
    (xs : List Bytes) → (rendered true xs ≡ 47 ∷ []) ⊎ (length (rendered true xs) ≡ weight xs)
unfolding rendered join
length-rendered_absolute [] = inl refl
length-rendered_absolute (x ∷ xs) = inr (length-join x xs)

length-rendered_relative :
    (xs : List Bytes) → (rendered false xs ≡ dot) ⊎ (suc (length (rendered false xs)) ≡ weight xs)
unfolding rendered
length-rendered_relative [] = inl refl
length-rendered_relative (x ∷ xs) = inr (length-join x xs)

keep_byte-kept :
    (c : ℕ) (cs kept : Bytes)
    → length kept ≤ length cs
    → (kept ≡ []) ⊎ ((a : Bytes) × (kept ≡ a ++ 47 ∷ []))
    → (keep_byte c kept ≡ []) ⊎ ((a : Bytes) × (keep_byte c kept ≡ a ++ 47 ∷ []))
unfolding keep_byte
keep_byte-kept c cs [] h e = elim (Bool-cases (c == 47)) [
  | inl y ↦ inr ([], rw y (ap (λ z. z ∷ []) (==→eq c 47 y)))
  | inr n ↦ inl (rw n refl)
]
keep_byte-kept c cs (d ∷ ds) h (inl e) = cc e
keep_byte-kept c cs (d ∷ ds) h (inr (a, e)) = inr (c ∷ a, ap (λ l. c ∷ l) e)

length-keep_byte : (c : ℕ) (kept : Bytes) → length (keep_byte c kept) ≤ suc (length kept)
unfolding keep_byte
length-keep_byte c [] = ground arith
length-keep_byte c (d ∷ ds) = omega arith

length-up_to_slash : (p : Bytes) → length (up_to_slash p) ≤ length p
unfolding up_to_slash
length-up_to_slash [] = omega arith
length-up_to_slash (c ∷ cs) =
    omega (arith, length-keep_byte c (up_to_slash cs), length-up_to_slash cs)

-- What stands up to the last slash is empty or ends with it.
up_to_slash-end :
    (p : Bytes) → (up_to_slash p ≡ []) ⊎ ((a : Bytes) × (up_to_slash p ≡ a ++ 47 ∷ []))
unfolding up_to_slash
up_to_slash-end [] = inl refl
up_to_slash-end (c ∷ cs) =
    keep_byte-kept c cs (up_to_slash cs) (length-up_to_slash cs) (up_to_slash-end cs)

-- The elements of a text that ends with a slash weigh no more than those in front of it.
weight-ended :
    (rooted : Bool) (a : Bytes)
    → weight (reverse (reduce rooted [] (split (a ++ 47 ∷ []))))
      ≤ weight (reduce rooted [] (split a))
weight-ended rooted a =
    let whole : reduce rooted [] (split (a ++ 47 ∷ [])) ≡ reduce rooted [] (split a) =
      ap (reduce rooted []) (split-append a [])
      ∙ reduce-append rooted [] (split a) (split [])
      ∙ unfold split reduce add_element same in refl in
    omega (arith, weight-reverse (reduce rooted [] (split (a ++ 47 ∷ []))), ap weight whole)

rendered-bound :
    (rooted : Bool) (xs : List Bytes) (n : ℕ)
    → weight xs ≤ (if rooted then n else suc n)
    → (rendered rooted xs ≡ dot)
      ⊎ (rendered rooted xs ≡ 47 ∷ [])
      ⊎ (length (rendered rooted xs) ≤ n)
rendered-bound true xs n h = elim (length-rendered_absolute xs) [
  | inl e ↦ inr (inl e)
  | inr e ↦ inr (inr (omega (arith, e, h)))
]
rendered-bound false xs n h = elim (length-rendered_relative xs) [
  | inl e ↦ inl e
  | inr e ↦ inr (inr (omega (arith, e, h)))
]

weight-elements :
    (rooted : Bool) (a : Bytes)
    → is_abs (a ++ 47 ∷ []) ≡ rooted
    → weight (reverse (reduce rooted [] (split (a ++ 47 ∷ []))))
      ≤ (if rooted then length a else suc (length a))
unfolding is_abs
weight-elements true [] e = unfold split add_byte reduce add_element same in omega arith
weight-elements false [] e = cc e
weight-elements false (c ∷ cs) e = omega (
  arith,
  weight-ended false (c ∷ cs),
  weight-reduce false [] (split (c ∷ cs)),
  weight-split (c ∷ cs),
)
weight-elements true (c ∷ cs) e =
    let first : reduce true [] (split (c ∷ cs)) ≡ reduce true [] (split cs) =
      unfold split add_byte reduce add_element same in rw e refl in
    omega (
      arith,
      weight-ended true (c ∷ cs),
      ap weight first,
      weight-reduce true [] (split cs),
      weight-split cs,
    )

clean-ended :
    (a : Bytes)
    → (clean (a ++ 47 ∷ []) ≡ dot)
      ⊎ (clean (a ++ 47 ∷ []) ≡ 47 ∷ [])
      ⊎ (length (clean (a ++ 47 ∷ [])) ≤ length a)
unfolding clean
clean-ended a =
    rendered-bound (is_abs (a ++ 47 ∷ [])) _ (length a)
      (weight-elements (is_abs (a ++ 47 ∷ [])) a refl)

-- The directory of a path is "." or "/", or it is shorter than the path.
pub dir-shrinks : (p : Bytes) → (dir p ≡ dot) ⊎ (dir p ≡ 47 ∷ []) ⊎ (length (dir p) < length p)
unfolding dir
dir-shrinks p = elim (up_to_slash-end p) [
  | inl e ↦ inl (ap clean e ∙ unfold clean rendered reduce add_element split same is_abs in refl)
  | inr (a, e) ↦ elim (clean-ended a) [
    | inl d ↦ inl (ap clean e ∙ d)
    | inr (inl s) ↦ inr (inl (ap clean e ∙ s))
    | inr (inr l) ↦ inr (
        inr (
          omega (
            arith,
            l,
            length-up_to_slash p,
            ap length e,
            ap length (ap clean e),
            length-append a (47 ∷ []),
          )))
  ]
]

-- Both are their own directory.
pub dir-dot : dir dot ≡ dot
unfolding dir clean up_to_slash keep_byte rendered reduce add_element split add_byte same is_abs
dir-dot = refl

pub dir-root : dir (47 ∷ []) ≡ 47 ∷ []
unfolding dir clean up_to_slash keep_byte rendered reduce add_element split add_byte same is_abs
    join
dir-root = refl
