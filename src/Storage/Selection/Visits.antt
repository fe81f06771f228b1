-- ===== src/Storage/Selection/Visits.antt =====
-- The memoised search decides what a pattern matches.
use cypherstorm.Base.{
  ℕ, zero, suc, ◌≡◌, ◌↔◌, inl, inr, refl, sym, ap, ◌∙◌, subst, Bool, true, false, Option, none,
  some, List, [], ◌∷◌, Bytes, drop, ◌==◌, ==→eq, ◌&&◌, &&-both, same, if◌then◌else◌, All,
  Bool-cases,
}
use cypherstorm.Storage.Selection.{
  star_star, Memo, recall, Visit, starts_with_stars, is_last, stored, or_next, try_rests,
  after_glob, no_elements, one_element, search_from, or_search, visit, match_parts,
}
use cypherstorm.Storage.Selection.Matching.{
  Matches, done, element, none_more, one_more, Matches-all, two_stars, star_or, star_end,
  element_or, element_end,
}

tail_or : List Bytes → List Bytes
tail_or [] = []
tail_or (x ∷ xs) = xs

drop-suc : (i : ℕ) (xs : List Bytes) → drop (suc i) xs ≡ tail_or (drop i xs)
unfolding tail_or
drop-suc zero [] = refl
drop-suc zero (x ∷ xs) = refl
drop-suc (suc i) [] = refl
drop-suc (suc i) (x ∷ xs) = drop-suc i xs

further_on : (i : ℕ) (x : Bytes) (xs all : List Bytes) → x ∷ xs ≡ drop i all → xs ≡ drop (suc i) all
unfolding tail_or
further_on i x xs all e = ap tail_or e ∙ sym (drop-suc i all)

module _ (glob : Bytes → Bytes → Option Bool) (whole path : List Bytes) where
  abbrev Says : Bool → List Bytes → List Bytes → Type 0
  Says b pattern name = (b ≡ true) ↔ Matches glob pattern name

  -- Every stored state has its right answer.
  abbrev IsSound : Memo → Type 0
  IsSound = All (λ ((i, j), b). Says b (drop i whole) (drop j path))

  -- An answer is right, and the memo that comes with it is sound.
  abbrev IsRight : List Bytes → List Bytes → Option Bool × Memo → Type 0
  IsRight pattern name (none, memo) = IsSound memo
  IsRight pattern name (some b, memo) = Says b pattern name × IsSound memo

  recall-Says :
      (i j : ℕ) (memo : Memo) (b : Bool)
      → IsSound memo
      → recall i j memo ≡ some b
      → Says b (drop i whole) (drop j path)
  unfolding recall
  recall-Says i j [] b s e = cc
  recall-Says i j (((k, l), c) ∷ memo) b s e = elim (Bool-cases (k == i && l == j)) [
    | inr n ↦ recall-Says i j memo b s.1 (rw n at e)
    | inl y ↦
        let (p, q) = &&-both (k == i) (l == j) y in
        let found : some c ≡ some b = rw y at e in
        let c_b : c ≡ b = cc in
        subst (λ z. Says z (drop i whole) (drop j path)) c_b
          (subst (λ z. Says c (drop z whole) (drop j path)) (==→eq k i p)
            (subst (λ z. Says c (drop k whole) (drop z path)) (==→eq l j q) s.0))
  ]

  stored-IsRight :
      (i j : ℕ) (pattern name : List Bytes) (out : Option Bool × Memo)
      → pattern ≡ drop i whole
      → name ≡ drop j path
      → IsRight pattern name out
      → IsRight pattern name (stored i j out)
  unfolding stored
  stored-IsRight i j pattern name (none, memo) p q r = r
  stored-IsRight i j pattern name (some b, memo) p q (r, s) =
      (r, (subst (λ z. Says b z (drop j path)) p (subst (λ z. Says b pattern z) q r), s))

  or_search-IsRight :
      (i j : ℕ) (pattern name : List Bytes) (body : Memo → Option Bool × Memo) (memo : Memo)
      (o : Option Bool)
      → recall i j memo ≡ o
      → pattern ≡ drop i whole
      → name ≡ drop j path
      → IsSound memo
      → IsRight pattern name (body memo)
      → IsRight pattern name (or_search glob i j body memo o)
  unfolding or_search
  or_search-IsRight i j pattern name body memo none e p q s r =
      stored-IsRight i j pattern name (body memo) p q r
  or_search-IsRight i j pattern name body memo (some b) e p q s r = (
    subst (λ z. Says b z name) (sym p)
        (subst (λ z. Says b (drop i whole) z) (sym q) (recall-Says i j memo b s e)),
    s,
  )

  -- What a call on the rest of the pattern is known to do.
  abbrev Decides : List Bytes → Visit → Type 0
  Decides pattern v =
      (j : ℕ) (name : List Bytes) (memo : Memo)
      → name ≡ drop j path
      → IsSound memo
      → IsRight pattern name (v j name memo)

  or_next-IsRight :
      (p n : Bytes) (pattern name : List Bytes) (next : Memo → Option Bool × Memo)
      (out : Option Bool × Memo)
      → same p star_star ≡ true
      → IsRight pattern (n ∷ name) out
      → ((memo : Memo) → IsSound memo → IsRight (p ∷ pattern) name (next memo))
      → IsRight (p ∷ pattern) (n ∷ name) (or_next next out)
  unfolding or_next
  or_next-IsRight p n pattern name next (none, memo) st r k = r
  or_next-IsRight p n pattern name next (some true, memo) st (r, s) k =
      ((λ _. none_more st (r.0 refl), λ _. refl), s)
  or_next-IsRight p n pattern name next (some false, memo) st (r, s) k =
      widened (next memo) (k memo s)
    where
      widened :
          (out : Option Bool × Memo)
          → IsRight (p ∷ pattern) name out
          → IsRight (p ∷ pattern) (n ∷ name) out
      widened (none, m) h = h
      widened (some b, m) (h, t) = (
        (
          λ y. one_more st (h.0 y),
          λ d. elim (star_or glob st d) [
            | inl x ↦ let z : false ≡ true = r.1 x in cc
            | inr x ↦ h.1 x
          ],
        ),
        t,
      )

  try_rests-IsRight :
      (p : Bytes) (pattern : List Bytes) (v : Visit)
      → same p star_star ≡ true
      → Decides pattern v
      → (j : ℕ) (name : List Bytes) (memo : Memo) → name ≡ drop j path
      → IsSound memo
      → IsRight (p ∷ pattern) name (try_rests v j name memo)
  unfolding try_rests
  try_rests-IsRight p pattern v st d j [] memo q s = at_end (v j [] memo) (d j [] memo q s)
    where
      at_end : (out : Option Bool × Memo) → IsRight pattern [] out → IsRight (p ∷ pattern) [] out
      at_end (none, m) h = h
      at_end (some b, m) (h, t) = ((λ y. none_more st (h.0 y), λ x. h.1 (star_end glob st x)), t)
  try_rests-IsRight p pattern v st d j (n ∷ name) memo q s =
      or_next-IsRight p n pattern name (try_rests v (suc j) name) (v j (n ∷ name) memo) st
        (d j (n ∷ name) memo q s)
        (λ m t. try_rests-IsRight p pattern v st d (suc j) name m (further_on j n name path q) t)

  after_glob-IsRight :
      (p n : Bytes) (pattern name : List Bytes) (v : Visit) (j : ℕ) (memo : Memo) (o : Option Bool)
      → same p star_star ≡ false
      → Decides pattern v
      → name ≡ drop (suc j) path
      → IsSound memo
      → glob p n ≡ o
      → IsRight (p ∷ pattern) (n ∷ name) (after_glob v j name memo o)
  unfolding after_glob
  after_glob-IsRight p n pattern name v j memo none st d q s e = s
  after_glob-IsRight p n pattern name v j memo (some false) st d q s e =
      ((λ y. cc, λ x. cc ((element_or glob st x).0)), s)
  after_glob-IsRight p n pattern name v j memo (some true) st d q s e =
      with_element (v (suc j) name memo) (d (suc j) name memo q s)
    where
      with_element :
          (out : Option Bool × Memo)
          → IsRight pattern name out
          → IsRight (p ∷ pattern) (n ∷ name) out
      with_element (none, m) h = h
      with_element (some b, m) (h, t) =
          ((λ y. element st e (h.0 y), λ x. h.1 (element_or glob st x).1), t)

  one_element-IsRight :
      (p : Bytes) (pattern : List Bytes) (v : Visit)
      → same p star_star ≡ false
      → Decides pattern v
      → (j : ℕ) (name : List Bytes) (memo : Memo) → name ≡ drop j path
      → IsSound memo
      → IsRight (p ∷ pattern) name (one_element glob v p j name memo)
  unfolding one_element
  one_element-IsRight p pattern v st d j [] memo q s =
      ((λ y. cc, λ x. absurd (element_end glob st x)), s)
  one_element-IsRight p pattern v st d j (n ∷ name) memo q s =
      after_glob-IsRight p n pattern name v j memo (glob p n) st d (further_on j n name path q) s
        refl

  search_from-IsRight :
      (p : Bytes) (pattern : List Bytes) (v : Visit)
      → Decides pattern v
      → (j : ℕ) (name : List Bytes) (memo : Memo) → name ≡ drop j path
      → IsSound memo
      → IsRight (p ∷ pattern) name (search_from glob v p pattern j name memo)
  unfolding search_from is_last
  search_from-IsRight p pattern v d j name memo q s = elim (Bool-cases (same p star_star)) [
    | inr n ↦ rw n (one_element-IsRight p pattern v n d j name memo q s)
    | inl y ↦ rw y (behind_stars pattern d y)
  ]
    where
      behind_stars :
          (rest : List Bytes)
          → Decides rest v
          → same p star_star ≡ true
          → IsRight
              (p ∷ rest)
              name
              (if is_last rest then (some true, memo) else try_rests v j name memo)
      behind_stars [] d y = ((λ _. Matches-all glob p name y, λ _. refl), s)
      behind_stars (r ∷ rest) d y = try_rests-IsRight p (r ∷ rest) v y d j name memo q s

  no_elements-Says : (name : List Bytes) → Says (no_elements name) [] name
  unfolding no_elements
  no_elements-Says [] = (λ _. done, λ _. refl)
  no_elements-Says (n ∷ name) = (λ y. cc, λ d. elim d [ ])

  skip_star :
      (p : Bytes) (pattern : List Bytes) (name : List Bytes) (out : Option Bool × Memo)
      → (same p star_star && starts_with_stars pattern) ≡ true
      → IsRight pattern name out
      → IsRight (p ∷ pattern) name out
  skip_star p [] name out y r = let z = (&&-both (same p star_star) false y).1 in cc
  skip_star p (r ∷ rest) name (none, m) y h = h
  skip_star p (r ∷ rest) name (some b, m) y (h, t) =
      let (sp, sr) = &&-both (same p star_star) (same r star_star) y in
      ((λ e. none_more sp (h.0 e), λ d. h.1 (two_stars glob sp d sr)), t)

  -- Every call of `visit` answers rightly and keeps the memo sound.
  visit-Decides :
      (i : ℕ) (pattern : List Bytes)
      → pattern ≡ drop i whole
      → Decides pattern (visit glob i pattern)
  unfolding visit
  visit-Decides i [] e j name memo q s =
      or_search-IsRight i j [] name (λ m. (some (no_elements name), m)) memo (recall i j memo) refl
        e q s (no_elements-Says name, s)
  visit-Decides i (p ∷ pattern) e j name memo q s =
      let later = visit-Decides (suc i) pattern (further_on i p pattern whole e) in
      elim (Bool-cases (same p star_star && starts_with_stars pattern)) [
        | inl y ↦ rw y (
            skip_star p pattern name (visit glob (suc i) pattern j name memo) y
              (later j name memo q s))
        | inr n ↦ rw n (
            or_search-IsRight i j (p ∷ pattern) name
              (search_from glob (visit glob (suc i) pattern) p pattern j name) memo
              (recall i j memo) refl e q s
              (search_from-IsRight p pattern (visit glob (suc i) pattern) later j name memo q s))
      ]

-- When matchParts returns an answer, it is true exactly if the pattern matches the path.
pub match_parts_iff :
    (glob : Bytes → Bytes → Option Bool) (pattern path : List Bytes) (b : Bool)
    → match_parts glob pattern path ≡ some b
    → (b ≡ true) ↔ Matches glob pattern path
unfolding match_parts
match_parts_iff glob pattern path b e =
    answer (visit glob 0 pattern 0 path []) e
      (visit-Decides glob pattern path 0 pattern refl 0 path [] refl tt)
  where
    answer :
        (out : Option Bool × Memo)
        → out.0 ≡ some b
        → IsRight glob pattern path pattern path out
        → (b ≡ true) ↔ Matches glob pattern path
    answer (none, m) e r = cc
    answer (some c, m) e r =
        let c_b : c ≡ b = cc in subst (λ z. (z ≡ true) ↔ Matches glob pattern path) c_b r.0
