-- ===== src/Storage/Selection/Total.antt =====
-- The search returns an answer whenever path.Match does on the elements of pattern and path.
use cypherstorm.Base.{
  ℕ, suc, ◌≡◌, ◌↔◌, ◌⊎◌, All, inl, inr, refl, Bool, true, false, Option, none, some, List, [], ◌∷◌,
  Bytes, ◌&&◌, same, Bool-cases,
}
use cypherstorm.Storage.Selection.{
  star_star, Memo, recall, Visit, starts_with_stars, is_last, stored, or_next, try_rests,
  after_glob, no_elements, one_element, search_from, or_search, visit, match_parts,
}
use cypherstorm.Storage.Selection.Matching.{Matches}
use cypherstorm.Storage.Selection.Visits.{match_parts_iff}

abbrev Answers : Option Bool × Memo → Type 0
Answers out = (b : Bool) × (out.0 ≡ some b)

abbrev AlwaysAnswers : (Bytes → Type 0) → Visit → Type 0
AlwaysAnswers N v = (j : ℕ) (name : List Bytes) (memo : Memo) → All N name → Answers (v j name memo)

stored-Answers : (i j : ℕ) (out : Option Bool × Memo) → Answers out → Answers (stored i j out)
unfolding stored
stored-Answers i j (none, memo) (b, e) = cc
stored-Answers i j (some c, memo) h = (c, refl)

or_next-Answers :
    (next : Memo → Option Bool × Memo) (out : Option Bool × Memo)
    → Answers out
    → ((memo : Memo) → Answers (next memo))
    → Answers (or_next next out)
unfolding or_next
or_next-Answers next (none, memo) (b, e) k = cc
or_next-Answers next (some true, memo) h k = (true, refl)
or_next-Answers next (some false, memo) h k = k memo

try_rests-Answers :
    (N : Bytes → Type 0) (v : Visit) → AlwaysAnswers N v → AlwaysAnswers N (try_rests v)
unfolding try_rests
try_rests-Answers N v h j [] memo a = h j [] memo a
try_rests-Answers N v h j (n ∷ name) memo a =
    or_next-Answers (try_rests v (suc j) name) (v j (n ∷ name) memo) (h j (n ∷ name) memo a)
      (λ m. try_rests-Answers N v h (suc j) name m a.1)

-- The elements of a list.
abbrev pub IsIn : List Bytes → Bytes → Type 0
IsIn [] n = ⊥
IsIn (x ∷ xs) n = (x ≡ n) ⊎ IsIn xs n

All-IsIn : (xs : List Bytes) → All (IsIn xs) xs
All-IsIn xs = included xs xs (λ n h. h)
  where
    included : (ys all : List Bytes) → ((n : Bytes) → IsIn ys n → IsIn all n) → All (IsIn all) ys
    included [] all h = tt
    included (y ∷ ys) all h = (h y (inl refl), included ys all (λ n i. h n (inr i)))

module _ (glob : Bytes → Bytes → Option Bool) where
  -- path.Match reports no error for the element on this name.
  abbrev Globs : Bytes → Bytes → Type 0
  Globs p n = (b : Bool) × (glob p n ≡ some b)

  -- It reports none for the elements of a pattern, "**" apart, on any of these names.
  abbrev pub AreGood : List Bytes → (Bytes → Type 0) → Type 0
  AreGood pattern N = All (λ p. same p star_star ≡ false → (n : Bytes) → N n → Globs p n) pattern

  after_glob-Answers :
      (N : Bytes → Type 0) (v : Visit) (j : ℕ) (name : List Bytes) (memo : Memo) (o : Option Bool)
      → AlwaysAnswers N v
      → All N name
      → (b : Bool) × (o ≡ some b)
      → Answers (after_glob v j name memo o)
  unfolding after_glob
  after_glob-Answers N v j name memo none h a (b, e) = cc
  after_glob-Answers N v j name memo (some true) h a e = h (suc j) name memo a
  after_glob-Answers N v j name memo (some false) h a e = (false, refl)

  one_element-Answers :
      (N : Bytes → Type 0) (p : Bytes) (v : Visit)
      → ((n : Bytes) → N n → Globs p n)
      → AlwaysAnswers N v
      → AlwaysAnswers N (one_element glob v p)
  unfolding one_element
  one_element-Answers N p v g h j [] memo a = (false, refl)
  one_element-Answers N p v g h j (n ∷ name) memo a =
      after_glob-Answers N v j name memo (glob p n) h a.1 (g n a.0)

  search_from-Answers :
      (N : Bytes → Type 0) (p : Bytes) (pattern : List Bytes) (v : Visit)
      → (same p star_star ≡ false → (n : Bytes) → N n → Globs p n)
      → AlwaysAnswers N v
      → AlwaysAnswers N (search_from glob v p pattern)
  unfolding search_from
  search_from-Answers N p pattern v g h j name memo a = elim (Bool-cases (same p star_star)) [
    | inr n ↦ rw n (one_element-Answers N p v (g n) h j name memo a)
    | inl y ↦ elim (Bool-cases (is_last pattern)) [
      | inl l ↦ rw (y, l) (true, refl)
      | inr l ↦ rw (y, l) (try_rests-Answers N v h j name memo a)
    ]
  ]

  or_search-Answers :
      (i j : ℕ) (body : Memo → Option Bool × Memo) (memo : Memo) (o : Option Bool)
      → Answers (body memo)
      → Answers (or_search glob i j body memo o)
  unfolding or_search
  or_search-Answers i j body memo none h = stored-Answers i j (body memo) h
  or_search-Answers i j body memo (some b) h = (b, refl)

  visit-Answers :
      (N : Bytes → Type 0) (i : ℕ) (pattern : List Bytes)
      → AreGood pattern N
      → AlwaysAnswers N (visit glob i pattern)
  unfolding visit
  visit-Answers N i [] g j name memo a =
      or_search-Answers i j (λ m. (some (no_elements name), m)) memo (recall i j memo)
        (no_elements name, refl)
  visit-Answers N i (p ∷ pattern) g j name memo a =
      let later = visit-Answers N (suc i) pattern g.1 in
      elim (Bool-cases (same p star_star && starts_with_stars pattern)) [
        | inl y ↦ rw y (later j name memo a)
        | inr n ↦ rw n (
            or_search-Answers i j (search_from glob (visit glob (suc i) pattern) p pattern j name)
              memo (recall i j memo)
              (search_from-Answers N p pattern (visit glob (suc i) pattern) g.0 later j name memo
                a))
      ]

  -- Where path.Match reports no error for an element of the pattern, "**" apart, on an element of the
  -- path, matchParts returns an answer, and it is true exactly if the pattern matches the path.
  pub match_parts_decides :
      (pattern path : List Bytes)
      → AreGood pattern (IsIn path)
      → (b : Bool) × (match_parts glob pattern path ≡ some b)
        × ((b ≡ true) ↔ Matches glob pattern path)
  match_parts_decides pattern path good =
      let (b, e) = visit-Answers (IsIn path) 0 pattern good 0 path [] (All-IsIn path) in
      let q : match_parts glob pattern path ≡ some b = unfold match_parts in e in
      (b, q, match_parts_iff glob pattern path b q)
