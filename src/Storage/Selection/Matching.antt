-- ===== src/Storage/Selection/Matching.antt =====
-- What a pattern matches, independently of the search.
use cypherstorm.Base.{
  Bool, ◌≡◌, ◌⊎◌, inl, inr, true, false, Option, some, List, [], ◌∷◌, Bytes, same,
}
use cypherstorm.Storage.Selection.{star_star}

module _ (glob : Bytes → Bytes → Option Bool) where
  -- "**" stands for any number of elements, and every other element for one that it globs.
  pub data Matches : List Bytes → List Bytes → Type 0 where
    done : Matches [] []
    element :
        {p n : Bytes} {pattern name : List Bytes}
        → same p star_star ≡ false
        → glob p n ≡ some true
        → Matches pattern name
        → Matches (p ∷ pattern) (n ∷ name)
    none_more :
        {p : Bytes} {pattern name : List Bytes}
        → same p star_star ≡ true
        → Matches pattern name
        → Matches (p ∷ pattern) name
    one_more :
        {p n : Bytes} {pattern name : List Bytes}
        → same p star_star ≡ true
        → Matches (p ∷ pattern) name
        → Matches (p ∷ pattern) (n ∷ name)

  pub Matches-all :
      (p : Bytes) (name : List Bytes) → same p star_star ≡ true → Matches (p ∷ []) name
  Matches-all p [] s = none_more s done
  Matches-all p (n ∷ name) s = one_more s (Matches-all p name s)

  -- Two "**" in a row match what one does.
  pub two_stars :
      {p q : Bytes} {pattern name : List Bytes}
      → same p star_star ≡ true
      → Matches (p ∷ q ∷ pattern) name
      → same q star_star ≡ true
      → Matches (q ∷ pattern) name
  two_stars s (element n g d) t = cc
  two_stars s (none_more _ d) t = d
  two_stars s (one_more _ d) t = one_more t (two_stars s d t)

  pub star_or :
      {p n : Bytes} {pattern name : List Bytes}
      → same p star_star ≡ true
      → Matches (p ∷ pattern) (n ∷ name)
      → Matches pattern (n ∷ name) ⊎ Matches (p ∷ pattern) name
  star_or s (element n g d) = cc
  star_or s (none_more _ d) = inl d
  star_or s (one_more _ d) = inr d

  pub star_end :
      {p : Bytes} {pattern : List Bytes}
      → same p star_star ≡ true
      → Matches (p ∷ pattern) []
      → Matches pattern []
  star_end s (none_more _ d) = d

  pub element_or :
      {p n : Bytes} {pattern name : List Bytes}
      → same p star_star ≡ false
      → Matches (p ∷ pattern) (n ∷ name)
      → (glob p n ≡ some true) × Matches pattern name
  element_or s (element _ g d) = (g, d)
  element_or s (none_more t d) = cc
  element_or s (one_more t d) = cc

  pub element_end :
      {p : Bytes} {pattern : List Bytes} → same p star_star ≡ false → Matches (p ∷ pattern) [] → ⊥
  element_end s (none_more t d) = cc
