-- ===== src/Storage/Selection.antt =====
-- internal/storage/selection/selection.go: matching a path against a pattern with "**". `glob` is
-- path.Match on one element, `none` its bad-pattern error.
pub mod Matching
pub mod Visits
pub mod Total
use cypherstorm.Base.{
  ℕ, zero, suc, ◌+◌, Bool, true, false, Option, none, some, List, [], ◌∷◌, Bytes, ◌==◌, ◌&&◌, ◌||◌,
  same, if◌then◌else◌,
}
use cypherstorm.Fault.{Result, ok, err, pattern_refused, path_refused, bad_pattern}
use cypherstorm.Storage.Names.{split, is_abs, contains}
use cypherstorm.Storage.Paths.{dot, dot_dot, clean, has_prefix}

abbrev pub star_star : Bytes
star_star = 42 ∷ 42 ∷ []

-- `memo` and `seen` in one: a state of the search, and whether it matches.
abbrev pub Memo : Type 0
Memo = List ((ℕ × ℕ) × Bool)

unfoldable pub recall : ℕ → ℕ → Memo → Option Bool
recall i j [] = none
recall i j (((k, l), b) ∷ memo) = if k == i && l == j then some b else recall i j memo

-- A call of `visit` on what is left of the name, from its index on.
abbrev pub Visit : Type 0
Visit = ℕ → List Bytes → Memo → Option Bool × Memo

abbrev starts_with_stars : List Bytes → Bool
starts_with_stars [] = false
starts_with_stars (p ∷ pattern) = same p star_star

is_last : List Bytes → Bool
is_last [] = true
is_last (p ∷ pattern) = false

-- The last two lines of `visit`; an error is not stored.
unfoldable pub stored : ℕ → ℕ → Option Bool × Memo → Option Bool × Memo
stored i j (none, memo) = (none, memo)
stored i j (some b, memo) = (some b, ((i, j), b) ∷ memo)

-- One round of the loop over the rests of the name behind "**": an error and a match end it.
or_next : (Memo → Option Bool × Memo) → Option Bool × Memo → Option Bool × Memo
or_next next (none, memo) = (none, memo)
or_next next (some true, memo) = (some true, memo)
or_next next (some false, memo) = next memo

unfoldable pub try_rests : Visit → ℕ → List Bytes → Memo → Option Bool × Memo
unfolding or_next
try_rests visit j [] memo = visit j [] memo
try_rests visit j (n ∷ name) memo =
    let shorter = try_rests visit (suc j) name in or_next shorter (visit j (n ∷ name) memo)

-- one element of the pattern against one of the name
after_glob : Visit → ℕ → List Bytes → Memo → Option Bool → Option Bool × Memo
after_glob visit j name memo none = (none, memo)
after_glob visit j name memo (some true) = visit (suc j) name memo
after_glob visit j name memo (some false) = (some false, memo)

no_elements : List Bytes → Bool
no_elements [] = true
no_elements (n ∷ name) = false

module _ (glob : Bytes → Bytes → Option Bool) where
  one_element : Visit → Bytes → ℕ → List Bytes → Memo → Option Bool × Memo
  unfolding after_glob
  one_element visit p j [] memo = (some false, memo)
  one_element visit p j (n ∷ name) memo = after_glob visit j name memo (glob p n)

  -- The switch of `visit`, where the pattern goes on.
  search_from : Visit → Bytes → List Bytes → ℕ → List Bytes → Memo → Option Bool × Memo
  unfolding is_last try_rests one_element
  search_from visit p pattern j name memo =
      if same p star_star
      then if is_last pattern then (some true, memo) else try_rests visit j name memo
      else one_element visit p j name memo

  or_search : ℕ → ℕ → (Memo → Option Bool × Memo) → Memo → Option Bool → Option Bool × Memo
  unfolding stored
  or_search i j body memo (some b) = (some b, memo)
  or_search i j body memo none = stored i j (body memo)

  -- `visit`, on the pattern from index `i` and the name from index `j`.
  unfoldable pub visit : ℕ → List Bytes → Visit
  unfolding no_elements search_from or_search
  visit i [] j name memo = or_search i j (λ m. (some (no_elements name), m)) memo (recall i j memo)
  visit i (p ∷ pattern) j name memo =
      let further = visit (suc i) pattern in
      if same p star_star && starts_with_stars pattern
      then further j name memo
      else or_search i j (search_from further p pattern j name) memo (recall i j memo)

  -- `matchParts`
  unfoldable pub match_parts : List Bytes → List Bytes → Option Bool
  match_parts pattern name = (visit 0 pattern 0 name []).0

  matched : Option Bool → Result Bool
  matched none = err bad_pattern
  matched (some b) = ok b

  has_traversal : List Bytes → Bool
  has_traversal [] = false
  has_traversal (p ∷ parts) = same p dot_dot || has_traversal parts

  -- `Match`. No cleaned path starts with "./", so the prefix that is trimmed is never there.
  unfoldable pub match : Bytes → Bytes → Result Bool
  unfolding matched has_traversal
  match [] name = err pattern_refused
  match (c ∷ cs) name =
      let pattern = c ∷ cs in
      if is_abs pattern || contains 92 pattern || has_traversal (split pattern)
      then err pattern_refused
      else let cleaned = clean name in
        if same cleaned dot || has_prefix cleaned (46 ∷ 46 ∷ 47 ∷ []) || is_abs cleaned
        then err path_refused
        else matched (match_parts (split pattern) (split cleaned))
