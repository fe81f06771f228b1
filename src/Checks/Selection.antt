-- ===== src/Checks/Selection.antt =====
-- Patterns at concrete inputs, with a small path.Match: "*" and equality, and an error on "[".
use cypherstorm.Base.{
  ◌≡◌, ◌↔◌, refl, Bool, true, false, Option, none, some, ◌||◌, if◌then◌else◌, List, [], ◌∷◌, Bytes,
  codes, same,
}
use cypherstorm.Storage.Selection.{recall, stored, try_rests, visit, match_parts}
use cypherstorm.Storage.Selection.Matching.{Matches}
use cypherstorm.Storage.Selection.Total.{AreGood, IsIn, match_parts_decides}

abbrev glob : Bytes → Bytes → Option Bool
glob p n = if same p (codes "[") then none else some (same p (codes "*") || same p n)

abbrev pattern : List Bytes
pattern = codes "a" ∷ codes "**" ∷ codes "**" ∷ codes "*" ∷ []

abbrev path : List Bytes
path = codes "a" ∷ codes "b" ∷ codes "c" ∷ []

found : match_parts glob pattern path ≡ some true
unfolding match_parts visit recall stored try_rests same
found = refl

not_found : match_parts glob pattern (codes "b" ∷ codes "a" ∷ []) ≡ some false
unfolding match_parts visit recall stored try_rests same
not_found = refl

refused : match_parts glob (codes "[" ∷ []) path ≡ none
unfolding match_parts visit recall stored try_rests same
refused = refl

good : AreGood glob pattern (IsIn path)
unfolding same
good = (
  λ _ n i. (same (codes "a") n, refl),
  (λ e n i. cc e, (λ e n i. cc e, (λ _ n i. (true, refl), tt))),
)

match_parts_decides_example :
    (b : Bool) × (match_parts glob pattern path ≡ some b) × ((b ≡ true) ↔ Matches glob pattern path)
match_parts_decides_example = match_parts_decides glob pattern path good
