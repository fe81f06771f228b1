-- ===== src/Storage/Paths.antt =====
-- Package `path` on slash-separated texts, as internal/storage/archive/scan.go uses it: Clean, Dir
-- and Join of two elements. `Clean` keeps the elements of the result on a stack, the last one on
-- top, which is the written part of the source's buffer.
pub mod Normal
pub mod Shrink
use cypherstorm.Base.{
  ℕ, Bool, true, false, List, [], ◌∷◌, ◌++◌, Bytes, ◌==◌, ◌||◌, ◌&&◌, same, if◌then◌else◌, reverse,
}
use cypherstorm.Storage.Names.{split, join, is_abs}

abbrev pub dot : Bytes
dot = 46 ∷ []

abbrev pub dot_dot : Bytes
dot_dot = 46 ∷ 46 ∷ []

-- An element "..": the last element goes, if there is one that is not ".." itself.
unfoldable pub climb : Bool → List Bytes → List Bytes
climb true [] = []
climb false [] = dot_dot ∷ []
climb rooted (t ∷ stack) = if same t dot_dot then dot_dot ∷ t ∷ stack else stack

unfoldable pub add_element : Bool → List Bytes → Bytes → List Bytes
add_element rooted stack p =
    if same p [] || same p dot
    then stack
    else if same p dot_dot
    then climb rooted stack
    else p ∷ stack

unfoldable pub reduce : Bool → List Bytes → List Bytes → List Bytes
reduce rooted stack [] = stack
reduce rooted stack (p ∷ pieces) = reduce rooted (add_element rooted stack p) pieces

unfoldable pub rendered : Bool → List Bytes → Bytes
rendered true elements = 47 ∷ join elements
rendered false [] = dot
rendered false (e ∷ elements) = join (e ∷ elements)

-- `path.Clean`
unfoldable pub clean : Bytes → Bytes
unfolding rendered
clean p = rendered (is_abs p) (reverse (reduce (is_abs p) [] (split p)))

unfoldable pub keep_byte : ℕ → Bytes → Bytes
keep_byte c [] = if c == 47 then c ∷ [] else []
keep_byte c (d ∷ ds) = c ∷ d ∷ ds

-- The text up to the last slash, and with it.
unfoldable pub up_to_slash : Bytes → Bytes
unfolding keep_byte
up_to_slash [] = []
up_to_slash (c ∷ cs) = keep_byte c (up_to_slash cs)

-- `path.Dir`
unfoldable pub dir : Bytes → Bytes
dir p = clean (up_to_slash p)

-- `path.Join(a, b)`
unfoldable pub path_join : Bytes → Bytes → Bytes
path_join [] [] = []
path_join [] (c ∷ cs) = clean (c ∷ cs)
path_join (c ∷ cs) b = clean (c ∷ (cs ++ 47 ∷ b))

-- `strings.HasPrefix`
unfoldable pub has_prefix : Bytes → Bytes → Bool
has_prefix text [] = true
has_prefix [] (p ∷ ps) = false
has_prefix (c ∷ cs) (p ∷ ps) = c == p && has_prefix cs ps
