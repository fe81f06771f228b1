-- ===== src/Config.antt =====
-- internal/config/config.go: byte sizes, the profiles and how a policy is resolved. Upper case is that of
-- ASCII.
pub mod Sizes
pub mod Policy
use cypherstorm.Base.{
  ℕ, zero, suc, ◌+◌, ◌-◌, ◌*◌, ◌/◌, ◌%◌, ◌^◌, Bool, true, false, Option, none, some, List, [], ◌∷◌,
  ◌++◌, map, Bytes, String, codes, length, take, drop, ltb, leb, ◌==◌, not, ◌&&◌, ◌||◌, same,
  if◌then◌else◌,
}

is_space : ℕ → Bool
is_space c = c == 32 || leb 9 c && leb c 13

-- The spaces of Unicode whose UTF-8 encoding has two or three bytes.
is_space_of_two : ℕ → ℕ → Bool
is_space_of_two c d = c == 194 && (d == 133 || d == 160)

is_space_of_three : ℕ → ℕ → ℕ → Bool
is_space_of_three c d e =
    c == 225 && d == 154 && e == 128
    || c == 226 && d == 128 && (leb 128 e && leb e 138 || e == 168 || e == 169 || e == 175)
    || c == 226 && d == 129 && e == 159
    || c == 227 && d == 128 && e == 128

-- The bytes of the space that a text starts with, or that a reversed text ends with; 0 if none.
first_space : Bytes → ℕ
first_space [] = 0
first_space (c ∷ []) = if is_space c then 1 else 0
first_space (c ∷ d ∷ []) = if is_space c then 1 else if is_space_of_two c d then 2 else 0
first_space (c ∷ d ∷ e ∷ rest) =
    if is_space c
    then 1
    else if is_space_of_two c d
    then 2
    else if is_space_of_three c d e
    then 3
    else 0

last_space : Bytes → ℕ
last_space [] = 0
last_space (e ∷ []) = if is_space e then 1 else 0
last_space (e ∷ d ∷ []) = if is_space e then 1 else if is_space_of_two d e then 2 else 0
last_space (e ∷ d ∷ c ∷ rest) =
    if is_space e
    then 1
    else if is_space_of_two d e
    then 2
    else if is_space_of_three c d e
    then 3
    else 0

-- The number says how many bytes of a space are left.
drop_spaces : (Bytes → ℕ) → ℕ → Bytes → Bytes
drop_spaces space k [] = []
drop_spaces space (suc k) (c ∷ cs) = drop_spaces space k cs
drop_spaces space zero (c ∷ cs) =
    let n = space (c ∷ cs) in
    let rest = drop_spaces space (n - 1) cs in if n == 0 then c ∷ cs else rest

backwards : Bytes → Bytes
backwards [] = []
backwards (c ∷ cs) = backwards cs ++ (c ∷ [])

-- `strings.TrimSpace`
unfoldable pub trim_space : Bytes → Bytes
unfolding is_space is_space_of_two is_space_of_three first_space last_space drop_spaces backwards
trim_space text = backwards (drop_spaces last_space 0 (backwards (drop_spaces first_space 0 text)))

-- `strings.ToUpper`
unfoldable pub to_upper : Bytes → Bytes
to_upper = map (λ c. if leb 97 c && leb c 122 then c - 32 else c)

has_suffix : Bytes → Bytes → Bool
has_suffix text suffix =
    leb (length suffix) (length text) && same (drop (length text - length suffix) text) suffix

-- The units, in the order in which they are tried.
pub record ByteUnit : Type 0 where
  pub suffix : Bytes
  pub factor : ℕ

abbrev pub units : List ByteUnit
units =
    record { suffix = codes "GIB"; factor = 2 ^ 30 }
    ∷ record { suffix = codes "MIB"; factor = 2 ^ 20 }
    ∷ record { suffix = codes "KIB"; factor = 2 ^ 10 }
    ∷ record { suffix = codes "B"; factor = 1 }
    ∷ []

-- The loop over the units: the text that is left of the number, and the factor.
unfoldable pub without_unit : Bytes → List ByteUnit → Bytes × ℕ
unfolding has_suffix
without_unit value [] = (value, 1)
without_unit value (u ∷ us) =
    let rest = without_unit value us in
    if has_suffix (to_upper value) u.suffix
    then (trim_space (take (length value - length u.suffix) value), u.factor)
    else rest

digits : ℕ → Bytes → Option ℕ
digits n [] = some n
digits n (c ∷ cs) =
    let rest = digits (n * 10 + (c - 48)) cs in if leb 48 c && leb c 57 then rest else none

bounded : Option ℕ → Option ℕ
bounded none = none
bounded (some n) = if ltb n (2 ^ 32) then some n else none

-- `strconv.ParseUint(value, 10, 32)`
unfoldable pub parse_uint32 : Bytes → Option ℕ
unfolding digits bounded
parse_uint32 [] = none
parse_uint32 (c ∷ cs) = bounded (digits 0 (c ∷ cs))

-- The checks and the product at the end of `parseByteSize`, in uint64.
pub size_of : ℕ → Option ℕ → Option ℕ
size_of multiplier none = none
size_of multiplier (some number) =
    if number == 0 || ltb ((2 ^ 32 - 1) / multiplier) number
    then none
    else let size = number * multiplier % 2 ^ 64 in
      if ltb (2 ^ 32 - 1) size then none else some (size % 2 ^ 32)

unfoldable pub parse_byte_size : Bytes → Option ℕ
unfolding size_of
parse_byte_size text =
    let value = trim_space text in
    if length value == 0
    then none
    else let (number, multiplier) = without_unit value units in
      size_of multiplier (parse_uint32 number)
