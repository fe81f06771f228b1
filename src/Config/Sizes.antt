-- ===== src/Config/Sizes.antt =====
-- The size that `parseByteSize` returns is the product that the text denotes.
use native.Mathlib.Nat.{mul-one, add-mul, mul_assoc, add_assoc, pow-succ'}
use cypherstorm.Base.{
  ℕ, zero, suc, ◌+◌, ◌-◌, ◌*◌, ◌^◌, ◌<◌, ◌≤◌, ◌≡◌, inl, inr, refl, sym, ap, subst, ◌∙◌, true,
  Option, none, some, List, [], ◌∷◌, ◌++◌, Bytes, codes, length, take, drop, take-drop, same→eq,
  ◌==◌, leb, ◌&&◌, &&-both, Bool-cases, All, arith,
}
use cypherstorm.Config.{
  ByteUnit, units, trim_space, to_upper, has_suffix, without_unit, digits, bounded, parse_uint32,
  size_of, parse_byte_size,
}

-- The factors of the units.
data IsFactor : ℕ → Type 0 where
  bytes : IsFactor 1
  kib : IsFactor 1024
  mib : IsFactor 1048576
  gib : IsFactor 1073741824

size_of-exact :
    (m n size : ℕ)
    → IsFactor m
    → size_of m (some n) ≡ some size
    → (size ≡ n * m) × (0 < size) × (size < 2 ^ 32)
unfolding size_of
size_of-exact m n size bytes e = ground arith
size_of-exact m n size kib e = ground arith
size_of-exact m n size mib e = ground arith
size_of-exact m n size gib e = ground arith

-- A suffix and its factor; a text without one is a number of bytes.
pub data IsUnit : Bytes → ℕ → Type 0 where
  unit_b : IsUnit (codes "B") 1
  unit_kib : IsUnit (codes "KIB") 1024
  unit_mib : IsUnit (codes "MIB") 1048576
  unit_gib : IsUnit (codes "GIB") 1073741824

-- A trimmed text is a number, or a number and a unit in any case, with spaces between them.
pub data IsSplit (text number : Bytes) : ℕ → Type 0 where
  plain : number ≡ text → IsSplit text number 1
  with_unit :
      {factor : ℕ} (front unit : Bytes)
      → text ≡ front ++ unit
      → IsUnit (to_upper unit) factor
      → number ≡ trim_space front
      → IsSplit text number factor

IsSplit-IsFactor : (text number : Bytes) (m : ℕ) → IsSplit text number m → IsFactor m
IsSplit-IsFactor text number m (plain e) = bytes
IsSplit-IsFactor text number m (with_unit front unit e u q) = factor_of u
  where
    factor_of : {s : Bytes} {k : ℕ} → IsUnit s k → IsFactor k
    factor_of unit_b = bytes
    factor_of unit_kib = kib
    factor_of unit_mib = mib
    factor_of unit_gib = gib

length-to_upper : (text : Bytes) → length (to_upper text) ≡ length text
unfolding to_upper
length-to_upper [] = refl
length-to_upper (c ∷ cs) = ap suc (length-to_upper cs)

to_upper-drop : (n : ℕ) (text : Bytes) → to_upper (drop n text) ≡ drop n (to_upper text)
unfolding to_upper
to_upper-drop zero text = refl
to_upper-drop (suc n) [] = refl
to_upper-drop (suc n) (c ∷ cs) = to_upper-drop n cs

-- What a suffix in upper case says of the end of the text.
has_suffix-unit :
    (value suffix : Bytes)
    → has_suffix (to_upper value) suffix ≡ true
    → to_upper (drop (length value - length suffix) value) ≡ suffix
unfolding has_suffix
has_suffix-unit value suffix h =
    let both = &&-both _ _ h in
    to_upper-drop (length value - length suffix) value
    ∙ ap (λ n. drop (n - length suffix) (to_upper value)) (sym (length-to_upper value))
    ∙ same→eq (drop (length (to_upper value) - length suffix) (to_upper value)) suffix both.1

without_unit-IsSplit :
    (value : Bytes) (us : List ByteUnit)
    → All (λ u. IsUnit u.suffix u.factor) us
    → IsSplit value (without_unit value us).0 (without_unit value us).1
unfolding without_unit
without_unit-IsSplit value [] h = plain refl
without_unit-IsSplit value (u ∷ us) h = elim (Bool-cases (has_suffix (to_upper value) u.suffix)) [
  | inl y ↦
      let k = length value - length u.suffix in
      rw y (
        with_unit (take k value) (drop k value) (sym (take-drop k value))
          (subst (λ s. IsUnit s u.factor) (sym (has_suffix-unit value u.suffix y)) h.0) refl)
  | inr n ↦ rw n (without_unit-IsSplit value us h.1)
]

-- What a decimal number stands for, by the place of each digit.
abbrev pub IsDigit : ℕ → Type 0
IsDigit c = (48 ≤ c) × (c ≤ 57)

abbrev pub place_value : Bytes → ℕ
place_value [] = 0
place_value (c ∷ cs) = (c - 48) * 10 ^ length cs + place_value cs

digits-place_value :
    (n m : ℕ) (cs : Bytes)
    → digits n cs ≡ some m
    → All IsDigit cs × (m ≡ n * 10 ^ length cs + place_value cs)
unfolding digits
digits-place_value n m [] e = let q : n ≡ m = cc e in (tt, sym q ∙ sym (mul-one n) ∙ omega arith)
digits-place_value n m (c ∷ cs) e = elim (Bool-cases (leb 48 c && leb c 57)) [
  | inr x ↦ let z = rw x at e in cc
  | inl y ↦
      let (rest, is) = digits-place_value (n * 10 + (c - 48)) m cs (rw y at e) in
      let (low, high) = &&-both (leb 48 c) (leb c 57) y in
      let power = 10 ^ length cs in
      (
        ((ground arith, ground arith), rest),
        is
            ∙ ap (λ t. t + place_value cs)
                (add-mul (n * 10) (c - 48) power
                  ∙ ap (λ t. t + (c - 48) * power)
                      (mul_assoc n 10 power ∙ ap (λ t. n * t) (sym (pow-succ' 10 (length cs)))))
            ∙ add_assoc (n * 10 ^ suc (length cs)) ((c - 48) * power) (place_value cs),
      )
]

bounded-some : (o : Option ℕ) (n : ℕ) → bounded o ≡ some n → o ≡ some n
unfolding bounded
bounded-some none n e = cc
bounded-some (some m) n e = ground arith

parse_uint32-place_value :
    (cs : Bytes) (n : ℕ)
    → parse_uint32 cs ≡ some n
    → (0 < length cs) × All IsDigit cs × (n ≡ place_value cs)
unfolding parse_uint32
parse_uint32-place_value [] n e = cc
parse_uint32-place_value (c ∷ cs) n e =
    let (a, q) = digits-place_value 0 n (c ∷ cs) (bounded-some (digits 0 (c ∷ cs)) n e) in
    (omega arith, a, q ∙ omega arith)

size_of-some :
    (m : ℕ) (o : Option ℕ) (size : ℕ)
    → IsFactor m
    → size_of m o ≡ some size
    → (n : ℕ) × (o ≡ some n) × (size ≡ n * m) × (0 < size) × (size < 2 ^ 32)
unfolding size_of
size_of-some m none size f e = cc
size_of-some m (some n) size f e =
    let (product, positive, small) = size_of-exact m n size f e in
    (n, refl, product, positive, small)

-- What an accepted text is made of.
pub record IsSize (text : Bytes) (size : ℕ) : Type 0 where
  pub number : Bytes
  pub factor : ℕ
  pub split_is : IsSplit (trim_space text) number factor
  pub some_digits : 0 < length number
  pub digits_only : All IsDigit number
  pub product : size ≡ place_value number * factor
  pub bounds : (0 < size) × (size < 2 ^ 32)

-- A text that parseByteSize accepts is, between spaces, a nonempty decimal number, and behind it
-- perhaps one of the units B, KiB, MiB and GiB in any case. The size is the number times the
-- factor of the unit, without a wrap-around, and lies between 1 and 2^32 - 1.
pub parse_byte_size-IsSize :
    (text : Bytes) (size : ℕ) → parse_byte_size text ≡ some size → IsSize text size
unfolding parse_byte_size
parse_byte_size-IsSize text size e = elim (Bool-cases (length (trim_space text) == 0)) [
  | inl empty ↦ let z = rw empty at e in cc
  | inr full ↦
      let value = trim_space text in
      let parts = without_unit value units in
      let splits =
        without_unit-IsSplit value units (unit_gib, (unit_mib, (unit_kib, (unit_b, tt)))) in
      let (n, parsed, product, positive, small) =
        size_of-some parts.1 (parse_uint32 parts.0) size
          (IsSplit-IsFactor value parts.0 parts.1 splits) (rw full at e) in
      let (some_digits, only, is) = parse_uint32-place_value parts.0 n parsed in
      record {
        number = parts.0;
        factor = parts.1;
        split_is = splits;
        some_digits = some_digits;
        digits_only = only;
        product = product ∙ ap (λ t. t * parts.1) is;
        bounds = (positive, small);
      }
]
