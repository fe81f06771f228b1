-- ===== src/Base/Int.antt =====
-- Signed machine integers, as far as the program looks at their sign.
use Prim.Native.Nat.{ℕ}
use mathlib.Core.Bool.{Bool, true, false}
use mathlib.Core.Path.{◌≡◌, ap}
use cypherstorm.Base.Tests.{◌==◌, ==→eq, ==_refl}

-- `negsuc n` is -(n + 1).
pub data ℤ : Type 0 where
  pos : ℕ → ℤ
  negsuc : ℕ → ℤ

abbrev pub is_negative : ℤ → Bool
is_negative (pos n) = false
is_negative (negsuc n) = true

abbrev pub same_int : ℤ → ℤ → Bool
same_int (pos m) (pos n) = m == n
same_int (negsuc m) (negsuc n) = m == n
same_int (pos m) (negsuc n) = false
same_int (negsuc m) (pos n) = false

pub same_int→eq : (a b : ℤ) → same_int a b ≡ true → a ≡ b
same_int→eq (pos m) (pos n) h = ap pos (==→eq m n h)
same_int→eq (negsuc m) (negsuc n) h = ap negsuc (==→eq m n h)
same_int→eq (pos m) (negsuc n) h = cc
same_int→eq (negsuc m) (pos n) h = cc

pub same_int_refl : (a : ℤ) → same_int a a ≡ true
same_int_refl (pos m) = ==_refl m
same_int_refl (negsuc m) = ==_refl m
