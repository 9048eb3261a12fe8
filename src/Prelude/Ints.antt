-- ===== src/Prelude/Ints.antt =====
-- Integers, over the native numbers.
use Prim.Native.Nat.{ℕ, zero, suc, ◌+◌, ◌-◌, ◌%◌, ◌^◌, ◌<◌}
use mathlib.Core.Bool.{Bool, true, false}
use mathlib.Core.Path.{◌≡◌}
use mathlib.Core.Logic.{inl, inr}
use native.Mathlib.Omega.{arith}
use booty_call.Prelude.Tests.{Bool-cases, ltb, leb, ◌==◌, if◌then◌else◌}

-- `pos n` is n, `negsuc n` is -(n + 1).
pub data ℤ : Type 0 where
  pos : ℕ → ℤ
  negsuc : ℕ → ℤ

-- The difference of two natural numbers.
infixl 60 ◌⊖◌
abbrev pub ◌⊖◌ : ℕ → ℕ → ℤ
m ⊖ n = if leb n m then pos (m - n) else negsuc (n - m - 1)

infixl 60 ◌+ℤ◌
abbrev pub ◌+ℤ◌ : ℤ → ℤ → ℤ
pos m +ℤ pos n = pos (m + n)
pos m +ℤ negsuc n = m ⊖ (n + 1)
negsuc m +ℤ pos n = n ⊖ (m + 1)
negsuc m +ℤ negsuc n = negsuc (m + n + 1)

abbrev pub neg : ℤ → ℤ
neg (pos zero) = pos zero
neg (pos (suc n)) = negsuc n
neg (negsuc n) = pos (n + 1)

-- `isize::abs`
abbrev pub abs : ℤ → ℤ
abs (pos n) = pos n
abs (negsuc n) = pos (n + 1)

abbrev pub lez : ℤ → ℤ → Bool
lez (pos m) (pos n) = leb m n
lez (pos m) (negsuc n) = false
lez (negsuc m) (pos n) = true
lez (negsuc m) (negsuc n) = leb n m

abbrev pub eqz : ℤ → ℤ → Bool
eqz (pos m) (pos n) = m == n
eqz (pos m) (negsuc n) = false
eqz (negsuc m) (pos n) = false
eqz (negsuc m) (negsuc n) = m == n

-- What an `isize` of 64 bits holds of an integer, as release builds compute it.
unfoldable pub wrap : ℤ → ℤ
wrap (pos n) = let r = n % 2 ^ 64 in if ltb r (2 ^ 63) then pos r else negsuc (2 ^ 64 - 1 - r)
wrap (negsuc n) = let r = n % 2 ^ 64 in if ltb r (2 ^ 63) then negsuc r else pos (2 ^ 64 - 1 - r)

pub wrap-pos : (n : ℕ) → n < 2 ^ 63 → wrap (pos n) ≡ pos n
unfolding wrap
wrap-pos n h = ground arith

pub wrap-negsuc : (n : ℕ) → n < 2 ^ 63 → wrap (negsuc n) ≡ negsuc n
unfolding wrap
wrap-negsuc n h = ground arith

-- A difference that is not too large in either direction.
pub wrap-difference : (a b : ℕ) → a < b + 2 ^ 63 → b < a + 2 ^ 63 → wrap (a ⊖ b) ≡ a ⊖ b
wrap-difference a b h k = elim (Bool-cases (leb b a)) [
  | inl e ↦ rw e (wrap-pos (a - b) (omega arith))
  | inr e ↦ rw e (wrap-negsuc (b - a - 1) (omega arith))
]
