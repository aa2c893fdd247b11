-- ===== src/Prelude/Int.antt =====
-- Signed integers over the native numbers, for `int`, `long long` and what `atoi` reads.
use orca_cde.Prelude.Tests.{ltb, leb, if◌then◌else◌}
use Prim.Native.Nat.{ℕ, suc, ◌+◌, ◌-◌, ◌*◌, ◌/◌, ◌≤◌}
use mathlib.Core.Path.{◌≡◌, ap}
use native.Mathlib.Omega.{arith}
use mathlib.Core.Bool.{Bool}

-- `negsuc n` is -(n + 1).
pub data ℤ : Type 0 where
  pos : ℕ → ℤ
  negsuc : ℕ → ℤ

abbrev pub pos_part : ℤ → ℕ
pos_part (pos n) = n
pos_part (negsuc n) = 0

abbrev pub neg_part : ℤ → ℕ
neg_part (pos n) = 0
neg_part (negsuc n) = suc n

abbrev pub neg : ℕ → ℤ
neg n = if leb n 0 then pos 0 else negsuc (n - 1)

infix 50 ◌≤ℤ◌
abbrev pub ◌≤ℤ◌ : ℤ → ℤ → Type 0
a ≤ℤ b = pos_part a + neg_part b ≤ pos_part b + neg_part a

abbrev pub ltb_ℤ : ℤ → ℤ → Bool
ltb_ℤ a b = ltb (pos_part a + neg_part b) (pos_part b + neg_part a)

-- The difference of two natural numbers.
abbrev pub difference : ℕ → ℕ → ℤ
difference a b = if ltb a b then negsuc (b - a - 1) else pos (a - b)

infixl 60 ◌+ℤ◌
abbrev pub ◌+ℤ◌ : ℤ → ℤ → ℤ
a +ℤ b = difference (pos_part a + pos_part b) (neg_part a + neg_part b)

infixl 60 ◌-ℤ◌
abbrev pub ◌-ℤ◌ : ℤ → ℤ → ℤ
a -ℤ b = difference (pos_part a + neg_part b) (neg_part a + pos_part b)

infixl 70 ◌*ℤ◌
abbrev pub ◌*ℤ◌ : ℤ → ℤ → ℤ
a *ℤ b =
    difference (pos_part a * pos_part b + neg_part a * neg_part b)
      (pos_part a * neg_part b + neg_part a * pos_part b)

-- `a / n`, rounded towards zero.
abbrev pub quotient : ℤ → ℕ → ℤ
quotient a n = difference (pos_part a / n) (neg_part a / n)

-- What the operations mean for the parts.
pub difference-parts : (a b : ℕ) → pos_part (difference a b) + b ≡ neg_part (difference a b) + a
difference-parts a b = ground arith

pub equal_of_parts : (a b : ℤ) → pos_part a + neg_part b ≡ pos_part b + neg_part a → a ≡ b
equal_of_parts (pos m) (pos n) h = ap pos (omega (arith, h))
equal_of_parts (pos m) (negsuc n) h = absurd (omega (arith, h))
equal_of_parts (negsuc m) (pos n) h = absurd (omega (arith, h))
equal_of_parts (negsuc m) (negsuc n) h = ap negsuc (omega (arith, h))
