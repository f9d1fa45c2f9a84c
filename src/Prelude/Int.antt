-- ===== src/Prelude/Int.antt =====
-- Signed integers, `int` and `long`, over the native numbers.
use Prim.Native.Nat.{ℕ, suc, ◌+◌, ◌-◌, ◌*◌, ◌/◌, ◌%◌, ◌^◌, ◌≤◌}
use mathlib.Core.Bool.{Bool}
use ohmylib.Prelude.Tests.{ltb, leb, if◌then◌else◌}

-- `negsuc n` is -(n + 1).
pub data ℤ : Type 0 where
  pos : ℕ → ℤ
  negsuc : ℕ → ℤ

abbrev pub pos_part : ℤ → ℕ
pos_part (pos n) = n
pos_part (negsuc n) = 0

abbrev pub neg_part : ℤ → ℕ
neg_part (pos n) = 0
neg_part (negsuc n) = suc n

-- a - b, as an integer.
abbrev pub sub_ℕ : ℕ → ℕ → ℤ
sub_ℕ a b = if leb b a then pos (a - b) else negsuc (b - a - 1)

infixl 65 ◌+ℤ◌ ◌-ℤ◌
infix 50 ◌<ℤ◌
abbrev pub ◌+ℤ◌ : ℤ → ℤ → ℤ
a +ℤ b = sub_ℕ (pos_part a + pos_part b) (neg_part a + neg_part b)

abbrev pub ◌-ℤ◌ : ℤ → ℤ → ℤ
a -ℤ b = sub_ℕ (pos_part a + neg_part b) (neg_part a + pos_part b)

abbrev pub ◌<ℤ◌ : ℤ → ℤ → Type 0
a <ℤ b = suc (pos_part a + neg_part b) ≤ pos_part b + neg_part a

abbrev pub ltb_ℤ : ℤ → ℤ → Bool
ltb_ℤ a b = ltb (pos_part a + neg_part b) (pos_part b + neg_part a)

-- A product with a positive constant, and the quotient and remainder of C, which round to zero.
abbrev pub scale_ℤ : ℕ → ℤ → ℤ
scale_ℤ k a = sub_ℕ (k * pos_part a) (k * neg_part a)

abbrev pub quot_ℤ : ℤ → ℕ → ℤ
quot_ℤ a k = sub_ℕ (pos_part a / k) (neg_part a / k)

abbrev pub rem_ℤ : ℤ → ℕ → ℤ
rem_ℤ a k = sub_ℕ (pos_part a % k) (neg_part a % k)

-- The `int` that a 64-bit word is converted to: its low 32 bits in two's complement.
abbrev pub int_of_word : ℕ → ℤ
int_of_word w = let b = w % 2 ^ 32 in if ltb b (2 ^ 31) then pos b else negsuc (2 ^ 32 - b - 1)
