-- ===== src/Prelude/Int.antt =====
-- Signed numbers, over the native natural ones.
use Prim.Native.Nat.{ℕ, suc, ◌+◌, ◌-◌}
use mathlib.Core.Path.{◌≡◌}
use native.Mathlib.Omega.{arith}
use softbox_ai.Prelude.Tests.{leb, if◌then◌else◌}

-- `negsuc n` is -(n + 1).
pub data ℤ : Type 0 where
  pos : ℕ → ℤ
  negsuc : ℕ → ℤ

abbrev pub pos_part : ℤ → ℕ
pos_part (pos n) = n
pos_part (negsuc n) = 0

abbrev pub neg_part : ℤ → ℕ
neg_part (pos n) = 0
neg_part (negsuc n) = suc n

-- a - b, as a signed number.
abbrev pub sub_ℕ : ℕ → ℕ → ℤ
sub_ℕ a b = if leb b a then pos (a - b) else negsuc (b - a - 1)

infixl 65 ◌+ℤ◌ ◌-ℤ◌
unfoldable pub ◌+ℤ◌ : ℤ → ℤ → ℤ
a +ℤ b = sub_ℕ (pos_part a + pos_part b) (neg_part a + neg_part b)

unfoldable pub ◌-ℤ◌ : ℤ → ℤ → ℤ
a -ℤ b = sub_ℕ (pos_part a + neg_part b) (neg_part a + pos_part b)

-- A shift by the difference of two numbers leads from the one to the other.
pub to_lem : (a b : ℤ) → a +ℤ (b -ℤ a) ≡ b
unfolding ◌+ℤ◌ ◌-ℤ◌
to_lem (pos a) (pos b) = ground arith
to_lem (pos a) (negsuc b) = ground arith
to_lem (negsuc a) (pos b) = ground arith
to_lem (negsuc a) (negsuc b) = ground arith

-- A step and a shift commute.
pub +ℤ_swap : (a d : ℤ) → (a +ℤ pos 1) +ℤ d ≡ (a +ℤ d) +ℤ pos 1
unfolding ◌+ℤ◌
+ℤ_swap (pos a) (pos d) = ground arith
+ℤ_swap (pos a) (negsuc d) = ground arith
+ℤ_swap (negsuc a) (pos d) = ground arith
+ℤ_swap (negsuc a) (negsuc d) = ground arith
