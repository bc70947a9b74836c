-- ===== src/Prelude/Int.antt =====
-- Signed integers over the native numbers, for the counters that the program may take below zero.
use Prim.Native.Nat.{ℕ, suc, ◌+◌, ◌-◌}
use mathlib.Core.Path.{◌≡◌}
use mathlib.Core.Bool.{Bool}
use native.Mathlib.Omega.{arith}
use gocacheprog.Prelude.Tests.{ltb, leb, if◌then◌else◌}

-- `negsuc n` is -(n + 1).
pub data ℤ : Type 0 where
  pos : ℕ → ℤ
  negsuc : ℕ → ℤ

abbrev pub pos_part : ℤ → ℕ
pos_part (pos n) = n
pos_part (negsuc n) = 0

abbrev pub neg_part : ℤ → ℕ
neg_part (pos n) = 0
neg_part (negsuc n) = suc n

-- a - b, as an integer.
abbrev pub sub_ℕ : ℕ → ℕ → ℤ
sub_ℕ a b = if leb b a then pos (a - b) else negsuc (b - a - 1)

infixl 65 ◌+ℤ◌ ◌-ℤ◌
unfoldable pub ◌+ℤ◌ : ℤ → ℤ → ℤ
a +ℤ b = sub_ℕ (pos_part a + pos_part b) (neg_part a + neg_part b)

unfoldable pub ◌-ℤ◌ : ℤ → ℤ → ℤ
a -ℤ b = sub_ℕ (pos_part a + neg_part b) (neg_part a + pos_part b)

abbrev pub ltb_ℤ : ℤ → ℤ → Bool
ltb_ℤ a b = ltb (pos_part a + neg_part b) (pos_part b + neg_part a)

pub pos-+ℤ : (a b : ℕ) → pos a +ℤ pos b ≡ pos (a + b)
unfolding ◌+ℤ◌
pos-+ℤ a b = ground arith

pub pos--ℤ : (a b c : ℕ) → c + b ≡ a → pos a -ℤ pos b ≡ pos c
unfolding ◌-ℤ◌
pos--ℤ a b c h = ground arith

pub pos--ℤ-+ℤ : (a b c d : ℕ) → d + b ≡ a + c → pos a -ℤ pos b +ℤ pos c ≡ pos d
unfolding ◌-ℤ◌ ◌+ℤ◌
pos--ℤ-+ℤ a b c d h = ground arith

pub pos-+ℤ--ℤ : (a b c d : ℕ) → d + b ≡ a + c → pos a +ℤ (pos c -ℤ pos b) ≡ pos d
unfolding ◌-ℤ◌ ◌+ℤ◌
pos-+ℤ--ℤ a b c d h = ground arith
