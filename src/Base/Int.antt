-- ===== src/Base/Int.antt =====
-- Signed integers over the native numbers, for `i128`.
use Prim.Native.Nat.{ℕ, suc, ◌+◌, ◌-◌, ◌%◌, ◌^◌, ◌<◌}
use mathlib.Core.Path.{◌≡◌}
use native.Mathlib.Omega.{arith}
use scaphandre.Base.Tests.{leb, ltb, if◌then◌else◌}

-- `negsuc n` is -(n + 1).
pub data ℤ : Type 0 where
  pos : ℕ → ℤ
  negsuc : ℕ → ℤ

abbrev pub pos_part : ℤ → ℕ
pos_part (pos n) = n
pos_part (negsuc n) = 0

abbrev pub neg_part : ℤ → ℕ
neg_part (pos n) = 0
neg_part (negsuc n) = suc n

-- a - b, as an integer.
abbrev pub sub_ℕ : ℕ → ℕ → ℤ
sub_ℕ a b = if leb b a then pos (a - b) else negsuc (b - a - 1)

infixl 65 ◌+ℤ◌
unfoldable pub ◌+ℤ◌ : ℤ → ℤ → ℤ
a +ℤ b = sub_ℕ (pos_part a + pos_part b) (neg_part a + neg_part b)

pub +ℤ_parts :
    (a b : ℤ)
    → pos_part (a +ℤ b) + neg_part a + neg_part b ≡ neg_part (a +ℤ b) + pos_part a + pos_part b
unfolding ◌+ℤ◌
+ℤ_parts a b = ground arith

pub +ℤ_pos : (a b : ℕ) → pos a +ℤ pos b ≡ pos (a + b)
unfolding ◌+ℤ◌
+ℤ_pos a b = ground arith

-- The value that a signed integer of 128 bits keeps of an integer
abbrev pub residue_i128 : ℤ → ℕ
residue_i128 (pos n) = n % 2 ^ 128
residue_i128 (negsuc n) = 2 ^ 128 - 1 - n % 2 ^ 128

abbrev pub signed_i128 : ℕ → ℤ
signed_i128 m = if ltb m (2 ^ 127) then pos m else negsuc (2 ^ 128 - 1 - m)

-- `a + b` of `i128` values, which wraps
unfoldable pub add_i128 : ℤ → ℤ → ℤ
add_i128 a b = signed_i128 (residue_i128 (a +ℤ b))

pub add_i128-pos : (a b : ℕ) → a + b < 2 ^ 127 → add_i128 (pos a) (pos b) ≡ pos (a + b)
unfolding add_i128
add_i128-pos a b h = rw (+ℤ_pos a b) (ground arith)
