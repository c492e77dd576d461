-- ===== src/Base/Words.antt =====
-- Rust's unsigned integers are numbers below `2 ^ w`. The release profile of the crate leaves
-- overflow checks off, so a plain operator wraps; the `saturating_*` methods clamp.
use Prim.Native.Nat.{ℕ, ◌+◌, ◌-◌, ◌%◌, ◌^◌, min}

abbrev pub u16_mod : ℕ
u16_mod = 2 ^ 16

abbrev pub u32_mod : ℕ
u32_mod = 2 ^ 32

abbrev pub u64_mod : ℕ
u64_mod = 2 ^ 64

abbrev pub u128_mod : ℕ
u128_mod = 2 ^ 128

-- `a - b` at the width whose modulus is `m`, for operands below `m`
abbrev pub wrapping_sub : ℕ → ℕ → ℕ → ℕ
wrapping_sub m a b = (a + m - b) % m

-- `a.saturating_sub(b)`
abbrev pub saturating_sub : ℕ → ℕ → ℕ
saturating_sub a b = a - b

-- `a.saturating_add(b)` at the width whose modulus is `m`
abbrev pub saturating_add : ℕ → ℕ → ℕ → ℕ
saturating_add m a b = min (a + b) (m - 1)
