-- ===== src/F32.antt =====
-- The one use that the buffers make of `f32`: a quotient of two `usize` values, each rounded to
-- `f32`, then truncated by `as u32`. The values are finite and not negative; a value of 24 bits
-- times a power of two is what binary32 holds, and rounding is to nearest, ties to even.
pub mod Exact
mod Examples
use scaphandre.Base.{
  ℕ, zero, suc, ◌+◌, ◌-◌, ◌*◌, ◌/◌, ◌%◌, ◌^◌, min, ltb, leb, ◌==◌, if◌then◌else◌, u32_mod,
}

-- The integer nearest to n / d, the even one of two.
round_div : ℕ → ℕ → ℕ
round_div n d =
    let q = n / d in
    let r = n % d in
    if ltb (2 * r) d then q else if ltb d (2 * r) then q + 1 else if q % 2 == 0 then q else q + 1

-- The least k from the given one with n < d * 2 ^ 24 * 2 ^ k.
shift_down : ℕ → ℕ → ℕ → ℕ → ℕ
shift_down zero k n d = k
shift_down (suc fuel) k n d =
    let rest = shift_down fuel (k + 1) n d in if ltb n (d * 2 ^ 24 * 2 ^ k) then k else rest

-- The least k from the given one with d * 2 ^ 23 ≤ n * 2 ^ k.
shift_up : ℕ → ℕ → ℕ → ℕ → ℕ
shift_up zero k n d = k
shift_up (suc fuel) k n d =
    let rest = shift_up fuel (k + 1) n d in if leb (d * 2 ^ 23) (n * 2 ^ k) then k else rest

-- The significand of n / d is scaled by 2 ^ k, and the whole part of the rounded value is taken.
-- A `usize` is below 2 ^ 64, so 128 rounds find the scale.
round_up : ℕ → ℕ → ℕ → ℕ
round_up k n d = round_div (n * 2 ^ k) d / 2 ^ k

round_down : ℕ → ℕ → ℕ → ℕ
round_down k n d = round_div n (d * 2 ^ k) * 2 ^ k

-- `n as f32`
of_usize : ℕ → ℕ
of_usize n = if ltb n (2 ^ 24) then n else round_down (shift_down 128 0 n 1) n 1

-- The whole part of the `f32` quotient of two whole `f32` values, for a positive divisor.
quotient : ℕ → ℕ → ℕ
quotient n d =
    if ltb n (d * 2 ^ 24)
    then round_up (shift_up 128 0 n d) n d
    else round_down (shift_down 128 0 n d) n d

-- `(n as f32 / d as f32) as usize`; the value is below 2 ^ 64
unfoldable pub quotient_as_usize : ℕ → ℕ → ℕ
unfolding quotient of_usize round_down shift_down round_up shift_up round_div
quotient_as_usize n d = quotient (of_usize n) (of_usize d)

-- `(n as f32 / d as f32) as u32`
unfoldable pub quotient_as_u32 : ℕ → ℕ → ℕ
unfolding quotient of_usize round_down shift_down round_up shift_up round_div
quotient_as_u32 n d = min (quotient (of_usize n) (of_usize d)) (u32_mod - 1)
