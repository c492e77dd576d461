-- ===== src/F32/Exact.antt =====
-- Below 24 bits the detour through `f32` gives the quotient of the integers.
use native.Mathlib.Nat.{
  mul-le-mul_right, mul-le-mul_left, pow-suc, le-div_iff_mul-le, le_trans, div-le_self,
}
use native.Mathlib.Decide.{ℕ_discrete, dec_lt}
use scaphandre.Base.{
  ℕ, zero, suc, ◌+◌, ◌*◌, ◌/◌, ◌^◌, ◌≤◌, ◌<◌, ◌≡◌, inl, inr, false, arith, leb, lt→ltb, leb→le,
  Bool-cases, last,
}
use scaphandre.F32.{
  round_div, shift_up, round_up, of_usize, quotient, quotient_as_usize, quotient_as_u32,
}

round_div_near : (n d : ℕ) → 0 < d → (n / d ≤ round_div n d) × (2 * (d * round_div n d) ≤ 2 * n + d)
unfolding round_div
round_div_near n d h = grind arith

fits_at_23 : (k n d : ℕ) → d ≤ n → k ≡ 23 → d * 2 ^ 23 ≤ n * 2 ^ k
fits_at_23 k n d h e = rw e (omega arith)

-- A scale that does not fit is not the last one.
not_last : (k n d : ℕ) → d ≤ n → k ≤ 23 → leb (d * 2 ^ 23) (n * 2 ^ k) ≡ false → k + 1 ≤ 23
not_last k n d h small e = elim (ℕ_discrete k 23) [
  | yes last ↦ absurd (ground (arith, fits_at_23 k n d h last))
  | no other ↦ omega arith
]

shift_up-fits :
    (fuel k n d : ℕ) → d ≤ n → k ≤ 23 → 24 ≤ k + fuel → d * 2 ^ 23 ≤ n * 2 ^ shift_up fuel k n d
unfolding shift_up
shift_up-fits zero k n d h small enough = absurd (omega arith)
shift_up-fits (suc fuel) k n d h small enough = elim (Bool-cases (leb (d * 2 ^ 23) (n * 2 ^ k))) [
  | inl found ↦ rw found (leb→le _ _ found)
  | inr next ↦
      rw next (shift_up-fits fuel (k + 1) n d h (not_last k n d h small next) (omega arith))
]

div-eq : (m p q : ℕ) → 0 < p → q * p ≤ m → m < q * p + p → m / p ≡ q
div-eq m p q h k l = grind arith

pow-pos : (k : ℕ) → 0 < 2 ^ k
pow-pos zero = omega arith
pow-pos (suc k) = omega (arith, pow-suc 2 k, pow-pos k)

-- A rounded quotient that keeps 23 bits does not reach the next integer.
below_next :
    (n d p q m : ℕ)
    → 0 < p
    → n < 2 ^ 24
    → d * 2 ^ 23 ≤ n * p
    → n < q * d + d
    → 2 * (d * m) ≤ 2 * (n * p) + d
    → m < q * p + p
below_next n d p q m hp small fits next near = elim (dec_lt m (q * p + p)) [
  | yes below ↦ below
  | no above ↦ absurd (
      omega (
        arith,
        mul-le-mul_right {m = n + 1} {n = q * d + d} p (omega arith),
        mul-le-mul_right {m = n + 1} {n = 2 ^ 24} p (omega arith),
        mul-le-mul_left {m = q * p + p} {n = m} d (omega arith),
      ))
]

at_least : (n d p q : ℕ) → 0 < d → q * d ≤ n → q * p ≤ n * p / d
at_least n d p q h k = (le-div_iff_mul-le h).1 (omega (arith, mul-le-mul_right p k))

round_up-eq-div : (k n d : ℕ) → 0 < d → n < 2 ^ 24 → d * 2 ^ 23 ≤ n * 2 ^ k → round_up k n d ≡ n / d
unfolding round_up
round_up-eq-div k n d hd small fits =
    let near = round_div_near (n * 2 ^ k) d hd in
    div-eq (round_div (n * 2 ^ k) d) (2 ^ k) (n / d) (pow-pos k)
      (le_trans (at_least n d (2 ^ k) (n / d) hd (grind arith)) near.0)
      (below_next n d (2 ^ k) (n / d) _ (pow-pos k) small fits (grind arith) near.1)

of_usize-eq_self : (n : ℕ) → n < 2 ^ 24 → of_usize n ≡ n
unfolding of_usize
of_usize-eq_self n h = rw (lt→ltb _ _ h)

quotient-eq-div : (n d : ℕ) → 0 < d → d ≤ n → n < 2 ^ 24 → quotient n d ≡ n / d
unfolding quotient
quotient-eq-div n d hd le small = rw (lt→ltb n (d * 2 ^ 24) (omega arith)) (
    round_up-eq-div (shift_up 128 0 n d) n d hd small
      (shift_up-fits 128 0 n d le (omega arith) (omega arith)))

-- For a dividend below 2 ^ 24 and a positive divisor that is not larger, the quotient that the
-- code computes in `f32` and casts to `usize` is the quotient of the two integers.
pub quotient_as_usize-eq-div :
    (n d : ℕ) → 0 < d → d ≤ n → n < 2 ^ 24 → quotient_as_usize n d ≡ n / d
unfolding quotient_as_usize
quotient_as_usize-eq-div n d hd le small =
    rw (of_usize-eq_self n small)
      (rw (of_usize-eq_self d (omega arith)) (quotient-eq-div n d hd le small))

-- For a dividend below 2 ^ 24 and a positive divisor that is not larger, the quotient that the
-- code computes in `f32` and casts to `u32` is the quotient of the two integers.
pub quotient_as_u32-eq-div : (n d : ℕ) → 0 < d → d ≤ n → n < 2 ^ 24 → quotient_as_u32 n d ≡ n / d
unfolding quotient_as_u32
quotient_as_u32-eq-div n d hd le small = rw (of_usize-eq_self n small) (
    rw (of_usize-eq_self d (omega arith))
      (rw (quotient-eq-div n d hd le small) (omega (arith, div-le_self n d))))
