-- ===== src/Float/Fractions.antt =====
-- Fractions that are not negative, as a stand-in for `f64` in tests and examples.
use scaphandre.Base.{ℕ, ◌+◌, ◌-◌, ◌*◌, ◌/◌, ◌^◌, ◌<◌, min, arith, ltb, ◌==◌, map_option}
use scaphandre.Float.{Float}
use scaphandre.Text.{show, parse_u64}

abbrev pub Fraction : Type 0
Fraction = ℕ × ℕ

abbrev power : ℕ → ℕ → ℕ
power a n = a ^ n

pub below_u64 : (n : ℕ) → min n (2 ^ 64 - 1) < 2 ^ 64
below_u64 n = omega arith

abbrev pub fractions : Float
fractions = record {
  F = Fraction;
  of_ℕ = λ n. (n, 1);
  as_secs_f64 = λ n. (n, 1000000000);
  add = λ x y. (x.0 * y.1 + y.0 * x.1, x.1 * y.1);
  sub = λ x y. (x.0 * y.1 - y.0 * x.1, x.1 * y.1);
  mul = λ x y. (x.0 * y.0, x.1 * y.1);
  div = λ x y. (x.0 * y.1, x.1 * y.0);
  powf = λ x y. (power x.0 (y.0 / y.1), power x.1 (y.0 / y.1));
  lt = λ x y. ltb (x.0 * y.1) (y.0 * x.1);
  eq = λ x y. x.0 * y.1 == y.0 * x.1;
  to_u64 = λ x. min (x.0 / x.1) (2 ^ 64 - 1);
  parse_f64 = λ t. map_option (λ (n : ℕ). (n, 1)) (parse_u64 t);
  show_f64 = λ x. show (x.0 / x.1);
  to_u64_lt = λ x. below_u64 (x.0 / x.1);
}
