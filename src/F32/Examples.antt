-- ===== src/F32/Examples.antt =====
-- Runs of the rounding.
use scaphandre.Base.{◌/◌, ◌≡◌, refl, arith}
use scaphandre.F32.{round_div, shift_down, round_down, of_usize, quotient_as_u32}
use scaphandre.F32.Exact.{quotient_as_u32-eq-div}

quotient_runs : quotient_as_u32 1000 48 ≡ 20
unfolding quotient_as_u32
quotient_runs = refl

-- Above 24 bits the value is rounded.
of_usize_rounds : of_usize 16777217 ≡ 16777216
unfolding of_usize round_down shift_down round_div
of_usize_rounds = refl

quotient_as_u32-eq-div_example : quotient_as_u32 1000 48 ≡ 1000 / 48
quotient_as_u32-eq-div_example =
    quotient_as_u32-eq-div 1000 48 (omega arith) (omega arith) (omega arith)
