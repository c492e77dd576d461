-- ===== src/Msr/Fields.antt =====
-- The units are those of the fields of the register.
-- The register of the units, with the fields that the documentation gives it and the bits in between
use scaphandre.Base.{ℕ, ◌+◌, ◌*◌, ◌/◌, ◌%◌, ◌<◌, ◌≡◌, sym, ap, ◌∙◌, some, arith}
use scaphandre.Float.{Float}
use scaphandre.Msr.{
  one_over, extract_rapl_power_unit, extract_rapl_energy_unit, extract_rapl_time_unit,
  extract_rapl_current_power, new_msr_sensor,
}
use scaphandre.Text.{show}

pub record UnitRegister : Type 0 where
  pub power : ℕ
  pub between_low : ℕ
  pub energy : ℕ
  pub between_high : ℕ
  pub time : ℕ
  pub high : ℕ
  pub power_fits : power < 16
  pub between_low_fits : between_low < 16
  pub energy_fits : energy < 32
  pub between_high_fits : between_high < 8
  pub time_fits : time < 16

abbrev pub word_of : UnitRegister → ℕ
word_of r =
    r.power
    + 16 * r.between_low
    + 256 * r.energy
    + 8192 * r.between_high
    + 65536 * r.time
    + 1048576 * r.high

power_field : (r : UnitRegister) → word_of r % 4294967296 % 16 ≡ r.power
power_field r = let p = r.power_fits in omega arith

energy_field : (r : UnitRegister) → word_of r % 4294967296 / 256 % 32 ≡ r.energy
energy_field r =
    let p = r.power_fits in let a = r.between_low_fits in let e = r.energy_fits in omega arith

time_field : (r : UnitRegister) → word_of r % 4294967296 / 65536 % 16 ≡ r.time
time_field r =
    let p = r.power_fits in
    let a = r.between_low_fits in
    let e = r.energy_fits in let b = r.between_high_fits in let t = r.time_fits in omega arith

low_of_word : (low high : ℕ) → low < 4294967296 → (low + 4294967296 * high) % 4294967296 ≡ low
low_of_word low high h = omega arith

low_of_low : (low : ℕ) → low < 4294967296 → low % 4294967296 ≡ low
low_of_low low h = omega arith

module _ (fl : Float) where
  -- Of a register of units, the sensor takes one over two to the power of its fields, whatever stands in
  -- the bits between and above them; and of a register of energy it takes the low 32 bits.
  pub new_msr_sensor-fields :
      (r : UnitRegister) (low high : ℕ) (energy_unit : fl.F)
      → low < 4294967296
      → ((new_msr_sensor fl (some (word_of r))).power_unit ≡ one_over fl r.power)
        × ((new_msr_sensor fl (some (word_of r))).energy_unit ≡ one_over fl r.energy)
        × ((new_msr_sensor fl (some (word_of r))).time_unit ≡ one_over fl r.time)
        × (extract_rapl_current_power fl (low + 4294967296 * high) energy_unit
            ≡ extract_rapl_current_power fl low energy_unit)
  unfolding new_msr_sensor extract_rapl_power_unit extract_rapl_energy_unit extract_rapl_time_unit
      extract_rapl_current_power
  new_msr_sensor-fields r low high energy_unit h =
      let power_of =
        λ (n : ℕ). show (fl.to_u64 (fl.mul (fl.mul (fl.of_ℕ n) energy_unit) (fl.of_ℕ 1000000))) in
      (
        ap (one_over fl) (power_field r),
        ap (one_over fl) (energy_field r),
        ap (one_over fl) (time_field r),
        ap power_of (low_of_word low high h ∙ sym (low_of_low low h)),
      )
