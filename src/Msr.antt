-- ===== src/Msr.antt =====
-- scaphandre/src/sensors/msr_rapl.rs: the units that the sensor of Windows takes from a register, and its
-- energy. The calls of the driver are arguments.
pub mod Fields
mod Examples
use scaphandre.Base.{ℕ, ◌/◌, ◌%◌, ◌^◌, Option, none, some}
use scaphandre.Float.{Float}
use scaphandre.Text.{Text, show}

-- `MsrRAPLSensor`, less the name of its driver
pub record MsrRaplSensor (fl : Float) : Type 0 where
  pub power_unit : fl.F
  pub energy_unit : fl.F
  pub time_unit : fl.F

module _ (fl : Float) where
  abbrev pub one_over : ℕ → fl.F
  one_over exponent = fl.div (fl.of_ℕ 1) (fl.of_ℕ (2 ^ exponent))

  -- `data & 0xFFFFFFFF`
  abbrev low_word : ℕ → ℕ
  low_word data_read = data_read % 4294967296

  -- `extract_rapl_power_unit`: the bits 0 to 3
  unfoldable pub extract_rapl_power_unit : ℕ → fl.F
  extract_rapl_power_unit data_read = one_over (low_word data_read % 16)

  -- `extract_rapl_energy_unit`: the bits 8 to 12
  unfoldable pub extract_rapl_energy_unit : ℕ → fl.F
  extract_rapl_energy_unit data_read = one_over (low_word data_read / 256 % 32)

  -- `extract_rapl_time_unit`: the bits 16 to 19
  unfoldable pub extract_rapl_time_unit : ℕ → fl.F
  extract_rapl_time_unit data_read = one_over (low_word data_read / 65536 % 16)

  -- `extract_rapl_current_power`
  unfoldable pub extract_rapl_current_power : ℕ → fl.F → Text
  extract_rapl_current_power data_read energy_unit =
      show
        (fl.to_u64 (fl.mul (fl.mul (fl.of_ℕ (low_word data_read)) energy_unit) (fl.of_ℕ 1000000)))

  -- `new`, given the register of the units where the driver opens and answers
  unfoldable pub new_msr_sensor : Option ℕ → MsrRaplSensor fl
  new_msr_sensor none = record {
    power_unit = fl.of_ℕ 1;
    energy_unit = fl.of_ℕ 1;
    time_unit = fl.of_ℕ 1;
  }
  new_msr_sensor (some data_read) = record {
    power_unit = extract_rapl_power_unit data_read;
    energy_unit = extract_rapl_energy_unit data_read;
    time_unit = extract_rapl_time_unit data_read;
  }
