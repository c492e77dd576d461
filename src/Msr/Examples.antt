-- ===== src/Msr/Examples.antt =====
-- A register of units, and the theorem at it.
use scaphandre.Base.{◌+◌, ◌*◌, ◌≡◌, some, arith}
use scaphandre.Float.Fractions.{fractions}
use scaphandre.Msr.{one_over, extract_rapl_current_power, new_msr_sensor}
use scaphandre.Msr.Fields.{UnitRegister, word_of, new_msr_sensor-fields}

abbrev units_register : UnitRegister
units_register = record {
  power = 3;
  between_low = 5;
  energy = 14;
  between_high = 2;
  time = 10;
  high = 7;
  power_fits = omega arith;
  between_low_fits = omega arith;
  energy_fits = omega arith;
  between_high_fits = omega arith;
  time_fits = omega arith;
}

new_msr_sensor-fields_example :
    ((new_msr_sensor fractions (some (word_of units_register))).power_unit ≡ one_over fractions 3)
    × ((new_msr_sensor fractions (some (word_of units_register))).energy_unit
        ≡ one_over fractions 14)
    × ((new_msr_sensor fractions (some (word_of units_register))).time_unit ≡ one_over fractions 10)
    × (extract_rapl_current_power fractions (9000 + 4294967296 * 2) (1, 16384)
        ≡ extract_rapl_current_power fractions 9000 (1, 16384))
new_msr_sensor-fields_example =
    new_msr_sensor-fields fractions units_register 9000 2 (1, 16384) (omega arith)
