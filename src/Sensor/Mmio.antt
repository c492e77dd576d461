-- ===== src/Sensor/Mmio.antt =====
-- The counter of the mmio tree of a socket or a domain (`get_rapl_mmio_energy_microjoules`).
use scaphandre.Base.{ℕ, Option, map_option, ◌>>=◌}
use scaphandre.Sensor.Measure.{Record, new_record, SensorData, lookup, Files}
use scaphandre.Units.{micro_joule}

unfoldable pub get_rapl_mmio_energy_microjoules : Files → ℕ → SensorData → Option Record
get_rapl_mmio_energy_microjoules files now sensor_data = do
  mmio ← lookup "mmio" sensor_data
  map_option (λ val. new_record now val micro_joule) (files mmio)
