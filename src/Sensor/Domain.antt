-- ===== src/Sensor/Domain.antt =====
-- `Domain`: a RAPL domain of a socket, its energy counter and its power.
pub mod Power
use scaphandre.Base.{ℕ, Option, some, List, [], map, map_option, ◌>>=◌}
use scaphandre.Buffer.{clean_old_records, refresh_buffer}
use scaphandre.Float.{Float}
use scaphandre.Sensor.Measure.{
  Record, new_record, SensorData, lookup, Files, max_energy_range, diff_power,
}
use scaphandre.Text.{Text}
use scaphandre.Units.{micro_joule}

-- The bytes that a `Record`, a `MultiValuedRecord` and a `CPUStat` take, by the compiler's layout.
pub record Layout : Type 0 where
  pub record_size : ℕ
  pub multi_record_size : ℕ
  pub stat_size : ℕ

pub record Domain (fl : Float) : Type 0 where
  pub id : ℕ
  pub name : Text
  pub counter_uj_path : Text
  pub record_buffer : List Record
  pub buffer_max_kbytes : ℕ
  pub rapl_max_uj : ℕ
  pub background_power_uw : fl.F
  pub sensor_data : SensorData

module _ (fl : Float) where
  open fl use {F, of_ℕ, to_u64}

  -- `Domain::new`
  unfoldable pub new_domain : ℕ → Text → Text → ℕ → SensorData → Domain fl
  unfolding max_energy_range
  new_domain id name counter_uj_path buffer_max_kbytes sensor_data = record {
    id = id;
    name = name;
    counter_uj_path = counter_uj_path;
    record_buffer = [];
    buffer_max_kbytes = buffer_max_kbytes;
    rapl_max_uj = max_energy_range sensor_data;
    background_power_uw = of_ℕ 0;
    sensor_data = sensor_data;
  }

  -- `read_record`; the outer `none` is the panic of `unwrap`, the inner one the error of the read
  unfoldable pub read_record : Files → ℕ → Domain fl → Option (Option Record)
  read_record files now d = do
    source_file ← lookup "source_file" d.sensor_data
    some (map_option (λ result. new_record now result micro_joule) (files source_file))

  -- `refresh_record`; `none` is a panic
  unfoldable pub refresh_record : Layout → Files → ℕ → Domain fl → Option (Domain fl)
  refresh_record layout files now d = do
    reading ← read_record files now d
    some (record d {
      record_buffer =
          refresh_buffer (clean_old_records layout.record_size d.buffer_max_kbytes) reading
            d.record_buffer;
    })

  -- `get_records_passive`
  unfoldable pub get_records_passive : Domain fl → List Record
  get_records_passive d = map (λ r. new_record r.timestamp r.value micro_joule) d.record_buffer

  -- `get_records_diff_power_microwatts`
  unfoldable pub get_records_diff_power_microwatts : Domain fl → Option Record
  get_records_diff_power_microwatts d =
      diff_power fl d.rapl_max_uj (to_u64 d.background_power_uw) d.record_buffer
