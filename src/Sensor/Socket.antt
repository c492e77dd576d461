-- ===== src/Sensor/Socket.antt =====
-- `CPUSocket`: its buffers, the power of the package, and the idle and activation power that the
-- events of the kernel part reveal.
pub mod Background
pub mod Power
pub mod Refresh
pub mod Usage
pub mod Sources
use scaphandre.Sensor.Domain
use scaphandre.Base.{
  ℕ, min, max, false, ◌||◌, Option, none, some, List, [], ◌∷◌, ◌++◌, map, ◌==◌, if◌then◌else◌,
  ◌>>=◌, unwrap_or, map_option, length, any, find, last,
}
use scaphandre.Buffer.{clean_old_records, push_reading, clean_unless_empty}
use scaphandre.Float.{Float}
use scaphandre.Sensor.Core.{CpuCore}
use scaphandre.Sensor.Domain.{Layout, Domain}
use scaphandre.Sensor.Event.{CpuStateEvent, is_idle, is_activation}
use scaphandre.Sensor.Measure.{
  Record, new_record, MultiValuedRecord, new_multi_record, same_text, SensorData, lookup, Files,
  max_energy_range, diff_power,
}
use scaphandre.Sensor.Stat.{CpuStat}
use scaphandre.Text.{Text, show, parse_u64}
use scaphandre.Units.{micro_joule, micro_watt}
use scaphandre.Units.Conversion.{power}

pub record CpuSocket (fl : Float) : Type 0 where
  pub id : ℕ
  pub domains : List (Domain fl)
  pub attributes : List (List SensorData)
  pub counter_uj_path : Text
  pub record_buffer : List Record
  pub buffer_max_kbytes : ℕ
  pub activation_idle_buffer : List MultiValuedRecord
  pub cpu_cores : List CpuCore
  pub stat_buffer : List CpuStat
  pub idle_percentage_threshold : fl.F
  pub rapl_max_uj : ℕ
  pub sensor_data : SensorData

-- `values.len() >= 2`, with the two values that are read behind it
abbrev pub first_two : List Text → Option (Text × Text)
first_two [] = none
first_two (v ∷ []) = none
first_two (v ∷ w ∷ values) = some (v, w)

-- The estimate after an event: the current power, or the lower of it and the estimate so far, where
-- that is not 0.
unfoldable pub lowered : ℕ → ℕ → ℕ
lowered current estimate = if estimate == 0 then current else min current estimate

-- `Option<Record>`, read as `u64`, with 0 where there is no record or no number
abbrev pub value_or_zero : Option Record → ℕ
value_or_zero r = unwrap_or 0 (r >>= λ x. parse_u64 x.value)

module _ (fl : Float) where
  open fl use {F, of_ℕ, add, mul, div, lt, eq, parse_f64, show_f64, to_u64}

  -- `CPUSocket::new`
  unfoldable pub new_socket :
      ℕ → List (Domain fl) → List (List SensorData) → Text → ℕ → SensorData → CpuSocket fl
  new_socket id domains attributes counter_uj_path buffer_max_kbytes sensor_data = record {
    id = id;
    domains = domains;
    attributes = attributes;
    counter_uj_path = counter_uj_path;
    record_buffer = [];
    buffer_max_kbytes = buffer_max_kbytes;
    activation_idle_buffer = [];
    cpu_cores = [];
    stat_buffer = [];
    idle_percentage_threshold = div (of_ℕ 65) (of_ℕ 100);
    rapl_max_uj = max_energy_range sensor_data;
    sensor_data = sensor_data;
  }

  -- `safe_add_domain`
  unfoldable pub safe_add_domain : Domain fl → CpuSocket fl → CpuSocket fl
  safe_add_domain domain s =
      if any (λ d. d.id == domain.id) s.domains
      then s
      else record s { domains = s.domains ++ domain ∷ [] }

  -- `add_cpu_core`
  unfoldable pub add_cpu_core : CpuCore → CpuSocket fl → CpuSocket fl
  add_cpu_core core s = record s { cpu_cores = s.cpu_cores ++ core ∷ [] }

  -- `read_record`; the outer `none` is the panic of `unwrap`, the inner one the error of the read
  unfoldable pub read_record : Files → ℕ → CpuSocket fl → Option (Option Record)
  read_record files now s = do
    source_file ← lookup "source_file" s.sensor_data
    some (map_option (λ result. new_record now result micro_joule) (files source_file))

  -- `clean_old_records`, of both buffers
  unfoldable pub clean_both : Layout → CpuSocket fl → CpuSocket fl
  clean_both layout s = record s {
    record_buffer = clean_old_records layout.record_size s.buffer_max_kbytes s.record_buffer;
    activation_idle_buffer =
        clean_unless_empty (clean_old_records layout.multi_record_size s.buffer_max_kbytes)
          s.activation_idle_buffer;
  }

  clean_if_any : Layout → List Record → CpuSocket fl → CpuSocket fl
  clean_if_any layout [] s = s
  clean_if_any layout (r ∷ rs) s = clean_both layout s

  -- `refresh_record`; `none` is a panic
  unfoldable pub refresh_record : Layout → Files → ℕ → CpuSocket fl → Option (CpuSocket fl)
  unfolding clean_if_any
  refresh_record layout files now s = do
    reading ← read_record files now s
    let pushed = push_reading reading s.record_buffer
    some (clean_if_any layout pushed (record s { record_buffer = pushed }))

  -- `get_records_passive`
  unfoldable pub get_records_passive : CpuSocket fl → List Record
  get_records_passive s = map (λ r. new_record r.timestamp r.value micro_joule) s.record_buffer

  -- `get_idle_power_microwatts`
  unfoldable pub get_idle_power_microwatts : ℕ → CpuSocket fl → Option Record
  get_idle_power_microwatts now s = do
    newest ← last s.activation_idle_buffer
    (idle, activation) ← first_two newest.values
    some (new_record now idle micro_watt)

  -- `get_activation_power_microwatts`
  unfoldable pub get_activation_power_microwatts : ℕ → CpuSocket fl → Option Record
  get_activation_power_microwatts now s = do
    newest ← last s.activation_idle_buffer
    (idle, activation) ← first_two newest.values
    some (new_record now activation micro_watt)

  -- `get_background_power_microwatts`
  unfoldable pub get_background_power_microwatts : ℕ → CpuSocket fl → Option Record
  get_background_power_microwatts now s =
      let idle = value_or_zero (get_idle_power_microwatts now s) in
      let activation = value_or_zero (get_activation_power_microwatts now s) in
      some (new_record now (show (max idle activation)) micro_watt)

  -- `get_records_diff_power_microwatts`
  unfoldable pub get_records_diff_power_microwatts : ℕ → CpuSocket fl → Option Record
  get_records_diff_power_microwatts now s =
      diff_power fl s.rapl_max_uj (value_or_zero (get_background_power_microwatts now s))
        s.record_buffer

  -- `read_activation_idle_record`
  unfoldable pub read_activation_idle_record :
      ℕ → List CpuStateEvent → CpuSocket fl → Option MultiValuedRecord
  read_activation_idle_record now records s =
      let idle_rec_exists = any is_idle records in
      let activation_rec_exists = any is_activation records in
      if idle_rec_exists || activation_rec_exists
      then (do
        r ← get_records_diff_power_microwatts now s
        current ← parse_u64 r.value
        let idle = value_or_zero (get_idle_power_microwatts now s)
        let idle' = if idle_rec_exists then lowered current idle else idle
        let activation = value_or_zero (get_activation_power_microwatts now s)
        let activation' = if activation_rec_exists then lowered current activation else activation
        some (
            new_multi_record now (show idle' ∷ show activation' ∷ [])
              (micro_watt ∷ micro_watt ∷ [])))
      else none

  -- `refresh_activation_idle_records`
  unfoldable pub refresh_activation_idle_records :
      ℕ → List CpuStateEvent → CpuSocket fl → CpuSocket fl
  refresh_activation_idle_records now records s = record s {
    activation_idle_buffer =
        push_reading (read_activation_idle_record now records s) s.activation_idle_buffer;
  }

  -- `…and_then(|r| r.value.parse::<f64>().ok()).unwrap_or(0.0)`
  abbrev pub float_or_zero : Option Record → F
  float_or_zero r = unwrap_or (of_ℕ 0) (r >>= λ x. parse_f64 x.value)

  -- `get_records_diff_power_microwatts_per_domain`
  unfoldable pub get_records_diff_power_microwatts_per_domain :
      ℕ → Text → CpuSocket fl → Option Record
  get_records_diff_power_microwatts_per_domain now name s =
      elim (find
        (λ d. elim (lookup "related_resource" d.sensor_data) [
          | none ↦ false
          | some resource ↦ same_text resource name
        ])
        s.domains) [
          | none ↦ get_records_diff_power_microwatts now s
          | some domain ↦ Domain.get_records_diff_power_microwatts fl domain
        ]

  -- `distribute_background_to_domains`
  unfoldable pub distribute_background_to_domains : ℕ → CpuSocket fl → CpuSocket fl
  distribute_background_to_domains now s =
      let background = float_or_zero (get_background_power_microwatts now s) in
      let total = float_or_zero (get_records_diff_power_microwatts now s) in
      let n = of_ℕ (length s.domains) in
      let share = λ (d : Domain fl).
        let power = float_or_zero (Domain.get_records_diff_power_microwatts fl d) in
        record d {
          background_power_uw =
              if lt (of_ℕ 0) total then mul background (div power total) else div background n;
        } in
      if eq background (of_ℕ 0) then s else record s { domains = map share s.domains }
