-- ===== src/Topology/Measures.antt =====
-- The energy and the power of the whole host.
use scaphandre.Sensor.Domain
use scaphandre.Sensor.Socket
use scaphandre.Base.{
  ℕ, ◌-◌, max, Option, none, some, List, [], ◌∷◌, ◌++◌, ltb, if◌then◌else◌, unwrap_or, u128_mod,
  saturating_sub, ◌>>=◌,
}
use scaphandre.Base.Int.{ℤ, pos, add_i128}
use scaphandre.Buffer.{clean_topology_records, refresh_buffer}
use scaphandre.Float.{Float}
use scaphandre.Sensor.Domain.{Layout, Domain}
use scaphandre.Sensor.Measure.{Record, new_record, same_text, lookup, Files, last_two, microwatts}
use scaphandre.Sensor.Socket.{CpuSocket, value_or_zero}
use scaphandre.Sensor.Stat.{add_u64}
use scaphandre.Text.{Text, codes, trim, show, parse_unsigned, parse_i128, show_ℤ}
use scaphandre.Topology.{Topology}
use scaphandre.Units.{micro_joule, micro_watt}

-- `/energy_uj`
abbrev pub energy_uj_file : Text
energy_uj_file = b'/' ∷ b'e' ∷ b'n' ∷ b'e' ∷ b'r' ∷ b'g' ∷ b'y' ∷ b'_' ∷ b'u' ∷ b'j' ∷ []

module _ (fs fl : Float) where
  -- The sum of what the sockets give, where it can be read
  unfoldable pub sum_of_sockets : (CpuSocket fl → Option Record) → List (CpuSocket fl) → ℕ
  sum_of_sockets watts [] = 0
  sum_of_sockets watts (s ∷ ss) = add_u64 (value_or_zero (watts s)) (sum_of_sockets watts ss)

  -- `get_idle_power_microwatts`
  unfoldable pub get_idle_power_microwatts : ℕ → Topology fs fl → Option Record
  get_idle_power_microwatts now t = some (
      new_record now (show (sum_of_sockets (Socket.get_idle_power_microwatts fl now) t.sockets))
        micro_watt)

  -- `get_activation_power_microwatts`
  unfoldable pub get_activation_power_microwatts : ℕ → Topology fs fl → Option Record
  get_activation_power_microwatts now t = some (
      new_record now
        (show (sum_of_sockets (Socket.get_activation_power_microwatts fl now) t.sockets))
        micro_watt)

  -- `get_background_power_microwatts`
  unfoldable pub get_background_power_microwatts : ℕ → Topology fs fl → Option Record
  get_background_power_microwatts now t =
      let idle = value_or_zero (get_idle_power_microwatts now t) in
      let activation = value_or_zero (get_activation_power_microwatts now t) in
      some (new_record now (show (max idle activation)) micro_watt)

  open fl use {of_ℕ, as_secs_f64, sub, div, to_u64}

  -- `get_records_diff_power_microwatts`
  unfoldable pub get_records_diff_power_microwatts : ℕ → Topology fs fl → Option Record
  get_records_diff_power_microwatts now t = do
    (last_record, previous_record) ← last_two t.record_buffer
    previous_microjoules ← parse_unsigned u128_mod (trim previous_record.value)
    last_microjoules ← parse_unsigned u128_mod (trim last_record.value)
    if ltb last_microjoules previous_microjoules
        then none
        else some (
            new_record last_record.timestamp
              (show (
                saturating_sub
                  (microwatts fl (last_microjoules - previous_microjoules) last_record.timestamp
                    previous_record.timestamp)
                  (value_or_zero (get_background_power_microwatts now t))))
              micro_watt)

  -- `get_rapl_psys_energy_microjoules`
  unfoldable pub get_rapl_psys_energy_microjoules : Files → ℕ → Topology fs fl → Option Record
  get_rapl_psys_energy_microjoules files now t = do
    psys ← lookup "psys" t.sensor_data
    val ← files (psys ++ energy_uj_file)
    some (new_record now val micro_joule)

  -- What a reading adds to the total: nothing where there is none, or no number in it
  abbrev pub counted : Option Record → ℤ
  counted none = pos 0
  counted (some r) = unwrap_or (pos 0) (parse_i128 (trim r.value))

  -- The memory domains of a socket; `none` is the panic of a read
  unfoldable pub dram_energy : Files → ℕ → List (Domain fl) → Option ℤ
  dram_energy files now [] = some (pos 0)
  dram_energy files now (d ∷ ds) =
      let rest = dram_energy files now ds in
      if same_text d.name (codes "dram")
      then (do
        reading ← Domain.read_record fl files now d
        total ← rest
        some (add_i128 (counted reading) total))
      else rest

  unfoldable pub sockets_energy : Files → ℕ → List (CpuSocket fl) → Option ℤ
  sockets_energy files now [] = some (pos 0)
  sockets_energy files now (s ∷ ss) = do
    reading ← Socket.read_record fl files now s
    memory ← dram_energy files now s.domains
    total ← sockets_energy files now ss
    some (add_i128 (counted reading) (add_i128 memory total))

  -- `read_record`; `none` is a panic
  unfoldable pub read_record : Files → ℕ → Topology fs fl → Option Record
  read_record files now t = elim (get_rapl_psys_energy_microjoules files now t) [
    | some psys_record ↦ some psys_record
    | none ↦ do
      total ← sockets_energy files now t.sockets
      some (new_record now (show_ℤ total) micro_joule)
  ]

  -- `refresh_record`; `none` is a panic
  unfoldable pub refresh_record : Layout → Files → ℕ → Topology fs fl → Option (Topology fs fl)
  refresh_record layout files now t = do
    reading ← read_record files now t
    some (record t {
      record_buffer =
          refresh_buffer (clean_topology_records layout.record_size t.buffer_max_kbytes)
            (some reading) t.record_buffer;
    })
