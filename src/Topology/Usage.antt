-- ===== src/Topology/Usage.antt =====
-- The single values of a process that the exporters ask for (`get_process_cpu_usage_percentage` and the
-- getters of memory and disks), of its newest record.
use scaphandre.Topology.Measures
use scaphandre.Base.{ℕ, Option, none, some, map_option, ◌>>=◌}
use scaphandre.Float.{Float}
use scaphandre.Sensor.Measure.{Record, new_record}
use scaphandre.Text.{show}
use scaphandre.Topology.{Topology}
use scaphandre.Topology.Measures.{get_records_diff_power_microwatts}
use scaphandre.Tracker.{get_process_last_record}
use scaphandre.Tracker.Process.{IProcess, ProcessRecord}
use scaphandre.Units.{micro_watt, percentage, bytes}

module _ (fs fl : Float) where
  -- `get_process_cpu_usage_percentage`, and the getters of the other values
  unfoldable pub get_process_cpu_usage_percentage : ℕ → Topology fs fl → Option Record
  get_process_cpu_usage_percentage pid t =
      map_option
        (λ (r : ProcessRecord fs).
          new_record r.timestamp
            (fs.show_f64 (fs.div r.process.cpu_usage_percentage (fs.of_ℕ t.proc_tracker.nb_cores)))
            percentage)
        (get_process_last_record fs pid t.proc_tracker)

  abbrev bytes_of : (IProcess fs → ℕ) → ℕ → Topology fs fl → Option Record
  bytes_of value pid t =
      map_option (λ (r : ProcessRecord fs). new_record r.timestamp (show (value r.process)) bytes)
        (get_process_last_record fs pid t.proc_tracker)

  unfoldable pub get_process_memory_virtual_bytes : ℕ → Topology fs fl → Option Record
  get_process_memory_virtual_bytes = bytes_of IProcess.virtual_memory

  unfoldable pub get_process_memory_bytes : ℕ → Topology fs fl → Option Record
  get_process_memory_bytes = bytes_of IProcess.memory

  unfoldable pub get_process_disk_written_bytes : ℕ → Topology fs fl → Option Record
  get_process_disk_written_bytes = bytes_of IProcess.disk_written

  unfoldable pub get_process_disk_read_bytes : ℕ → Topology fs fl → Option Record
  get_process_disk_read_bytes = bytes_of IProcess.disk_read

  unfoldable pub get_process_disk_total_read_bytes : ℕ → Topology fs fl → Option Record
  get_process_disk_total_read_bytes = bytes_of IProcess.total_disk_read

  unfoldable pub get_process_disk_total_write_bytes : ℕ → Topology fs fl → Option Record
  get_process_disk_total_write_bytes = bytes_of IProcess.total_disk_written

  -- `get_process_power_consumption_microwatts`; the outer `none` is the panic of `unwrap`
  unfoldable pub get_process_power_consumption_microwatts :
      ℕ → ℕ → Topology fs fl → Option (Option Record)
  get_process_power_consumption_microwatts now pid t =
      elim (get_process_last_record fs pid t.proc_tracker) [
        | none ↦ some none
        | some r ↦ do
          process_cpu_percentage ← get_process_cpu_usage_percentage pid t
          elim (Measures.get_records_diff_power_microwatts fs fl now t) [
            | none ↦ some none
            | some conso ↦ do
              conso_f64 ← fl.parse_f64 conso.value
              share ← fl.parse_f64 process_cpu_percentage.value
              let result = fl.div (fl.mul conso_f64 share) (fl.of_ℕ 100)
              some (some (new_record r.timestamp (fl.show_f64 result) micro_watt))
          ]
      ]
