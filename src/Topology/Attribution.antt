-- ===== src/Topology/Attribution.antt =====
-- What is reported of one process: its usage of memory and disks, and the power of the cores shared by
-- the time that the process had on each (`get_all_per_process`, and the getters of single values).
use scaphandre.Base.{
  ℕ, String, Option, none, some, List, [], ◌∷◌, ◌++◌, map, ltb, if◌then◌else◌, ◌>>=◌, unwrap_or,
  map_option, get_elem?,
}
use scaphandre.Float.{Float}
use scaphandre.Sensor.Core.{CpuCore, get_core_metrics_delta}
use scaphandre.Sensor.Measure.{Record, new_record}
use scaphandre.Text.{Text, show, parse_u64}
use scaphandre.Topology.{Topology}
use scaphandre.Topology.CpuTime.{get_cpu_time_diff}
use scaphandre.Topology.Shares.{sum_f64, all_cores, all_core_powers}
use scaphandre.Tracker.{
  get_process_last_record, get_per_core_cpu_time_delta, get_process_cpu_time_delta_as_percentage,
}
use scaphandre.Tracker.Process.{ProcessRecord}
use scaphandre.Units.{numeric, micro_watt, percentage, bytes}

-- `HashMap<String, (String, Record)>`: a description and a record for a name, in the order of insertion
abbrev pub ProcessMetrics : Type 0
ProcessMetrics = List (String × String × Record)

-- `collect::<Vec<_>>().join(",")`
unfoldable pub join_commas : List Text → Text
join_commas [] = []
join_commas (t ∷ []) = t
join_commas (t ∷ u ∷ us) = t ++ b',' ∷ join_commas (u ∷ us)

-- The times of the process on the cores, `core_time_deltas[c.id]`; `none` is the panic of an index
unfoldable pub process_times : List ℕ → List CpuCore → Option (List ℕ)
process_times deltas [] = some []
process_times deltas (c ∷ cs) = do
  first ← get_elem? deltas c.id
  rest ← process_times deltas cs
  some (first ∷ rest)

-- All times of the cores, and 0 for what cannot be read
unfoldable pub total_times : List Text → List CpuCore → List ℕ
total_times values cs =
    map (λ (c : CpuCore). unwrap_or 0 (get_elem? values c.id >>= λ v. parse_u64 v)) cs

module _ (fl : Float) where
  open fl use {F, of_ℕ, mul, div, lt, parse_f64, show_f64}

  -- The share of the process in the time of one core, at most 1
  unfoldable pub core_share : ℕ → ℕ → F
  core_share process_ns total_ns =
      let share = div (of_ℕ process_ns) (of_ℕ total_ns) in
      if ltb 0 total_ns then (if lt (of_ℕ 1) share then of_ℕ 1 else share) else of_ℕ 0

  unfoldable pub core_shares : List ℕ → List ℕ → List F
  core_shares [] total_ns = []
  core_shares (p ∷ ps) [] = []
  core_shares (p ∷ ps) (t ∷ ts) = core_share p t ∷ core_shares ps ts

  -- The sum over the values, each with its percentage; `none` is the panic of an index
  unfoldable pub shared_powers : List Text → List F → Option (List F)
  shared_powers [] shares = some []
  shared_powers (conso ∷ consos) [] = none
  shared_powers (conso ∷ consos) (share ∷ shares) = do
    rest ← shared_powers consos shares
    some (mul (unwrap_or (of_ℕ 0) (parse_f64 conso)) share ∷ rest)

  -- The proportion without the kernel part: of the process in all time, by that of the core
  unfoldable pub fallback_share : F → CpuCore → F
  fallback_share process_cpu_percentage c = elim (get_core_metrics_delta fl c) [
    | none ↦ of_ℕ 0
    | some m ↦ mul (div process_cpu_percentage (of_ℕ 100)) (div m.cpu_time_percentage (of_ℕ 100))
  ]

module _ (fs fl : Float) where
  open fl use {F, of_ℕ, show_f64}

  -- `get_process_core_time_data`: the outer `none` is a panic
  unfoldable pub get_process_core_time_data :
      ℕ → Topology fs fl → Option (Option (List ℕ × List ℕ × List F))
  get_process_core_time_data pid t =
      let cores = all_cores fl t.sockets in
      elim (get_per_core_cpu_time_delta fs pid t.proc_tracker) [
        | none ↦ some none
        | some deltas ↦ elim (get_cpu_time_diff fs fl t) [
          | none ↦ some none
          | some cpu_time_diff ↦ do
            proc_ns ← process_times deltas cores
            let total_ns = total_times cpu_time_diff.values cores
            some (some (proc_ns, total_ns, core_shares fl proc_ns total_ns))
        ]
      ]

  -- `get_process_core_proportions`, given what `get_process_core_time_data` returns
  unfoldable pub get_process_core_proportions :
      Option (List ℕ × List ℕ × List F) → ℕ → Topology fs fl → Option (List F)
  get_process_core_proportions (some (proc_ns, total_ns, proportions)) pid t = some proportions
  get_process_core_proportions none pid t =
      map_option (λ share. map (fallback_share fl share) (all_cores fl t.sockets))
        (get_process_cpu_time_delta_as_percentage fs fl pid t.proc_tracker)

  -- The entries that are there with a percentage of the CPU time
  unfoldable pub usage_metrics : ProcessRecord fs → F → ProcessMetrics
  usage_metrics r process_cpu_percentage =
      (
        "scaph_process_cpu_usage_percentage",
        "CPU time consumed by the process, as a percentage of the capacity of all the CPU Cores",
        new_record r.timestamp (show_f64 process_cpu_percentage) percentage,
      )
      ∷ (
        "scaph_process_memory_virtual_bytes",
        "Virtual RAM usage by the process, in bytes",
        new_record r.timestamp (show r.process.virtual_memory) percentage,
      )
      ∷ (
        "scaph_process_memory_bytes",
        "Physical RAM usage by the process, in bytes",
        new_record r.timestamp (show r.process.memory) bytes,
      )
      ∷ (
        "scaph_process_disk_write_bytes",
        "Data written on disk by the process, in bytes",
        new_record r.timestamp (show r.process.disk_written) bytes,
      )
      ∷ (
        "scaph_process_disk_read_bytes",
        "Data read on disk by the process, in bytes",
        new_record r.timestamp (show r.process.disk_read) bytes,
      )
      ∷ (
        "scaph_process_disk_total_write_bytes",
        "Total data written on disk by the process, in bytes",
        new_record r.timestamp (show r.process.total_disk_written) bytes,
      )
      ∷ (
        "scaph_process_disk_total_read_bytes",
        "Total data read on disk by the process, in bytes",
        new_record r.timestamp (show r.process.total_disk_read) bytes,
      )
      ∷ []

  -- The entries that are there with the data of the kernel part
  unfoldable pub core_metrics : ℕ → Option (List ℕ × List ℕ × List F) → ProcessMetrics
  core_metrics timestamp none = []
  core_metrics timestamp (some (proc_ns, total_ns, proportions)) =
      (
        "scaph_process_core_time_ns",
        "Per-core process busy time delta in nanoseconds (CSV, indexed by logical CPU)",
        new_record timestamp (join_commas (map show proc_ns)) numeric,
      )
      ∷ (
        "scaph_process_core_total_time_ns",
        "Per-core total CPU busy time delta in nanoseconds (CSV, indexed by logical CPU)",
        new_record timestamp (join_commas (map show total_ns)) numeric,
      )
      ∷ (
        "scaph_process_core_proportion",
        "Per-core fraction of CPU time used by this process (CSV, indexed by logical CPU)",
        new_record timestamp (join_commas (map show_f64 proportions)) numeric,
      )
      ∷ []

  -- The power of the process: the powers of the cores by its proportions, and 0 where they are not
  -- known; `none` is a panic
  unfoldable pub process_power : ℕ → List F → Topology fs fl → Option F
  process_power now percentages t = elim (all_core_powers fl now t.sockets) [
    | none ↦ some (of_ℕ 0)
    | some r ↦ map_option (sum_f64 fl) (shared_powers fl r.values percentages)
  ]

  unfoldable pub power_metrics :
      ℕ
      → ℕ
      → Option (List ℕ × List ℕ × List F)
      → Option (List F)
      → Topology fs fl
      → Option ProcessMetrics
  power_metrics now timestamp core_data none t = some []
  power_metrics now timestamp core_data (some percentages) t = do
    result ← process_power now percentages t
    some (
        (
          "scaph_process_power_consumption_microwatts",
          "Total data read on disk by the process, in bytes",
          new_record timestamp (show_f64 result) micro_watt,
        )
        ∷ core_metrics timestamp core_data)

  -- `get_all_per_process`; `none` is a panic
  unfoldable pub get_all_per_process : ℕ → ℕ → Topology fs fl → Option ProcessMetrics
  get_all_per_process now pid t = elim (get_process_last_record fs pid t.proc_tracker) [
    | none ↦ some []
    | some r ↦ do
      core_data ← get_process_core_time_data pid t
      powers ←
          power_metrics now r.timestamp core_data (get_process_core_proportions core_data pid t) t
      some (elim (get_process_cpu_time_delta_as_percentage fs fl pid t.proc_tracker) [
        | none ↦ powers
        | some p ↦ usage_metrics r p ++ powers
      ])
  ]
