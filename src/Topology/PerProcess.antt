-- ===== src/Topology/PerProcess.antt =====
-- What is reported of a process is found without a panic where the map of the kernel part has all cores.
-- The times of the process have an entry for every core, where there are any.
use scaphandre.Base.{
  ℕ, ◌≡◌, refl, sym, ◌∙◌, inl, inr, Option, none, some, List, [], ◌++◌, Option-cases, bind-some,
  length,
}
use scaphandre.Float.{Float}
use scaphandre.Sensor.Core.{CpuCore}
use scaphandre.Sensor.Socket.Usage.{no_usage}
use scaphandre.Topology.{Topology}
use scaphandre.Topology.Attributed.{
  length-map, AllListed, process_times-total, length-core_shares, shared_powers-total,
  length-all_core_powers,
}
use scaphandre.Topology.Attribution.{
  ProcessMetrics, total_times, core_shares, fallback_share, get_process_core_time_data,
  get_process_core_proportions, usage_metrics, process_power, power_metrics, get_all_per_process,
}
use scaphandre.Topology.CpuTime.{get_cpu_time_diff}
use scaphandre.Topology.Shares.{sum_f64, all_cores, all_core_powers}
use scaphandre.Tracker.{
  get_process_last_record, get_per_core_cpu_time_delta, get_process_cpu_time_delta_as_percentage,
}

abbrev pub CoresListed : Option (List ℕ) → List CpuCore → Type 0
CoresListed none cs = Unit
CoresListed (some deltas) cs = AllListed deltas cs

module _ (fs fl : Float) where
  -- As many shares as there are cores
  abbrev Fits : List CpuCore → Option (List fl.F) → Type 0
  Fits cs none = Unit
  Fits cs (some shares) = length shares ≡ length cs

  abbrev shares_of : Option (List ℕ × List ℕ × List fl.F) → Option (List fl.F)
  shares_of none = none
  shares_of (some (proc_ns, total_ns, shares)) = some shares

  core_data-total :
      (pid : ℕ) (t : Topology fs fl)
      → CoresListed (get_per_core_cpu_time_delta fs pid t.proc_tracker) (all_cores fl t.sockets)
      → (core_data : Option (List ℕ × List ℕ × List fl.F)) × (get_process_core_time_data fs fl pid t
          ≡ some core_data)
        × Fits (all_cores fl t.sockets) (shares_of core_data)
  unfolding get_process_core_time_data total_times
  core_data-total pid t h =
      elim (Option-cases (get_per_core_cpu_time_delta fs pid t.proc_tracker)) [
        | inl no_times ↦ (none, rw (get_process_core_time_data, no_times) refl, tt)
        | inr (deltas, times) ↦ elim (Option-cases (get_cpu_time_diff fs fl t)) [
          | inl no_diff ↦ (none, rw (get_process_core_time_data, times, no_diff) refl, tt)
          | inr (diff, found) ↦
              let cores = all_cores fl t.sockets in
              let ns = process_times-total deltas cores (rw times at h) in
              let totals = total_times diff.values cores in
              (
                some (ns.0, totals, core_shares fl ns.0 totals),
                rw (get_process_core_time_data, times, found, ns.1) refl,
                length-core_shares fl ns.0 totals (ns.2 ∙ sym (length-map _ cores))
                    ∙ length-map _ cores,
              )
        ]
      ]

  proportions-fit :
      (core_data : Option (List ℕ × List ℕ × List fl.F)) (pid : ℕ) (t : Topology fs fl)
      → Fits (all_cores fl t.sockets) (shares_of core_data)
      → Fits (all_cores fl t.sockets) (get_process_core_proportions fs fl core_data pid t)
  unfolding get_process_core_proportions
  proportions-fit (some (proc_ns, total_ns, shares)) pid t h = h
  proportions-fit none pid t h =
      elim (Option-cases (get_process_cpu_time_delta_as_percentage fs fl pid t.proc_tracker)) [
        | inl no_usage ↦ rw no_usage tt
        | inr (share, found) ↦
            rw found (length-map (fallback_share fl share) (all_cores fl t.sockets))
      ]

  process_power-total :
      (now : ℕ) (shares : List fl.F) (t : Topology fs fl)
      → length shares ≡ length (all_cores fl t.sockets)
      → (p : fl.F) × (process_power fs fl now shares t ≡ some p)
  unfolding process_power
  process_power-total now shares t e = elim (Option-cases (all_core_powers fl now t.sockets)) [
    | inl no_power ↦ (fl.of_ℕ 0, rw (process_power, no_power) refl)
    | inr (r, found) ↦
        let es =
          shared_powers-total fl r.values shares
            (length-all_core_powers fl now t.sockets r found ∙ sym e) in
        (sum_f64 fl es.0, rw (process_power, found, es.1) refl)
  ]

  power_metrics-total :
      (now timestamp : ℕ) (core_data : Option (List ℕ × List ℕ × List fl.F))
      (shares : Option (List fl.F)) (t : Topology fs fl)
      → Fits (all_cores fl t.sockets) shares
      → (m : ProcessMetrics) × (power_metrics fs fl now timestamp core_data shares t ≡ some m)
  unfolding power_metrics
  power_metrics-total now timestamp core_data none t h = ([], refl)
  power_metrics-total now timestamp core_data (some shares) t h =
      let p = process_power-total now shares t h in (_, bind-some _ p.1 refl)

  -- Where the newest times of the process on the cores, when they are known, have an entry for each core
  -- of the sockets, what is reported of the process is found without a panic: no index is out of range,
  -- whichever sockets report their power and whether the shares are those of the kernel part or not.
  pub get_all_per_process-total :
      (now pid : ℕ) (t : Topology fs fl)
      → CoresListed (get_per_core_cpu_time_delta fs pid t.proc_tracker) (all_cores fl t.sockets)
      → (m : ProcessMetrics) × (get_all_per_process fs fl now pid t ≡ some m)
  unfolding get_all_per_process
  get_all_per_process-total now pid t h =
      elim (Option-cases (get_process_last_record fs pid t.proc_tracker)) [
        | inl no_record ↦ ([], rw (get_all_per_process, no_record) refl)
        | inr (r, found) ↦
            let core_data = core_data-total pid t h in
            let powers =
              power_metrics-total now r.timestamp core_data.0
                (get_process_core_proportions fs fl core_data.0 pid t) t
                (proportions-fit core_data.0 pid t core_data.2) in
            (
              elim (get_process_cpu_time_delta_as_percentage fs fl pid t.proc_tracker) [
                | none ↦ powers.0
                | some p ↦ usage_metrics fs fl r p ++ powers.0
              ],
              rw (get_all_per_process, found) (bind-some _ core_data.1 (bind-some _ powers.1 refl)),
            )
      ]
