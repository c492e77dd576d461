-- ===== src/Exporters/Metrics/Host.antt =====
-- `gen_host_metrics` and `gen_system_metrics`: the energy, power and cores of the host, and its system.
use scaphandre.Topology.Measures
use scaphandre.Base.{
  ℕ, suc, String, Option, none, some, List, [], ◌∷◌, ◌++◌, map, if◌then◌else◌, is_some, last,
}
use scaphandre.Exporters.Metrics.{
  text_value, int_unsigned, Metric, metric_of, metric_if, MetricGenerator, push_all,
}
use scaphandre.Float.{Float}
use scaphandre.Sensor.Measure.{Record, SensorData, lookup, insert}
use scaphandre.Text.{Text, codes, show}
use scaphandre.Topology.{Topology}
use scaphandre.Topology.Measures.{
  get_idle_power_microwatts, get_activation_power_microwatts, get_background_power_microwatts,
  get_records_diff_power_microwatts,
}
use scaphandre.Topology.Shares.{all_core_powers, all_core_coefs, all_core_proportions}
use scaphandre.Topology.System.{
  SystemInfo, ProcessCounts, DiskMetrics, get_disks, get_load_avg, get_cpu_frequency,
  get_total_memory_bytes, get_available_memory_bytes, get_free_memory_bytes, get_total_swap_bytes,
  get_free_swap_bytes, read_nb_process_total_count, read_nb_process_running_current,
  read_nb_process_blocked_current, read_nb_context_switches_total_count,
}

-- A metric for each value, with the number of its core
unfoldable pub core_id_metrics : Text → String → ℕ → Text → ℕ → List Text → List Metric
core_id_metrics hostname name timestamp description id [] = []
core_id_metrics hostname name timestamp description id (value ∷ values) =
    metric_of hostname name "gauge" timestamp (insert "core_id" (show id) []) description
      (text_value value)
    ∷ core_id_metrics hostname name timestamp description (suc id) values

unfoldable pub value_source : SensorData → SensorData
value_source sensor_data =
    if is_some (lookup "psys" sensor_data)
    then insert "value_source" (codes "powercap_rapl_psys") []
    else (if is_some (lookup "source_file" sensor_data)
        then insert "value_source" (codes "powercap_rapl_pkg") []
        else (if is_some (lookup "DRIVER_NAME" sensor_data)
            then insert "value_source" (codes "scaphandredrv_rapl_pkg") []
            else []))

unfoldable pub disk_metrics : Text → DiskMetrics → List Metric
disk_metrics hostname [] = []
disk_metrics hostname ((name, (description, attributes, r)) ∷ entries) =
    metric_of hostname name "gauge" r.timestamp attributes description (text_value r.value)
    ∷ disk_metrics hostname entries

unfoldable pub count_if : Option ℕ → Text → String → String → ℕ → Text → List Metric
count_if none hostname name metric_type timestamp description = []
count_if (some n) hostname name metric_type timestamp description =
    metric_of hostname name metric_type timestamp [] description (int_unsigned n) ∷ []

abbrev gauge : Text → String → Record → Text → Metric
gauge hostname name r description =
    metric_of hostname name "gauge" r.timestamp [] description (text_value r.value)

module _ (fs fl : Float) (now : ℕ) where
  -- The metrics of the cores of the host
  unfoldable pub cores_metrics : Text → Topology fs fl → List Metric
  cores_metrics hostname t =
      elim (all_core_powers fl now t.sockets) [
        | none ↦ []
        | some cores ↦
            core_id_metrics hostname "scaph_host_core_power_microwatts" cores.timestamp
              (codes "Per-core power consumption in microwatts") 0 cores.values
      ]
      ++ core_id_metrics hostname "scaph_host_core_coefficient" now
          (codes "Per-core IPC/frequency coefficient used for power attribution") 0
          (map fl.show_f64 (all_core_coefs fl t.sockets))
      ++ core_id_metrics hostname "scaph_host_core_proportion" now
          (codes "Per-core proportion of total power attributed to this core (0.0–1.0)") 0
          (map fl.show_f64 (all_core_proportions fl t.sockets))

  -- The metrics that are there with a record of the host
  unfoldable pub energy_metrics : Text → Topology fs fl → List Metric
  energy_metrics hostname t = elim (last t.record_buffer) [
    | none ↦ []
    | some r ↦
        metric_if (some r) hostname "scaph_host_energy_microjoules" "counter"
          (value_source t.sensor_data)
          (codes
            "Energy measurement for the whole host, as extracted from the sensor, in microjoules.")
        ++ metric_if (Measures.get_records_diff_power_microwatts fs fl now t) hostname
            "scaph_host_power_microwatts" "gauge" (value_source t.sensor_data)
            (codes "Active power measurement on the whole host, in microwatts")
        ++ metric_if (Measures.get_idle_power_microwatts fs fl now t) hostname
            "scaph_host_idle_power_microwatts" "gauge" []
            (codes "Idle power measurement for the whole host, in microwatts")
        ++ metric_if (Measures.get_activation_power_microwatts fs fl now t) hostname
            "scaph_host_activation_power_microwatts" "gauge" []
            (codes "Activation power measurement for the whole host, in microwatts")
        ++ metric_if (Measures.get_background_power_microwatts fs fl now t) hostname
            "scaph_host_background_power_microwatts" "gauge" []
            (codes
              "Background power (max of idle and activation) for the whole host, in microwatts")
        ++ cores_metrics hostname t
  ]

  -- The averages of one, five and fifteen minutes
  unfoldable pub load_metrics : Text → List Record → List Metric
  load_metrics hostname (one ∷ five ∷ fifteen ∷ []) =
      gauge hostname "scaph_host_load_avg_one" one (codes "Load average on 1 minute.")
      ∷ gauge hostname "scaph_host_load_avg_five" five (codes "Load average on 5 minutes.")
      ∷ gauge hostname "scaph_host_load_avg_fifteen" fifteen (codes "Load average on 15 minutes.")
      ∷ []
  load_metrics hostname _ = []

  unfoldable pub memory_metrics : Text → SystemInfo fl → List Metric
  memory_metrics hostname info =
      gauge hostname "scaph_host_memory_total_bytes" (get_total_memory_bytes now info)
        (codes "Random Access Memory installed on the host, in bytes.")
      ∷ gauge hostname "scaph_host_memory_available_bytes" (get_available_memory_bytes now info)
          (codes "Random Access Memory available to be re-used on the host, in bytes.")
      ∷ gauge hostname "scaph_host_memory_free_bytes" (get_free_memory_bytes now info)
          (codes "Random Access Memory free to be used (not reused) on the host, in bytes.")
      ∷ gauge hostname "scaph_host_swap_free_bytes" (get_free_swap_bytes now info)
          (codes "Swap space free to be used on the host, in bytes.")
      ∷ gauge hostname "scaph_host_swap_total_bytes" (get_total_swap_bytes now info)
          (codes "Total swap space on the host, in bytes.")
      ∷ []

  -- `gen_host_metrics`
  unfoldable pub gen_host_metrics : SystemInfo fl → MetricGenerator fs fl → MetricGenerator fs fl
  gen_host_metrics info g =
      let frequency = get_cpu_frequency now info in
      push_all fs fl
        (energy_metrics g.hostname g.topology
          ++ load_metrics g.hostname (get_load_avg now info)
          ++ gauge g.hostname "scaph_host_cpu_frequency" frequency
              (codes "Global frequency of all the cpus. In MegaHertz")
            ∷ disk_metrics g.hostname (get_disks now info.disks)
          ++ memory_metrics g.hostname info)
        g

  -- `gen_system_metrics`, with the counts in /proc/stat where it can be read
  unfoldable pub gen_system_metrics :
      Option ProcessCounts → MetricGenerator fs fl → MetricGenerator fs fl
  gen_system_metrics counts g =
      push_all fs fl
        (count_if (read_nb_process_total_count counts) g.hostname "scaph_forks_since_boot_total"
            "counter" now
            (codes
              "Number of forks that have occured since boot (number of processes to have existed so far).")
          ++ count_if (read_nb_process_running_current counts) g.hostname
              "scaph_processes_running_current" "gauge" now
              (codes "Number of processes currently running.")
          ++ count_if (read_nb_process_blocked_current counts) g.hostname
              "scaph_processes_blocked_current" "gauge" now
              (codes "Number of processes currently blocked waiting for I/O.")
          ++ count_if (read_nb_context_switches_total_count counts) g.hostname
              "scaph_context_switches_total" "counter" now
              (codes "Number of context switches since boot."))
        g
