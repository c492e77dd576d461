-- ===== src/Exporters/Metrics/Own.antt =====
-- `gen_self_metrics`: the metrics of the program itself. The version and the pid of the program
-- are arguments.
use scaphandre.Base.{ℕ, String, Option, none, some, List, [], ◌∷◌, ◌++◌, map_option, length, ◌>>=◌}
use scaphandre.Exporters.Metrics.{
  text_value, int_unsigned, Metric, metric_of, metric_if, MetricGenerator, push_all,
}
use scaphandre.Float.{Float}
use scaphandre.Sensor.Domain.{Domain}
use scaphandre.Sensor.Measure.{Record, SensorData, insert}
use scaphandre.Sensor.Socket.{CpuSocket}
use scaphandre.Text.{Text, codes, show, parse_u64}
use scaphandre.Topology.{Topology}
use scaphandre.Topology.Usage.{
  get_process_cpu_usage_percentage, get_process_memory_virtual_bytes, get_process_memory_bytes,
}
use scaphandre.Tracker.Created.{System, myself}

-- A count, with labels
abbrev count_metric : Text → String → ℕ → SensorData → Text → ℕ → Metric
count_metric hostname name timestamp attributes description n =
    metric_of hostname name "gauge" timestamp attributes description (int_unsigned n)

-- A value that is read as a number: `none` is the panic of `unwrap`
unfoldable pub number_metric : Option Record → Text → String → ℕ → Text → Option (List Metric)
number_metric none hostname name timestamp description = some []
number_metric (some r) hostname name timestamp description =
    map_option (λ n. count_metric hostname name timestamp [] description n ∷ []) (parse_u64 r.value)

module _ {fl : Float} (now : ℕ) (hostname : Text) where
  -- The labels of a domain are added to those of its socket, and the ones of the domain before give way.
  unfoldable pub own_domain_metrics : SensorData → List (Domain fl) → List Metric
  own_domain_metrics attributes [] = []
  own_domain_metrics attributes (d ∷ ds) =
      let labels = insert "rapl_domain_name" d.name attributes in
      count_metric hostname "scaph_self_domain_records_nb" now labels
        (codes "Number of energy consumption Records stored for a Domain") (length d.record_buffer)
      ∷ own_domain_metrics labels ds

  unfoldable pub own_socket_metrics : List (CpuSocket fl) → List Metric
  own_socket_metrics [] = []
  own_socket_metrics (s ∷ ss) =
      let attributes = insert "socket_id" (show s.id) [] in
      count_metric hostname "scaph_self_socket_stats_nb" now attributes
          (codes "Number of CPUStat traces stored for each socket") (length s.stat_buffer)
        ∷ count_metric hostname "scaph_self_socket_records_nb" now attributes
            (codes "Number of energy consumption Records stored for each socket")
            (length s.record_buffer)
        ∷ own_domain_metrics attributes s.domains
      ++ own_socket_metrics ss

module _ (fs fl : Float) (now : ℕ) where
  -- The counts of what the topology stores
  unfoldable pub store_metrics : Text → Topology fs fl → List Metric
  store_metrics hostname t =
      count_metric hostname "scaph_self_topo_stats_nb" now []
        (codes "Number of CPUStat traces stored for the host.") (length t.stat_buffer)
      ∷ count_metric hostname "scaph_self_topo_records_nb" now []
          (codes "Number of energy consumption Records stored for the host.")
          (length t.record_buffer)
      ∷ count_metric hostname "scaph_self_topo_procs_nb" now []
          (codes "Number of processes monitored for the host.") (length t.proc_tracker.procs)
      ∷ own_socket_metrics now hostname t.sockets

  -- `gen_self_metrics`; `none` is a panic
  unfoldable pub gen_self_metrics :
      System fs
      → Option (ℕ → Option (List ℕ))
      → Text
      → ℕ
      → MetricGenerator fs fl
      → Option (MetricGenerator fs fl)
  gen_self_metrics sys core_times_map version own_pid g = do
    me ← myself sys core_times_map own_pid
    let pid = me.pid
    virtual_bytes ←
        number_metric (get_process_memory_virtual_bytes fs fl pid g.topology) g.hostname
          "scaph_self_memory_virtual_bytes" now (codes "Total program size, measured in Bytes.")
    resident_bytes ←
        number_metric (get_process_memory_bytes fs fl pid g.topology) g.hostname
          "scaph_self_memory_bytes" now (codes "Resident set size, measured in bytes.")
    some (
        push_all fs fl
          (metric_of g.hostname "scaph_self_version" "gauge" now []
                (codes "Version number of scaphandre represented as a float.") (text_value version)
              ∷ metric_if (get_process_cpu_usage_percentage fs fl pid g.topology) g.hostname
                  "scaph_self_cpu_usage_percent" "gauge" []
                  (codes "CPU time consumed by scaphandre, as Percentage")
            ++ virtual_bytes
            ++ resident_bytes
            ++ store_metrics g.hostname g.topology)
          g)
