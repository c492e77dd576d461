-- ===== src/Exporters/MetricsExamples.antt =====
-- The theorems on the metrics at a concrete generator.
use scaphandre.Topology.ProcessExamples
use scaphandre.Base.{
  ℕ, String, ◌≡◌, refl, true, Option, none, some, List, [], ◌∷◌, ◌++◌, map, arith,
}
use scaphandre.Base.Sorting.{insert_by_key, sort_by_key}
use scaphandre.Exporters.Json.{DiskReport, parse_bool, is_removable_of, gen_disks_report}
use scaphandre.Exporters.Json.Disks.{
  names_of_disks, DiskNames, no_disk_metrics, disk_metric, EachOnce, gen_disks_report-EachOnce,
}
use scaphandre.Exporters.Json.OneSocket.{with_id, all_sockets-with_id}
use scaphandre.Exporters.Json.Sockets.{label_id, first_socket_power, all_sockets}
use scaphandre.Exporters.Metrics.{int_unsigned, Metric, metric_of, MetricGenerator, push_all}
use scaphandre.Exporters.Metrics.All.{MetricHost, gen_all_metrics}
use scaphandre.Exporters.Metrics.Complete.{FitsMemory, gen_all_metrics-total}
use scaphandre.Exporters.Metrics.Labels.{Grouped, gen_socket_metrics-Grouped}
use scaphandre.Exporters.Metrics.Sockets.{gen_socket_metrics}
use scaphandre.Exporters.Metrics.Total.{AllCoresListed}
use scaphandre.Float.Fractions.{fractions}
use scaphandre.Sensor.Core.{new_core, clone_core}
use scaphandre.Sensor.Measure.{same_text, lookup}
use scaphandre.Sensor.Socket.{CpuSocket}
use scaphandre.Text.{Text, codes, parse_nonempty, parse_unsigned}
use scaphandre.Topology.Shares.{socket_cores, cores_of, all_cores}
use scaphandre.Tracker.{
  find_from, find_records, get_process_last_record, pids_of, core_deltas,
  get_per_core_cpu_time_delta,
}
use scaphandre.Tracker.Alive.{filter_alive, get_alive_processes, get_alive_pids}
use scaphandre.Tracker.Cleaning.{ProcessStatus, idle}
use scaphandre.Tracker.Created.{SystemProcess}
use scaphandre.Tracker.Valid.{IsValid}

abbrev generator : MetricGenerator fractions fractions
generator = record {
  data_pushed = [];
  topology = ProcessExamples.host;
  hostname = codes "node";
  qemu = true;
}

abbrev status : ℕ → Option ProcessStatus
status pid = some idle

abbrev cmdline_of : ℕ → Option (List Text)
cmdline_of pid = some (codes "worker" ∷ [])

tracker-IsValid : IsValid 2 ProcessExamples.host.proc_tracker
tracker-IsValid = record {
  positive = omega arith;
  kept = (((omega arith, tt), omega arith, omega arith, (refl, tt)), tt);
  unique = (tt, tt);
}

alive_listed :
    AllCoresListed fractions fractions cmdline_of 3 ProcessExamples.host
      (get_alive_pids fractions status ProcessExamples.host.proc_tracker)
unfolding get_alive_pids get_alive_processes filter_alive pids_of get_per_core_cpu_time_delta
    find_records find_from all_cores sort_by_key cores_of socket_cores clone_core new_core
    insert_by_key core_deltas
alive_listed = (((30, refl), ((50, refl), tt)), tt)

abbrev own_process : SystemProcess fractions
own_process = record {
  pid = 42;
  exe = some "worker";
  cmd = [];
  cpu_usage = (5, 1);
  memory = 0;
  virtual_memory = 0;
  read_bytes = 0;
  written_bytes = 0;
  total_read_bytes = 0;
  total_written_bytes = 0;
}

abbrev metric_host : MetricHost fractions fractions
metric_host = record {
  now = 3;
  files = λ path. none;
  info = record {
    load_one = fractions.of_ℕ 1;
    load_five = fractions.of_ℕ 2;
    frequency = 2000;
    disks = [];
    total_memory = 8;
    available_memory = 4;
    free_memory = 2;
    total_swap = 1;
    free_swap = 0;
  };
  counts = none;
  version = codes "1";
  own_pid = 42;
  sys = record {
    global_usage = (10, 1);
    process = λ pid. some own_process;
    stat = λ pid. some (3, 4);
    total = none;
  };
  core_times_map = none;
  status = status;
  cmdline = cmdline_of;
}

own_memory : FitsMemory (get_process_last_record fractions 42 ProcessExamples.host.proc_tracker)
unfolding get_process_last_record find_records find_from
own_memory = (omega arith, omega arith)

gen_all_metrics-total_example :
    (metrics : List Metric) × (gen_all_metrics fractions fractions metric_host generator
      ≡ some (push_all fractions fractions metrics generator))
gen_all_metrics-total_example =
    gen_all_metrics-total fractions fractions metric_host 2 own_process generator tracker-IsValid
      refl (_, refl) own_memory alive_listed

gen_socket_metrics-Grouped_example :
    (metrics : List Metric) × (gen_socket_metrics fractions fractions (λ path. none) 3 generator
      ≡ push_all fractions fractions metrics generator)
    × Grouped (codes "node") ProcessExamples.host.sockets metrics
gen_socket_metrics-Grouped_example = gen_socket_metrics-Grouped (λ path. none) 3 generator

abbrev up : Metric
up = metric_of (codes "node") "up" "gauge" 1 [] [] (int_unsigned 1)

abbrev disk_metric_of : Text → String → Metric
disk_metric_of disk name =
    metric_of (codes "node") name "gauge" 1
      (("disk_name", disk) ∷ ("disk_is_removable", codes "true") ∷ []) [] (int_unsigned 40)

abbrev disk_metrics_of_two : List Metric
disk_metrics_of_two =
    disk_metric_of (codes "sda") "scaph_host_disk_total_bytes"
    ∷ disk_metric_of (codes "sdb") "scaph_host_disk_total_bytes"
    ∷ disk_metric_of (codes "sda") "scaph_host_disk_available_bytes"
    ∷ []

two-DiskNames : DiskNames disk_metrics_of_two (codes "sda" ∷ codes "sdb" ∷ codes "sda" ∷ [])
unfolding lookup is_removable_of parse_bool same_text
two-DiskNames =
    disk_metric _ _ _ _ true refl refl
      (disk_metric _ _ _ _ true refl refl (disk_metric _ _ _ _ true refl refl no_disk_metrics))

gen_disks_report-EachOnce_example :
    (report : List DiskReport) × (gen_disks_report disk_metrics_of_two ≡ some report)
    × EachOnce (codes "sda" ∷ codes "sdb" ∷ codes "sda" ∷ []) (names_of_disks report)
gen_disks_report-EachOnce_example = gen_disks_report-EachOnce disk_metrics_of_two _ two-DiskNames

abbrev socket_power : Metric
socket_power =
    metric_of (codes "node") "scaph_socket_power_microwatts" "gauge" 1
      (("socket_id", codes "4") ∷ []) [] (int_unsigned 900)

abbrev two_sockets : List (CpuSocket fractions)
two_sockets =
    map (λ (s : CpuSocket fractions). record s { id = 4 }) ProcessExamples.host.sockets
    ++ ProcessExamples.host.sockets

all_sockets-with_id_example :
    all_sockets fractions fractions (λ x. x) (up ∷ socket_power ∷ []) two_sockets
    ≡ all_sockets fractions fractions (λ x. x) (up ∷ socket_power ∷ []) (with_id 4 two_sockets)
unfolding first_socket_power label_id lookup parse_unsigned parse_nonempty
all_sockets-with_id_example =
    all_sockets-with_id (λ x. x) socket_power (up ∷ socket_power ∷ []) 4 two_sockets refl refl
