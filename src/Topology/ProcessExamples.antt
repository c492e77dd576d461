-- ===== src/Topology/ProcessExamples.antt =====
-- The attribution of power at a concrete host: one socket with two cores, and one process with its times.
use scaphandre.Base.{ℕ, ◌≡◌, refl, none, some, List, [], ◌∷◌}
use scaphandre.Base.Sorting.{insert_by_key, sort_by_key}
use scaphandre.Float.Fractions.{fractions}
use scaphandre.Sensor.Core.{CpuCore, new_core, clone_core}
use scaphandre.Sensor.Measure.{MultiValuedRecord, new_multi_record, same_text}
use scaphandre.Sensor.Socket.{CpuSocket, new_socket}
use scaphandre.Text.{show, parse_nonempty, parse_unsigned}
use scaphandre.Topology.{Topology, new_topology}
use scaphandre.Topology.Attribution.{
  ProcessMetrics, process_times, total_times, core_share, core_shares, get_process_core_time_data,
  get_all_per_process,
}
use scaphandre.Topology.CpuTime.{cpu_delta, cpu_deltas, get_cpu_time_diff}
use scaphandre.Topology.PerProcess.{CoresListed, get_all_per_process-total}
use scaphandre.Topology.Shares.{socket_cores, cores_of, all_cores}
use scaphandre.Tracker.{find_from, find_records, core_deltas, get_per_core_cpu_time_delta}
use scaphandre.Tracker.Process.{IProcess}
use scaphandre.Units.{numeric}

abbrev core : ℕ → CpuCore
core id = new_core id [] none none

abbrev process : List ℕ → IProcess fractions
process core_times = record {
  pid = 42;
  owner = 0;
  comm = "worker";
  cmdline = [];
  cpu_busy_time = 0;
  node_busy_time = 0;
  core_busy_times = some core_times;
  cpu_usage_percentage = (0, 1);
  virtual_memory = 0;
  memory = 0;
  disk_read = 0;
  disk_written = 0;
  total_disk_read = 0;
  total_disk_written = 0;
  stime = 0;
  utime = 0;
}

abbrev socket : CpuSocket fractions
socket = record (new_socket fractions 0 [] [] [] 1 []) { cpu_cores = core 1 ∷ core 0 ∷ [] }

abbrev times : ℕ → ℕ → MultiValuedRecord
times a b = new_multi_record 1 (show a ∷ show b ∷ []) (numeric ∷ numeric ∷ [])

abbrev pub host : Topology fractions fractions
host = record (new_topology fractions fractions 2 []) {
  sockets = socket ∷ [];
  proc_tracker = record {
    procs =
        (record { process = process (40 ∷ 70 ∷ []); timestamp = 2 }
          ∷ record { process = process (10 ∷ 20 ∷ []); timestamp = 1 }
          ∷ [])
        ∷ [];
    nb_cores = 2;
    max_records_per_process = 5;
  };
  cpu_time_buffer = times 100 100 ∷ times 160 140 ∷ [];
}

-- The shares of 30 of 60 and of 50 of 40, which counts as 1
shares :
    get_process_core_time_data fractions fractions 42 host
    ≡ some (some (30 ∷ 50 ∷ [], 60 ∷ 40 ∷ [], (30, 60) ∷ (1, 1) ∷ []))
unfolding get_process_core_time_data get_per_core_cpu_time_delta find_records find_from
    get_cpu_time_diff cpu_deltas same_text show cpu_delta parse_unsigned parse_nonempty
    process_times all_cores sort_by_key cores_of socket_cores clone_core new_core insert_by_key
    core_share core_shares total_times core_deltas
shares = refl

cores_listed :
    CoresListed
      (get_per_core_cpu_time_delta fractions 42 host.proc_tracker)
      (all_cores fractions host.sockets)
unfolding get_per_core_cpu_time_delta find_records find_from all_cores sort_by_key cores_of
    socket_cores clone_core new_core insert_by_key core_deltas
cores_listed = ((30, refl), ((50, refl), tt))

get_all_per_process-total_example :
    (m : ProcessMetrics) × (get_all_per_process fractions fractions 3 42 host ≡ some m)
get_all_per_process-total_example =
    get_all_per_process-total fractions fractions 3 42 host cores_listed
