-- ===== src/Topology/Refresh.antt =====
-- `refresh` of the topology: every socket, domain and core, the processes, and the host, in the order
-- of the code.
use scaphandre.Sensor.Core
use scaphandre.Sensor.Domain
use scaphandre.Sensor.Socket
use scaphandre.Base.{ℕ, Option, none, some, List, [], ◌∷◌, map, ◌>>=◌}
use scaphandre.Buffer.{clean_old_stats}
use scaphandre.Float.{Float}
use scaphandre.Sensor.Core.{CoreHost, CpuCore}
use scaphandre.Sensor.Domain.{Layout, Domain}
use scaphandre.Sensor.Event.{CpuStateEvent}
use scaphandre.Sensor.Measure.{Files}
use scaphandre.Sensor.Socket.{CpuSocket, distribute_background_to_domains}
use scaphandre.Sensor.Socket.Usage.{refresh_usage}
use scaphandre.Sensor.Stat.{KernelStats}
use scaphandre.Topology.{Topology, refresh_activation_idle_records, collect_events}
use scaphandre.Topology.CpuTime.{refresh_cpu_time_record}
use scaphandre.Topology.Measures.{counted, refresh_record}
use scaphandre.Tracker.{ProcessTracker, add_process_record}
use scaphandre.Tracker.Alive.{get_process_core_times}
use scaphandre.Tracker.Created.{SystemProcess, System, new_process}
use scaphandre.Tracker.Process.{IProcess}

-- What one refresh reads of the host: the clock, the files, the events in the ring buffer where there
-- is one, /proc/stat, what a core samples by its number, the map of CPU times where there is one, what
-- sysinfo and procfs know, with the processes in the order in which sysinfo gives them, and the map of
-- the times of the processes where there is one.
pub record World (fs : Float) : Type 0 where
  pub now : ℕ
  pub files : Files
  pub drained : Option (List CpuStateEvent)
  pub kernel_stats : Option KernelStats
  pub core_host : ℕ → CoreHost
  pub cpu_time_map : Option (ℕ → Option ℕ)
  pub system : System fs
  pub processes : List (SystemProcess fs)
  pub core_times_map : Option (ℕ → Option (List ℕ))

module _ (fs fl : Float) (layout : Layout) (w : World fs) where
  unfoldable pub refresh_domains : List (Domain fl) → Option (List (Domain fl))
  refresh_domains [] = some []
  refresh_domains (d ∷ ds) = do
    first ← Domain.refresh_record fl layout w.files w.now d
    rest ← refresh_domains ds
    some (first ∷ rest)

  -- One round of the loop over the sockets; `none` is a panic
  unfoldable pub refresh_socket : List CpuStateEvent → CpuSocket fl → Option (CpuSocket fl)
  refresh_socket records s = do
    let estimated = Socket.refresh_activation_idle_records fl w.now records s
    let shared = distribute_background_to_domains fl w.now estimated
    measured ← Socket.refresh_record fl layout w.files w.now shared
    counted ← refresh_usage fl layout w.kernel_stats measured
    domains ← refresh_domains counted.domains
    some (record counted { domains = domains })

  unfoldable pub refresh_sockets :
      List (CpuSocket fl) → List (List CpuStateEvent) → Option (List (CpuSocket fl))
  refresh_sockets [] records = some []
  refresh_sockets (s ∷ ss) [] = some (s ∷ ss)
  refresh_sockets (s ∷ ss) (r ∷ rs) = do
    first ← refresh_socket r s
    rest ← refresh_sockets ss rs
    some (first ∷ rest)

  -- `refresh_core_idle_records`
  unfoldable pub refresh_core_idle_records : Topology fs fl → Topology fs fl
  refresh_core_idle_records t = record t {
    sockets =
        map
          (λ (s : CpuSocket fl). record s {
            cpu_cores =
                map (λ (c : CpuCore). Core.refresh_record fl layout (w.core_host c.id) w.now c)
                  s.cpu_cores;
          })
          t.sockets;
  }

  unfoldable pub add_processes : List (IProcess fs) → ProcessTracker fs → ProcessTracker fs
  add_processes [] tracker = tracker
  add_processes (p ∷ ps) tracker = add_processes ps (add_process_record fs w.now p tracker)

  -- The processes that are collected; `none` is the panic of an `unwrap`
  unfoldable pub current_procs : List (SystemProcess fs) → Option (List (IProcess fs))
  current_procs [] = some []
  current_procs (p ∷ ps) = do
    first ← new_process w.system p (get_process_core_times fs w.core_times_map p.pid)
    rest ← current_procs ps
    some (first ∷ rest)

  -- `refresh_procs`; `none` is a panic
  unfoldable pub refresh_procs : Topology fs fl → Option (Topology fs fl)
  refresh_procs t = do
    procs ← current_procs w.processes
    some (record t { proc_tracker = add_processes procs t.proc_tracker })

  -- `refresh_stats`
  unfoldable pub refresh_stats : Topology fs fl → Topology fs fl
  refresh_stats t = elim w.kernel_stats [
    | none ↦ t
    | some stats ↦ record t {
      stat_buffer =
          clean_old_stats layout.stat_size t.buffer_max_kbytes (stats.total ∷ t.stat_buffer);
    }
  ]

  -- `refresh`; `none` is a panic
  unfoldable pub refresh : Topology fs fl → Option (Topology fs fl)
  refresh t = do
    let received = refresh_activation_idle_records fs fl w.drained t
    let idle_records =
        collect_events fs fl (map CpuSocket.id received.sockets) received.activation_idle_buffer
    sockets ← refresh_sockets received.sockets idle_records.0
    let measured = record received { sockets = sockets; activation_idle_buffer = idle_records.1 }
    tracked ← refresh_procs (refresh_core_idle_records measured)
    host ←
        refresh_record fs fl layout w.files w.now
          (refresh_cpu_time_record fs fl layout w.cpu_time_map w.now tracked)
    some (refresh_stats host)
