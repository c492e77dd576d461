-- ===== src/Exporters/Metrics/All.antt =====
-- `gen_all_metrics`: all metrics, in the order of the code.
use scaphandre.Base.{ℕ, Option, List, ◌>>=◌}
use scaphandre.Exporters.Metrics.{MetricGenerator}
use scaphandre.Exporters.Metrics.Host.{gen_host_metrics, gen_system_metrics}
use scaphandre.Exporters.Metrics.Own.{gen_self_metrics}
use scaphandre.Exporters.Metrics.Processes.{gen_process_metrics}
use scaphandre.Exporters.Metrics.Sockets.{gen_socket_metrics}
use scaphandre.Float.{Float}
use scaphandre.Sensor.Measure.{Files}
use scaphandre.Text.{Text}
use scaphandre.Topology.System.{SystemInfo, ProcessCounts}
use scaphandre.Tracker.Cleaning.{ProcessStatus}
use scaphandre.Tracker.Created.{System}

-- What the generator reads of the host: the clock, the files, the system, the counts of /proc/stat, the
-- version and the pid of the program, and what sysinfo and the map of the kernel part say of the processes
pub record MetricHost (fs fl : Float) : Type 0 where
  pub now : ℕ
  pub files : Files
  pub info : SystemInfo fl
  pub counts : Option ProcessCounts
  pub version : Text
  pub own_pid : ℕ
  pub sys : System fs
  pub core_times_map : Option (ℕ → Option (List ℕ))
  pub status : ℕ → Option ProcessStatus
  pub cmdline : ℕ → Option (List Text)

module _ (fs fl : Float) (host : MetricHost fs fl) where
  -- `gen_all_metrics`; `none` is a panic
  unfoldable pub gen_all_metrics : MetricGenerator fs fl → Option (MetricGenerator fs fl)
  gen_all_metrics g = do
    own ← gen_self_metrics fs fl host.now host.sys host.core_times_map host.version host.own_pid g
    let of_host = gen_host_metrics fs fl host.now host.info own
    let of_sockets = gen_socket_metrics fs fl host.files host.now of_host
    let of_system = gen_system_metrics fs fl host.now host.counts of_sockets
    gen_process_metrics fs fl host.cmdline host.now host.status of_system
