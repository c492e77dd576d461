-- ===== src/Exporters/Metrics/Processes.antt =====
-- `gen_process_metrics`, for the processes that are alive.
use scaphandre.Base.{
  ℕ, Bool, true, false, Option, none, some, List, [], ◌∷◌, ◌++◌, map_option, ◌>>=◌,
}
use scaphandre.Exporters.{filter_cmdline, filter_qemu_cmdline}
use scaphandre.Exporters.Metrics.{text_value, Metric, metric_of, MetricGenerator, push_all}
use scaphandre.Float.{Float}
use scaphandre.Sensor.Measure.{SensorData, insert}
use scaphandre.Text.{Text, codes, show}
use scaphandre.Topology.Attribution.{ProcessMetrics, get_all_per_process}
use scaphandre.Tracker.{get_process_name}
use scaphandre.Tracker.Alive.{get_alive_pids, get_process_cmdline}
use scaphandre.Tracker.Cleaning.{ProcessStatus}

-- A metric for each entry of the map
unfoldable pub entry_metrics : Text → SensorData → ProcessMetrics → List Metric
entry_metrics hostname attributes [] = []
entry_metrics hostname attributes ((name, description, r) ∷ entries) =
    metric_of hostname name "gauge" r.timestamp attributes (codes description) (text_value r.value)
    ∷ entry_metrics hostname attributes entries

-- The attribute for a virtual machine, where the generator watches for them; `none` is a panic
unfoldable pub add_vmname : Bool → Text → SensorData → Option SensorData
add_vmname false cmdline attributes = some attributes
add_vmname true cmdline attributes =
    map_option
      (λ (found : Option Text). elim found [
        | none ↦ attributes
        | some vmname ↦ insert "vmname" vmname attributes
      ])
      (filter_qemu_cmdline cmdline)

unfoldable pub add_cmdline : Bool → Option Text → SensorData → Option SensorData
add_cmdline qemu none attributes = some attributes
add_cmdline qemu (some cmdline) attributes =
    add_vmname qemu cmdline (insert "cmdline" (filter_cmdline cmdline) attributes)

module _ (fs fl : Float) (cmdline_of : ℕ → Option (List Text)) (now : ℕ) where
  -- One round of the loop: the metrics of one process; `none` is a panic
  unfoldable pub process_metrics : MetricGenerator fs fl → ℕ → Option (List Metric)
  process_metrics g pid = do
    exe ← get_process_name fs pid g.topology.proc_tracker
    cmdline ← get_process_cmdline fs cmdline_of pid g.topology.proc_tracker
    attributes ← add_cmdline g.qemu cmdline (insert "exe" (codes exe) (insert "pid" (show pid) []))
    metrics ← get_all_per_process fs fl now pid g.topology
    some (entry_metrics g.hostname attributes metrics)

  unfoldable pub processes_metrics : MetricGenerator fs fl → List ℕ → Option (List Metric)
  processes_metrics g [] = some []
  processes_metrics g (pid ∷ pids) = do
    first ← process_metrics g pid
    rest ← processes_metrics g pids
    some (first ++ rest)

  -- `gen_process_metrics`, given the status of each process that sysinfo knows; `none` is a panic
  unfoldable pub gen_process_metrics :
      (ℕ → Option ProcessStatus) → MetricGenerator fs fl → Option (MetricGenerator fs fl)
  gen_process_metrics status g =
      map_option (λ metrics. push_all fs fl metrics g)
        (processes_metrics g (get_alive_pids fs status g.topology.proc_tracker))
