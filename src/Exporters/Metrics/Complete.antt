-- ===== src/Exporters/Metrics/Complete.antt =====
-- All metrics are made without a panic.
use mathlib.Core.Path.{subst}
use scaphandre.Base.{
  ℕ, ◌<◌, String, ◌≡◌, refl, sym, ap, ◌∙◌, Option, none, some, List, [], ◌++◌, bind-some,
  map_option, u64_mod,
}
use scaphandre.Exporters.Metrics.{Metric, MetricGenerator, push_all}
use scaphandre.Exporters.Metrics.All.{MetricHost, gen_all_metrics}
use scaphandre.Exporters.Metrics.Host.{gen_host_metrics, gen_system_metrics}
use scaphandre.Exporters.Metrics.Own.{number_metric, gen_self_metrics}
use scaphandre.Exporters.Metrics.Popped.{append_assoc}
use scaphandre.Exporters.Metrics.Sockets.{gen_socket_metrics}
use scaphandre.Exporters.Metrics.Total.{AllCoresListed, gen_process_metrics-total}
use scaphandre.Float.{Float}
use scaphandre.Sensor.Measure.{new_record}
use scaphandre.Text.{Text, show}
use scaphandre.Text.RoundTrip.{parse-show}
use scaphandre.Topology.Usage.{get_process_memory_virtual_bytes, get_process_memory_bytes}
use scaphandre.Tracker.{get_process_last_record}
use scaphandre.Tracker.Alive.{get_alive_pids}
use scaphandre.Tracker.Created.{SystemProcess, IsNamed, myself-IsNamed}
use scaphandre.Tracker.Process.{IProcess, ProcessRecord}
use scaphandre.Tracker.Valid.{IsValid}
use scaphandre.Units.{bytes}

append_five {ℓ} :
    {A : Type ℓ} (x a b c d e : List A)
    → ((((x ++ a) ++ b) ++ c) ++ d) ++ e ≡ x ++ (a ++ (b ++ (c ++ (d ++ e))))
append_five x a b c d e =
    append_assoc (((x ++ a) ++ b) ++ c) d e
    ∙ append_assoc ((x ++ a) ++ b) c (d ++ e)
    ∙ append_assoc (x ++ a) b (c ++ (d ++ e))
    ∙ append_assoc x a (b ++ (c ++ (d ++ e)))

module _ {fs : Float} where
  -- What is kept of a process is a number of 64 bits.
  abbrev pub FitsValue : (IProcess fs → ℕ) → Option (ProcessRecord fs) → Type 0
  FitsValue value none = Unit
  FitsValue value (some r) = value r.process < u64_mod

  abbrev pub FitsMemory : Option (ProcessRecord fs) → Type 0
  FitsMemory r = FitsValue IProcess.memory r × FitsValue IProcess.virtual_memory r

  number_metric-total :
      (value : IProcess fs → ℕ) (r : Option (ProcessRecord fs)) (hostname : Text) (name : String)
      (timestamp : ℕ) (description : Text)
      → FitsValue value r
      → (ms : List Metric) × (number_metric
            (map_option
              (λ (x : ProcessRecord fs). new_record x.timestamp (show (value x.process)) bytes)
              r)
            hostname
            name
            timestamp
            description
          ≡ some ms)
  unfolding number_metric
  number_metric-total value none hostname name timestamp description h = ([], refl)
  number_metric-total value (some r) hostname name timestamp description h =
      (_, ap (map_option _) (parse-show u64_mod (value r.process) h))

module _ (fs fl : Float) (host : MetricHost fs fl) where
  gen_self_metrics-total :
      (p : SystemProcess fs) (g : MetricGenerator fs fl)
      → host.sys.process host.own_pid ≡ some p
      → IsNamed p
      → FitsMemory (get_process_last_record fs p.pid g.topology.proc_tracker)
      → (ms : List Metric) × (gen_self_metrics fs fl host.now host.sys host.core_times_map
            host.version host.own_pid g
          ≡ some (push_all fs fl ms g))
  unfolding gen_self_metrics get_process_memory_virtual_bytes get_process_memory_bytes
  gen_self_metrics-total p g known named h =
      let me = myself-IsNamed host.sys host.core_times_map host.own_pid p known named in
      let r = get_process_last_record fs me.0.pid g.topology.proc_tracker in
      let fits : FitsMemory r =
        subst (λ pid. FitsMemory (get_process_last_record fs pid g.topology.proc_tracker))
          (sym me.2) h in
      let virtual_bytes =
        number_metric-total IProcess.virtual_memory r g.hostname _ host.now _ fits.1 in
      let resident_bytes = number_metric-total IProcess.memory r g.hostname _ host.now _ fits.0 in
      (_, bind-some _ me.1 (bind-some _ virtual_bytes.1 (bind-some _ resident_bytes.1 refl)))

  -- Where the tracker is valid, sysinfo knows the process of the program itself and the path of its
  -- program is Unicode, the memory of it that is tracked fits in 64 bits, and the times of each process
  -- that is alive have an entry for every core, where they are known, all metrics are made without a
  -- panic, whatever /proc/stat and the files say, and are pushed behind those of before; the topology
  -- stays as it is.
  pub gen_all_metrics-total :
      (before : ℕ) (p : SystemProcess fs) (g : MetricGenerator fs fl)
      → IsValid before g.topology.proc_tracker
      → host.sys.process host.own_pid ≡ some p
      → IsNamed p
      → FitsMemory (get_process_last_record fs p.pid g.topology.proc_tracker)
      → AllCoresListed fs fl host.cmdline host.now g.topology
          (get_alive_pids fs host.status g.topology.proc_tracker)
      → (metrics : List Metric) × (gen_all_metrics fs fl host g ≡ some (push_all fs fl metrics g))
  unfolding gen_all_metrics gen_host_metrics gen_socket_metrics gen_system_metrics
  gen_all_metrics-total before p g v known named m c =
      let own = gen_self_metrics-total p g known named m in
      let of_host = gen_host_metrics fs fl host.now host.info (push_all fs fl own.0 g) in
      let of_sockets = gen_socket_metrics fs fl host.files host.now of_host in
      let of_system = gen_system_metrics fs fl host.now host.counts of_sockets in
      let of_processes =
        gen_process_metrics-total fs fl host.cmdline host.now host.status before of_system v c in
      (
        _,
        bind-some _ own.1 (
            of_processes.1
            ∙ ap (λ (l : List Metric). some (record g { data_pushed = l }))
                (append_five g.data_pushed own.0 _ _ _ of_processes.0)),
      )
