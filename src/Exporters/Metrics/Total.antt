-- ===== src/Exporters/Metrics/Total.antt =====
-- The metrics of the processes are made without a panic.
use mathlib.Core.Path.{subst}
use mathlib.Core.Bool.{true≢false}
use scaphandre.Base.{
  ℕ, ◌≡◌, refl, sym, ap, inl, inr, Bool, true, false, Option, none, some, List, [], ◌∷◌, ◌++◌, ◌==◌,
  eqb_refl, eqb→eq, Bool-cases, bind-some, map_option, any,
}
use scaphandre.Exporters.Guest.{filter_qemu_cmdline-IsGuestName}
use scaphandre.Exporters.Metrics.{Metric, MetricGenerator, push_all}
use scaphandre.Exporters.Metrics.Processes.{
  entry_metrics, add_vmname, add_cmdline, process_metrics, processes_metrics, gen_process_metrics,
}
use scaphandre.Float.{Float}
use scaphandre.Sensor.Measure.{SensorData, insert}
use scaphandre.Text.{Text, codes, show}
use scaphandre.Text.Pieces.{or-first, or-second}
use scaphandre.Topology.{Topology}
use scaphandre.Topology.PerProcess.{CoresListed, get_all_per_process-total}
use scaphandre.Topology.Shares.{all_cores}
use scaphandre.Tracker.{
  Records, tracks, pids_of, filter_tracking, name_of, get_process_name, get_per_core_cpu_time_delta,
}
use scaphandre.Tracker.Alive.{
  concat, is_alive, filter_alive, get_alive_processes, get_alive_pids, first_cmdline,
  get_process_cmdline,
}
use scaphandre.Tracker.Cleaning.{ProcessStatus}
use scaphandre.Tracker.Names.{filter_tracking-absent}
use scaphandre.Tracker.Process.{ProcessRecord}
use scaphandre.Tracker.Valid.{IsAbsent, IsUnique, IsValid}

module _ {fs : Float} where
  -- The pids are of tracked processes.
  abbrev AllTracked : List (Records fs) → List ℕ → Type 0
  AllTracked vs [] = Unit
  AllTracked vs (pid ∷ pids) = (any (tracks fs pid) vs ≡ true) × AllTracked vs pids

  later-AllTracked :
      (v : Records fs) (vs : List (Records fs)) (pids : List ℕ)
      → AllTracked vs pids
      → AllTracked (v ∷ vs) pids
  later-AllTracked v vs [] h = tt
  later-AllTracked v vs (pid ∷ pids) h =
      (or-second (tracks fs pid v) _ h.0, later-AllTracked v vs pids h.1)

  filter_alive-AllTracked :
      (status : ℕ → Option ProcessStatus) (vs : List (Records fs))
      → AllTracked vs (pids_of fs (filter_alive fs status vs))
  unfolding filter_alive pids_of
  filter_alive-AllTracked status [] = tt
  filter_alive-AllTracked status ([] ∷ vs) =
      later-AllTracked [] vs _ (filter_alive-AllTracked status vs)
  filter_alive-AllTracked status ((r ∷ rs) ∷ vs) =
      let rest = later-AllTracked (r ∷ rs) vs _ (filter_alive-AllTracked status vs) in
      elim (Bool-cases (is_alive fs status (r ∷ rs))) [
        | inl alive ↦
            rw alive (or-first (r.process.pid == r.process.pid) _ (eqb_refl r.process.pid), rest)
        | inr gone ↦ rw gone rest
      ]

  -- In vectors of different pids, the one of a tracked pid is found alone.
  filter_tracking-alone :
      (pid : ℕ) (vs : List (Records fs))
      → IsUnique vs
      → any (tracks fs pid) vs ≡ true
      → (r : ProcessRecord fs) × (rs : Records fs) × (filter_tracking fs pid vs ≡ (r ∷ rs) ∷ [])
  unfolding filter_tracking
  filter_tracking-alone pid [] u h = absurd (true≢false (sym h))
  filter_tracking-alone pid ([] ∷ vs) u h = filter_tracking-alone pid vs u h
  filter_tracking-alone pid ((x ∷ xs) ∷ vs) u h = elim (Bool-cases (x.process.pid == pid)) [
    | inl same ↦
        let a = subst (λ p. IsAbsent p vs) (eqb→eq x.process.pid pid same) u.0 in
        (x, xs, rw same (ap (λ l. (x ∷ xs) ∷ l) (filter_tracking-absent pid vs a)))
    | inr other ↦
        let rest = filter_tracking-alone pid vs u.1 (rw other at h) in
        (rest.0, rest.1, rw other rest.2)
  ]

add_cmdline-total :
    (qemu : Bool) (cmdline : Option Text) (attributes : SensorData)
    → (result : SensorData) × (add_cmdline qemu cmdline attributes ≡ some result)
unfolding add_cmdline add_vmname
add_cmdline-total qemu none attributes = (attributes, refl)
add_cmdline-total false (some cmdline) attributes = (_, refl)
add_cmdline-total true (some cmdline) attributes =
    let found = filter_qemu_cmdline-IsGuestName cmdline in (_, ap (map_option _) found.1)

module _ (fs fl : Float) (cmdline_of : ℕ → Option (List Text)) (now : ℕ) where
  -- The times of each process on the cores have an entry for each core, where there are any.
  abbrev pub AllCoresListed : Topology fs fl → List ℕ → Type 0
  AllCoresListed t [] = Unit
  AllCoresListed t (pid ∷ pids) =
      CoresListed (get_per_core_cpu_time_delta fs pid t.proc_tracker) (all_cores fl t.sockets)
      × AllCoresListed t pids

  process_metrics-total :
      (g : MetricGenerator fs fl) (pid : ℕ)
      → IsUnique g.topology.proc_tracker.procs
      → any (tracks fs pid) g.topology.proc_tracker.procs ≡ true
      → CoresListed
          (get_per_core_cpu_time_delta fs pid g.topology.proc_tracker)
          (all_cores fl g.topology.sockets)
      → (metrics : List Metric) × (process_metrics fs fl cmdline_of now g pid ≡ some metrics)
  unfolding process_metrics get_process_name name_of get_process_cmdline first_cmdline
  process_metrics-total g pid u h c =
      let alone = filter_tracking-alone pid g.topology.proc_tracker.procs u h in
      let cmdline = map_option concat (cmdline_of alone.0.process.pid) in
      let attributes =
        add_cmdline-total g.qemu cmdline
          (insert "exe" (codes alone.0.process.comm) (insert "pid" (show pid) [])) in
      let values = get_all_per_process-total fs fl now pid g.topology c in
      (
        entry_metrics g.hostname attributes.0 values.0,
        bind-some _ (ap (name_of fs) alone.2) (
            bind-some _ (ap (first_cmdline fs cmdline_of) alone.2)
              (bind-some _ attributes.1 (bind-some _ values.1 refl))),
      )

  processes_metrics-total :
      (g : MetricGenerator fs fl) (pids : List ℕ)
      → IsUnique g.topology.proc_tracker.procs
      → AllTracked g.topology.proc_tracker.procs pids
      → AllCoresListed g.topology pids
      → (metrics : List Metric) × (processes_metrics fs fl cmdline_of now g pids ≡ some metrics)
  unfolding processes_metrics
  processes_metrics-total g [] u h c = ([], refl)
  processes_metrics-total g (pid ∷ pids) u h c =
      let first = process_metrics-total g pid u h.0 c.0 in
      let rest = processes_metrics-total g pids u h.1 c.1 in
      (first.0 ++ rest.0, bind-some _ first.1 (bind-some _ rest.1 refl))

  -- Where the tracker is valid and the times of each process that is alive have an entry for every
  -- core, the metrics of all processes are made without a panic, whatever sysinfo says of them, and are
  -- pushed behind the metrics of before.
  pub gen_process_metrics-total :
      (status : ℕ → Option ProcessStatus) (before : ℕ) (g : MetricGenerator fs fl)
      → IsValid before g.topology.proc_tracker
      → AllCoresListed g.topology (get_alive_pids fs status g.topology.proc_tracker)
      → (metrics : List Metric) × (gen_process_metrics fs fl cmdline_of now status g
          ≡ some (push_all fs fl metrics g))
  unfolding gen_process_metrics get_alive_pids get_alive_processes
  gen_process_metrics-total status before g v c =
      let made =
        processes_metrics-total g (get_alive_pids fs status g.topology.proc_tracker) v.unique
          (filter_alive-AllTracked status g.topology.proc_tracker.procs) c in
      (made.0, ap (map_option _) made.1)
