-- ===== src/Topology/Total.antt =====
-- A refresh of a host whose counters have source files does not panic.
use mathlib.Core.Path.{subst}
use scaphandre.Sensor.Domain
use scaphandre.Sensor.Socket
use scaphandre.Base.{
  ℕ, ◌≤◌, ◌≡◌, refl, sym, ◌∙◌, inl, inr, Option, none, some, List, [], ◌∷◌, map, arith, Bool-cases,
  Option-cases, bind-some, map_option,
}
use scaphandre.Base.Int.{ℤ, pos, add_i128}
use scaphandre.Buffer.{clean_topology_records, refresh_buffer}
use scaphandre.Float.{Float}
use scaphandre.Sensor.Core.{CpuCore}
use scaphandre.Sensor.Domain.{Layout, Domain}
use scaphandre.Sensor.Event.{CpuStateEvent}
use scaphandre.Sensor.Measure.{Record, new_record, same_text}
use scaphandre.Sensor.Socket.{CpuSocket}
use scaphandre.Sensor.Socket.Sources.{AllSourced}
use scaphandre.Text.{codes, show_ℤ}
use scaphandre.Topology.{Topology, refresh_activation_idle_records, collect_events}
use scaphandre.Topology.CpuTime.{refresh_cpu_time_record}
use scaphandre.Topology.Measurable.{AllMeasurable, SocketsSourced, refresh_sockets-total}
use scaphandre.Topology.Measures.{
  get_rapl_psys_energy_microjoules, counted, dram_energy, sockets_energy, read_record,
  refresh_record,
}
use scaphandre.Topology.Refresh.{
  World, refresh_core_idle_records, add_processes, current_procs, refresh_procs, refresh_stats,
  refresh,
}
use scaphandre.Tracker.{ProcessTracker, add_process_record}
use scaphandre.Tracker.Alive.{get_process_core_times}
use scaphandre.Tracker.Created.{SystemProcess, IsNamed, new_process-IsNamed}
use scaphandre.Tracker.Process.{IProcess}
use scaphandre.Tracker.Valid.{later-AllKept, IsValid, add_process_record-IsValid}
use scaphandre.Units.{micro_joule}

module _ (fs fl : Float) (layout : Layout) (w : World fs) where
  dram_energy-total :
      (ds : List (Domain fl))
      → AllSourced ds
      → (total : ℤ) × (dram_energy fs fl w.files w.now ds ≡ some total)
  unfolding dram_energy Domain.read_record
  dram_energy-total [] h = (pos 0, refl)
  dram_energy-total (d ∷ ds) h =
      let rest = dram_energy-total ds h.1 in
      let reading = map_option (λ result. new_record w.now result micro_joule) (w.files h.0.0) in
      elim (Bool-cases (same_text d.name (codes "dram"))) [
        | inl same ↦ (add_i128 (counted fs fl reading) rest.0, rw (same, h.0.1, rest.1) refl)
        | inr other ↦ (rest.0, rw other rest.1)
      ]

  sockets_energy-total :
      (ss : List (CpuSocket fl))
      → SocketsSourced ss
      → (total : ℤ) × (sockets_energy fs fl w.files w.now ss ≡ some total)
  unfolding sockets_energy Socket.read_record
  sockets_energy-total [] h = (pos 0, refl)
  sockets_energy-total (s ∷ ss) h =
      let rest = sockets_energy-total ss h.1 in
      let memory = dram_energy-total s.domains h.0.1 in
      let reading = map_option (λ result. new_record w.now result micro_joule) (w.files h.0.0.0) in
      (
        add_i128 (counted fs fl reading) (add_i128 memory.0 rest.0),
        rw (h.0.0.1, memory.1, rest.1) refl,
      )

  read_record-total :
      (t : Topology fs fl)
      → SocketsSourced t.sockets
      → (r : Record) × (read_record fs fl w.files w.now t ≡ some r)
  unfolding read_record
  read_record-total t h =
      elim (Option-cases (get_rapl_psys_energy_microjoules fs fl w.files w.now t)) [
        | inl no_psys ↦
            let total = sockets_energy-total t.sockets h in
            (new_record w.now (show_ℤ total.0) micro_joule, rw (read_record, no_psys, total.1) refl)
        | inr (r, found) ↦ (r, rw (read_record, found) refl)
      ]

  -- The record of the host is read, and what the tracker holds stays.
  refresh_record-kept :
      (t : Topology fs fl)
      → SocketsSourced t.sockets
      → (t' : Topology fs fl) × (refresh_record fs fl layout w.files w.now t ≡ some t')
        × (t'.proc_tracker ≡ t.proc_tracker)
  unfolding refresh_record
  refresh_record-kept t h =
      let r = read_record-total t h in
      let cleaned =
        refresh_buffer (clean_topology_records layout.record_size t.buffer_max_kbytes) (some r.0)
          t.record_buffer in
      (record t { record_buffer = cleaned }, rw r.1 refl, refl)

  SocketsSourced-cores :
      (g : CpuSocket fl → List CpuCore) (ss : List (CpuSocket fl))
      → SocketsSourced ss
      → SocketsSourced (map (λ (s : CpuSocket fl). record s { cpu_cores = g s }) ss)
  SocketsSourced-cores g [] h = tt
  SocketsSourced-cores g (s ∷ ss) h = (h.0, SocketsSourced-cores g ss h.1)

  add_processes-IsValid :
      (ps : List (IProcess fs)) (before : ℕ) (tracker : ProcessTracker fs)
      → before ≤ w.now
      → IsValid before tracker
      → IsValid w.now (add_processes fs fl layout w ps tracker)
  unfolding add_processes
  add_processes-IsValid [] before tracker h v = record {
    positive = v.positive;
    kept = later-AllKept tracker.max_records_per_process before w.now tracker.procs h v.kept;
    unique = v.unique;
  }
  add_processes-IsValid (p ∷ ps) before tracker h v =
      add_processes-IsValid ps w.now (add_process_record fs w.now p tracker) (omega arith)
        (add_process_record-IsValid before w.now p tracker h v)

  -- The paths of the programs of the processes are Unicode.
  abbrev pub AllProgramsNamed : List (SystemProcess fs) → Type 0
  AllProgramsNamed [] = Unit
  AllProgramsNamed (p ∷ ps) = IsNamed p × AllProgramsNamed ps

  current_procs-total :
      (ps : List (SystemProcess fs))
      → AllProgramsNamed ps
      → (procs : List (IProcess fs)) × (current_procs fs fl layout w ps ≡ some procs)
  unfolding current_procs
  current_procs-total [] h = ([], refl)
  current_procs-total (p ∷ ps) h =
      let first =
        new_process-IsNamed w.system p (get_process_core_times fs w.core_times_map p.pid) h.0 in
      let rest = current_procs-total ps h.1 in
      (first.0 ∷ rest.0, bind-some _ first.1 (bind-some _ rest.1 refl))

  received-kept :
      (drained : Option (List CpuStateEvent)) (t : Topology fs fl)
      → ((refresh_activation_idle_records fs fl drained t).sockets ≡ t.sockets)
        × ((refresh_activation_idle_records fs fl drained t).proc_tracker ≡ t.proc_tracker)
  unfolding refresh_activation_idle_records
  received-kept none t = (refl, refl)
  received-kept (some drained) t = (refl, refl)

  cpu_time-kept :
      (cpu_times : Option (ℕ → Option ℕ)) (t : Topology fs fl)
      → ((refresh_cpu_time_record fs fl layout cpu_times w.now t).sockets ≡ t.sockets)
        × ((refresh_cpu_time_record fs fl layout cpu_times w.now t).proc_tracker ≡ t.proc_tracker)
  unfolding refresh_cpu_time_record
  cpu_time-kept none t = (refl, refl)
  cpu_time-kept (some get) t = (refl, refl)

  stats-kept : (t : Topology fs fl) → (refresh_stats fs fl layout w t).proc_tracker ≡ t.proc_tracker
  unfolding refresh_stats
  stats-kept t = elim (Option-cases w.kernel_stats) [
    | inl unread ↦ rw (refresh_stats, unread) refl
    | inr (stats, found) ↦ rw (refresh_stats, found) refl
  ]

  -- Where every socket and domain names its source file, /proc/stat has a line for each core where it
  -- can be read, and the paths of the programs of all processes are Unicode, a refresh of the host at a
  -- time not before the last one does not panic, whatever the files hold, and the process tracker is
  -- valid afterwards when it was valid before.
  pub refresh-total :
      (before : ℕ) (t : Topology fs fl)
      → before ≤ w.now
      → IsValid before t.proc_tracker
      → AllMeasurable w.kernel_stats t.sockets
      → AllProgramsNamed w.processes
      → (t' : Topology fs fl) × (refresh fs fl layout w t ≡ some t') × IsValid w.now t'.proc_tracker
  unfolding refresh refresh_procs refresh_core_idle_records
  refresh-total before t h v m n =
      let received = refresh_activation_idle_records fs fl w.drained t in
      let kept = received-kept w.drained t in
      let idle_records =
        collect_events fs fl (map CpuSocket.id received.sockets) received.activation_idle_buffer in
      let ss =
        refresh_sockets-total fs fl layout w received.sockets idle_records.0
          (subst (λ (xs : List (CpuSocket fl)). AllMeasurable w.kernel_stats xs) (sym kept.0) m) in
      let measured : Topology fs fl = record received {
        sockets = ss.0;
        activation_idle_buffer = idle_records.1;
      } in
      let sampled = refresh_core_idle_records fs fl layout w measured in
      let procs = current_procs-total w.processes n in
      let tracked : Topology fs fl = record sampled {
        proc_tracker = add_processes fs fl layout w procs.0 sampled.proc_tracker;
      } in
      let timed = refresh_cpu_time_record fs fl layout w.cpu_time_map w.now tracked in
      let same = cpu_time-kept w.cpu_time_map tracked in
      let host = refresh_record-kept timed (
        subst (λ (xs : List (CpuSocket fl)). SocketsSourced xs) (sym same.0)
          (SocketsSourced-cores _ ss.0 ss.2)) in
      (
        refresh_stats fs fl layout w host.0,
        bind-some _ ss.1 (bind-some _ (bind-some _ procs.1 refl) (bind-some _ host.1 refl)),
        subst (IsValid w.now) (sym (stats-kept host.0 ∙ host.2 ∙ same.1)) (
            add_processes-IsValid procs.0 before received.proc_tracker h
              (subst (IsValid before) (sym kept.1) v)),
      )
