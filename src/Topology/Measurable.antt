-- ===== src/Topology/Measurable.antt =====
-- Sockets whose counters have source files are refreshed without a panic.
use mathlib.Core.Path.{subst}
use scaphandre.Sensor.Domain
use scaphandre.Sensor.Socket
use scaphandre.Base.{
  ◌≡◌, refl, sym, ◌∙◌, Bool, true, false, Option, some, List, [], ◌∷◌, map, if◌then◌else◌,
  map_option, length,
}
use scaphandre.Buffer.{clean_old_records, refresh_buffer}
use scaphandre.Float.{Float}
use scaphandre.Sensor.Domain.{Layout, Domain}
use scaphandre.Sensor.Event.{CpuStateEvent}
use scaphandre.Sensor.Measure.{new_record}
use scaphandre.Sensor.Socket.{CpuSocket, float_or_zero, distribute_background_to_domains}
use scaphandre.Sensor.Socket.Sources.{
  IsSourced, AllSourced, AllKnown, refresh_usage-total, refresh_record-total,
}
use scaphandre.Sensor.Stat.{KernelStats}
use scaphandre.Topology.Refresh.{World, refresh_domains, refresh_socket, refresh_sockets}
use scaphandre.Units.{micro_joule}

-- Every socket can be measured: it and its domains name their source files, and /proc/stat has a line
-- for each of its cores.
abbrev pub AllMeasurable : {fl : Float} → Option KernelStats → List (CpuSocket fl) → Type 0
AllMeasurable kernel_stats [] = Unit
AllMeasurable kernel_stats (s ∷ ss) =
    (IsSourced s.sensor_data × AllSourced s.domains × AllKnown kernel_stats s.cpu_cores)
    × AllMeasurable kernel_stats ss

abbrev pub SocketsSourced : {fl : Float} → List (CpuSocket fl) → Type 0
SocketsSourced [] = Unit
SocketsSourced (s ∷ ss) = (IsSourced s.sensor_data × AllSourced s.domains) × SocketsSourced ss

module _ (fs fl : Float) (layout : Layout) (w : World fs) where
  refresh_domains-total :
      (ds : List (Domain fl))
      → AllSourced ds
      → (ds' : List (Domain fl)) × (refresh_domains fs fl layout w ds ≡ some ds') × AllSourced ds'
  unfolding refresh_domains Domain.refresh_record Domain.read_record
  refresh_domains-total [] h = ([], refl, tt)
  refresh_domains-total (d ∷ ds) h =
      let rest = refresh_domains-total ds h.1 in
      let reading = map_option (λ result. new_record w.now result micro_joule) (w.files h.0.0) in
      let d' : Domain fl = record d {
        record_buffer =
            refresh_buffer (clean_old_records layout.record_size d.buffer_max_kbytes) reading
              d.record_buffer;
      } in
      (d' ∷ rest.0, rw (h.0.1, rest.1) refl, (h.0, rest.2))

  -- The socket keeps its sources and its cores.
  abbrev Keeps : CpuSocket fl → CpuSocket fl → Type 0
  Keeps s s' =
      (s'.sensor_data ≡ s.sensor_data) × (s'.cpu_cores ≡ s.cpu_cores) × AllSourced s'.domains

  AllSourced-map :
      (g : Domain fl → fl.F) (ds : List (Domain fl))
      → AllSourced ds
      → AllSourced (map (λ (d : Domain fl). record d { background_power_uw = g d }) ds)
  AllSourced-map g [] h = tt
  AllSourced-map g (d ∷ ds) h = (h.0, AllSourced-map g ds h.1)

  Keeps-shared :
      (b : Bool) (g : Domain fl → fl.F) (s : CpuSocket fl)
      → AllSourced s.domains
      → Keeps s (
          if b then s else record s {
            domains = map (λ (d : Domain fl). record d { background_power_uw = g d }) s.domains;
          })
  Keeps-shared true g s h = (refl, refl, h)
  Keeps-shared false g s h = (refl, refl, AllSourced-map g s.domains h)

  Keeps-distribute :
      (s : CpuSocket fl)
      → AllSourced s.domains
      → Keeps s (distribute_background_to_domains fl w.now s)
  unfolding distribute_background_to_domains
  Keeps-distribute s h =
      let background = float_or_zero fl (Socket.get_background_power_microwatts fl w.now s) in
      let total = float_or_zero fl (Socket.get_records_diff_power_microwatts fl w.now s) in
      Keeps-shared (fl.eq background (fl.of_ℕ 0))
        (λ d.
          if fl.lt (fl.of_ℕ 0) total
          then fl.mul background
              (fl.div (float_or_zero fl (Domain.get_records_diff_power_microwatts fl d)) total)
          else fl.div background (fl.of_ℕ (length s.domains)))
        s h

  refresh_socket-total :
      (records : List CpuStateEvent) (s : CpuSocket fl)
      → IsSourced s.sensor_data × AllSourced s.domains × AllKnown w.kernel_stats s.cpu_cores
      → (s' : CpuSocket fl) × (refresh_socket fs fl layout w records s ≡ some s')
        × IsSourced s'.sensor_data
        × AllSourced s'.domains
  unfolding refresh_socket Socket.refresh_activation_idle_records
  refresh_socket-total records s h =
      let estimated = Socket.refresh_activation_idle_records fl w.now records s in
      let shared = distribute_background_to_domains fl w.now estimated in
      let k = Keeps-distribute estimated h.1 in
      let measured =
        refresh_record-total fl layout w.files w.now shared (subst IsSourced (sym k.0) h.0) in
      let counted =
        refresh_usage-total fl layout w.kernel_stats measured.0
          (subst (AllKnown w.kernel_stats) (sym (measured.3 ∙ k.1)) h.2) in
      let domains =
        refresh_domains-total counted.0.domains
          (subst (λ (ds : List (Domain fl)). AllSourced ds) (sym (counted.2 ∙ measured.2)) k.2) in
      (
        record counted.0 { domains = domains.0 },
        rw (measured.1, counted.1, domains.1) refl,
        subst IsSourced (sym (counted.3 ∙ measured.4 ∙ k.0)) h.0,
        domains.2,
      )

  measurable-sourced :
      (ss : List (CpuSocket fl)) → AllMeasurable w.kernel_stats ss → SocketsSourced ss
  measurable-sourced [] h = tt
  measurable-sourced (s ∷ ss) h = ((h.0.0, h.0.1), measurable-sourced ss h.1)

  pub refresh_sockets-total :
      (ss : List (CpuSocket fl)) (rs : List (List CpuStateEvent))
      → AllMeasurable w.kernel_stats ss
      → (ss' : List (CpuSocket fl)) × (refresh_sockets fs fl layout w ss rs ≡ some ss')
        × SocketsSourced ss'
  unfolding refresh_sockets
  refresh_sockets-total [] rs h = ([], refl, tt)
  refresh_sockets-total (s ∷ ss) [] h = (s ∷ ss, refl, measurable-sourced (s ∷ ss) h)
  refresh_sockets-total (s ∷ ss) (r ∷ rs) h =
      let first = refresh_socket-total r s h.0 in
      let rest = refresh_sockets-total ss rs h.1 in
      (first.0 ∷ rest.0, rw (first.1, rest.1) refl, ((first.2, first.3), rest.2))
