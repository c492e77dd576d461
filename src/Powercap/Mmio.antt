-- ===== src/Powercap/Mmio.antt =====
-- The folders of the mmio tree change nothing but the `mmio` entries.
use mathlib.Core.Path.{subst}
use scaphandre.Base.{
  ℕ, ◌≡◌, refl, sym, ap, ◌∙◌, inl, inr, true, Option, some, List, [], ◌∷◌, ◌++◌, map, ◌==◌,
  if◌then◌else◌, Bool-cases,
}
use scaphandre.Float.{Float}
use scaphandre.Powercap.{PowercapSensor, PowercapHost, re_socket_mmio, re_domain_mmio}
use scaphandre.Powercap.Placed.{nonempty, nonempty-ids}
use scaphandre.Powercap.Ready.{nonempty-map, IsReadable, Sound, Steps}
use scaphandre.Powercap.Scan.{mark_socket, mark_domains, mark_sockets, mark_domain_folder}
use scaphandre.Powercap.Sourced.{AllSourcedDomains, AllSoundSockets, IsSound-map, Keeps-mmio}
use scaphandre.Sensor.Domain.{Domain}
use scaphandre.Sensor.Measure.{same_text, insert}
use scaphandre.Sensor.Measure.Keys.{lookup-insert_other}
use scaphandre.Sensor.Socket.{CpuSocket}
use scaphandre.Sensor.Stat.{KernelStats}
use scaphandre.Text.{Text, codes, trim, show}
use scaphandre.Topology.{Topology}
use scaphandre.Topology.Events.{IsDistinct}
use scaphandre.Topology.Sockets.{ids_of}

module _ (fs fl : Float) (sensor : PowercapSensor) (host : PowercapHost)
    (kernel_stats : Option KernelStats) where
  pub mark_socket-Sound :
      (folder : Text) (t : Topology fs fl)
      → IsReadable host folder
      → host.is_match re_socket_mmio folder ≡ true
      → Sound sensor host kernel_stats t
      → Steps sensor host kernel_stats (mark_socket fs fl sensor host folder t) (nonempty t.sockets)
  unfolding mark_socket
  mark_socket-Sound folder t r m h =
      let i = r.mmio_number m in
      let mmio = sensor.base_path ++ codes "/intel-rapl-mmio:" ++ show i.0 ++ codes "/energy_uj" in
      (
        record t {
          sockets =
              map
                (λ (s : CpuSocket fl).
                  if s.id == i.0
                  then record s { sensor_data = insert "mmio" mmio s.sensor_data }
                  else s)
                t.sockets;
        },
        rw i.1 refl,
        (
          IsSound-map sensor.base_path kernel_stats _ t.sockets
              (Keeps-mmio sensor.base_path kernel_stats i.0 _) h.0,
          h.1,
        ),
        nonempty-map _ t.sockets,
      )

  mark_domains-sourced :
      (folder name : Text) (i : ℕ) (ds : List (Domain fl))
      → host.files (folder ++ codes "/name") ≡ some name
      → AllSourcedDomains sensor.base_path kernel_stats i ds
      → (ds' : List (Domain fl)) × (mark_domains fs fl sensor host folder ds ≡ some ds')
        × AllSourcedDomains sensor.base_path kernel_stats i ds'
  unfolding mark_domains
  mark_domains-sourced folder name i [] e h = ([], refl, tt)
  mark_domains-sourced folder name i (d ∷ ds) e h =
      let rest = mark_domains-sourced folder name i ds e h.1 in
      elim (Bool-cases (same_text (trim d.name) (trim name))) [
        | inl same ↦ (
          record d { sensor_data = insert "mmio" (folder ++ codes "/energy_uj") d.sensor_data }
              ∷ rest.0,
          rw (e, rest.1, same) refl,
          (lookup-insert_other "source_file" "mmio" _ d.sensor_data refl ∙ h.0, rest.2),
        )
        | inr other ↦ (d ∷ rest.0, rw (e, rest.1, other) refl, (h.0, rest.2))
      ]

  mark_sockets_sound :
      (folder name : Text) (i : ℕ) (ss : List (CpuSocket fl))
      → host.files (folder ++ codes "/name") ≡ some name
      → AllSoundSockets sensor.base_path kernel_stats ss
      → (ss' : List (CpuSocket fl)) × (mark_sockets fs fl sensor host folder i ss ≡ some ss')
        × AllSoundSockets sensor.base_path kernel_stats ss'
        × (ids_of ss' ≡ ids_of ss)
  unfolding mark_sockets
  mark_sockets_sound folder name i [] e h = ([], refl, tt, refl)
  mark_sockets_sound folder name i (s ∷ ss) e h =
      let rest = mark_sockets_sound folder name i ss e h.1 in
      let marked = mark_domains-sourced folder name s.id s.domains e h.0.1 in
      elim (Bool-cases (s.id == i)) [
        | inl same ↦ (
          record s { domains = marked.0 } ∷ rest.0,
          rw (rest.1, same, marked.1) refl,
          ((h.0.0, marked.2, h.0.2), rest.2),
          ap (λ is. s.id ∷ is) rest.3,
        )
        | inr other ↦
            (s ∷ rest.0, rw (rest.1, other) refl, (h.0, rest.2), ap (λ is. s.id ∷ is) rest.3)
      ]

  pub mark_domain_folder-Sound :
      (folder : Text) (t : Topology fs fl)
      → IsReadable host folder
      → host.is_match re_domain_mmio folder ≡ true
      → Sound sensor host kernel_stats t
      → Steps sensor host kernel_stats
          (mark_domain_folder fs fl sensor host folder t)
          (nonempty t.sockets)
  unfolding mark_domain_folder
  mark_domain_folder-Sound folder t r m h =
      let i = (r.mmio_name m).0 in
      let name = (r.mmio_name m).1 in
      let marked = mark_sockets_sound folder name.0 i.0 t.sockets name.1 h.0.sourced in
      (
        record t { sockets = marked.0 },
        rw (i.1, marked.1) refl,
        (
          record { sourced = marked.2; distinct = subst IsDistinct (sym marked.3) h.0.distinct },
          h.1,
        ),
        nonempty-ids sensor.base_path kernel_stats t.sockets marked.0 marked.3,
      )
