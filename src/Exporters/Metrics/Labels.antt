-- ===== src/Exporters/Metrics/Labels.antt =====
-- The metrics of the sockets are told apart by their labels.
use scaphandre.Sensor.Domain
use scaphandre.Sensor.Socket
use scaphandre.Base.{
  ℕ, String, ◌≡◌, refl, ◌∙◌, inl, inr, Option, none, some, List, [], ◌∷◌, ◌++◌, Option-cases, last,
}
use scaphandre.Exporters.Metrics.{Metric, metric_if, MetricGenerator, push_all}
use scaphandre.Exporters.Metrics.Sockets.{
  record_metrics, domain_metrics, domains_metrics, socket_metrics, sockets_metrics,
  gen_socket_metrics,
}
use scaphandre.Float.{Float}
use scaphandre.Sensor.Domain.{Domain, get_records_passive}
use scaphandre.Sensor.Measure.{Record, SensorData, lookup, insert, Files}
use scaphandre.Sensor.Measure.Keys.{lookup-insert_other}
use scaphandre.Sensor.Socket.{CpuSocket}
use scaphandre.Text.{Text, codes, show}

-- The metrics are of the host, and have the number of the socket as a label.
pub data AllLabelled (hostname : Text) (id : ℕ) : List Metric → Type 0 where
  no_metrics : AllLabelled hostname id []
  labelled_metric :
      (m : Metric) (ms : List Metric)
      → m.hostname ≡ hostname
      → lookup "socket_id" m.attributes ≡ some (show id)
      → AllLabelled hostname id ms
      → AllLabelled hostname id (m ∷ ms)

-- The metrics come socket by socket, in the order of the sockets.
pub data Grouped {fl : Float} (hostname : Text) : List (CpuSocket fl) → List Metric → Type 0 where
  no_sockets : Grouped hostname [] []
  socket_group :
      (s : CpuSocket fl) (ss : List (CpuSocket fl)) (ms rest : List Metric)
      → AllLabelled hostname s.id ms
      → Grouped hostname ss rest
      → Grouped hostname (s ∷ ss) (ms ++ rest)

AllLabelled-append :
    (hostname : Text) (id : ℕ) (ms ns : List Metric)
    → AllLabelled hostname id ms
    → AllLabelled hostname id ns
    → AllLabelled hostname id (ms ++ ns)
AllLabelled-append hostname id _ ns no_metrics k = k
AllLabelled-append hostname id _ ns (labelled_metric m ms of_host numbered h) k =
    labelled_metric m (ms ++ ns) of_host numbered (AllLabelled-append hostname id ms ns h k)

metric_if-AllLabelled :
    (r : Option Record) (hostname : Text) (name metric_type : String) (attributes : SensorData)
    (description : Text) (id : ℕ)
    → lookup "socket_id" attributes ≡ some (show id)
    → AllLabelled hostname id (metric_if r hostname name metric_type attributes description)
unfolding metric_if
metric_if-AllLabelled none hostname name metric_type attributes description id h = no_metrics
metric_if-AllLabelled (some r) hostname name metric_type attributes description id h =
    labelled_metric _ [] refl h no_metrics

module _ (fl : Float) (files : Files) (now : ℕ) (hostname : Text) where
  record_metrics-AllLabelled :
      (attributes : SensorData) (s : CpuSocket fl) (id : ℕ)
      → lookup "socket_id" attributes ≡ some (show id)
      → AllLabelled hostname id (record_metrics fl files now hostname attributes s)
  unfolding record_metrics
  record_metrics-AllLabelled attributes s id h =
      elim (Option-cases (last (Socket.get_records_passive fl s))) [
        | inl no_record ↦ rw (record_metrics, no_record) no_metrics
        | inr (metric, found) ↦
            rw (record_metrics, found) (search (AllLabelled-append, metric_if-AllLabelled))
      ]

  domain_metrics-AllLabelled :
      (id : ℕ) (d : Domain fl) → AllLabelled hostname id (domain_metrics fl files now hostname id d)
  unfolding domain_metrics
  domain_metrics-AllLabelled id d = elim (Option-cases (last (Domain.get_records_passive fl d))) [
    | inl no_record ↦ rw (domain_metrics, no_record) no_metrics
    | inr (metric, found) ↦
        let attributes =
          insert "socket_id" (show id)
            (insert "domain_id" (show d.id) (insert "domain_name" d.name [])) in
        let labelled : lookup "socket_id" attributes ≡ some (show id) =
          unfold lookup insert in refl in
        let other =
          lookup-insert_other "socket_id" "value_source" (codes "powercap_rapl_mmio") attributes
            refl
          ∙ labelled in
        rw (domain_metrics, found) (search (AllLabelled-append, metric_if-AllLabelled))
  ]

  domains_metrics-AllLabelled :
      (id : ℕ) (ds : List (Domain fl))
      → AllLabelled hostname id (domains_metrics fl files now hostname id ds)
  unfolding domains_metrics
  domains_metrics-AllLabelled id [] = no_metrics
  domains_metrics-AllLabelled id (d ∷ ds) =
      AllLabelled-append hostname id _ _ (domain_metrics-AllLabelled id d)
        (domains_metrics-AllLabelled id ds)

  socket_metrics-AllLabelled :
      (s : CpuSocket fl) → AllLabelled hostname s.id (socket_metrics fl files now hostname s)
  unfolding socket_metrics
  socket_metrics-AllLabelled s =
      let attributes = insert "socket_id" (show s.id) [] in
      let labelled : lookup "socket_id" attributes ≡ some (show s.id) =
        unfold lookup insert in refl in
      search (
        AllLabelled-append, metric_if-AllLabelled, record_metrics-AllLabelled,
        domains_metrics-AllLabelled,
      )

  sockets_metrics-Grouped :
      (ss : List (CpuSocket fl)) → Grouped hostname ss (sockets_metrics fl files now hostname ss)
  unfolding sockets_metrics
  sockets_metrics-Grouped [] = no_sockets
  sockets_metrics-Grouped (s ∷ ss) =
      socket_group s ss _ _ (socket_metrics-AllLabelled s) (sockets_metrics-Grouped ss)

module _ {fs fl : Float} where
  -- `gen_socket_metrics` pushes, behind the metrics of before, metrics that come socket by socket in
  -- the order of the sockets; those of a socket and of its domains have the name of the host, and the
  -- number of the socket as their label `socket_id`.
  pub gen_socket_metrics-Grouped :
      (files : Files) (now : ℕ) (g : MetricGenerator fs fl)
      → (metrics : List Metric) × (gen_socket_metrics fs fl files now g ≡ push_all fs fl metrics g)
        × Grouped g.hostname g.topology.sockets metrics
  unfolding gen_socket_metrics
  gen_socket_metrics-Grouped files now g =
      (_, refl, sockets_metrics-Grouped fl files now g.hostname g.topology.sockets)
