-- ===== src/Exporters/Metrics/Sockets.antt =====
-- `gen_socket_metrics`: the metrics of the sockets and of their domains.
use scaphandre.Sensor.Domain
use scaphandre.Sensor.Socket
use scaphandre.Base.{ℕ, none, some, List, [], ◌∷◌, ◌++◌, last}
use scaphandre.Exporters.Metrics.{Metric, metric_if, MetricGenerator, push_all}
use scaphandre.Float.{Float}
use scaphandre.Sensor.Domain.{Domain, get_records_passive}
use scaphandre.Sensor.Measure.{SensorData, insert, Files}
use scaphandre.Sensor.Mmio.{get_rapl_mmio_energy_microjoules}
use scaphandre.Sensor.Socket.{CpuSocket}
use scaphandre.Text.{Text, codes, show}

module _ (fl : Float) (files : Files) (now : ℕ) (hostname : Text) where
  -- The metrics of the newest record and the powers of a socket, where it has a record
  unfoldable pub record_metrics : SensorData → CpuSocket fl → List Metric
  record_metrics attributes s = elim (last (Socket.get_records_passive fl s)) [
    | none ↦ []
    | some metric ↦
        metric_if (some metric) hostname "scaph_socket_energy_microjoules" "counter" attributes
          (codes "Socket related energy measurement in microjoules.")
        ++ metric_if (Socket.get_records_diff_power_microwatts fl now s) hostname
            "scaph_socket_power_microwatts" "gauge" attributes
            (codes "Active power measurement relative to a CPU socket, in microwatts")
        ++ metric_if (Socket.get_idle_power_microwatts fl now s) hostname
            "scaph_socket_idle_power_microwatts" "gauge" attributes
            (codes "Idle power measurement relative to a CPU socket, in microwatts")
        ++ metric_if (Socket.get_activation_power_microwatts fl now s) hostname
            "scaph_socket_activation_power_microwatts" "gauge" attributes
            (codes "Activation power measurement relative to a CPU socket, in microwatts")
        ++ metric_if (Socket.get_background_power_microwatts fl now s) hostname
            "scaph_socket_background_power_microwatts" "gauge" attributes
            (codes
              "Background power (max of idle and activation) relative to a CPU socket, in microwatts")
  ]

  -- The metrics of one domain of the socket
  unfoldable pub domain_metrics : ℕ → Domain fl → List Metric
  domain_metrics socket_id d = elim (last (Domain.get_records_passive fl d)) [
    | none ↦ []
    | some metric ↦
        let attributes =
          insert "socket_id" (show socket_id)
            (insert "domain_id" (show d.id) (insert "domain_name" d.name [])) in
        metric_if (some metric) hostname "scaph_domain_energy_microjoules" "counter" attributes
          (codes "Domain related energy measurement in microjoules.")
        ++ metric_if (Domain.get_records_diff_power_microwatts fl d) hostname
            "scaph_domain_power_microwatts" "gauge" attributes
            (codes "Power measurement relative to a RAPL Domain, in microwatts")
        ++ metric_if (get_rapl_mmio_energy_microjoules files now d.sensor_data) hostname
            "scaph_domain_rapl_mmio_energy_microjoules" "counter"
            (insert "value_source" (codes "powercap_rapl_mmio") attributes)
            (codes "Energy counter from RAPL mmio interface for the "
              ++ d.name
              ++ codes " domain, socket "
              ++ show socket_id
              ++ codes ".")
  ]

  unfoldable pub domains_metrics : ℕ → List (Domain fl) → List Metric
  domains_metrics socket_id [] = []
  domains_metrics socket_id (d ∷ ds) = domain_metrics socket_id d ++ domains_metrics socket_id ds

  -- One round of the loop over the sockets
  unfoldable pub socket_metrics : CpuSocket fl → List Metric
  socket_metrics s =
      let attributes = insert "socket_id" (show s.id) [] in
      record_metrics attributes s
      ++ metric_if (get_rapl_mmio_energy_microjoules files now s.sensor_data) hostname
          "scaph_socket_rapl_mmio_energy_microjoules" "counter" attributes
          (codes "Energy counter from RAPL mmio interface for Package-0 of CPU socket "
            ++ show s.id)
      ++ domains_metrics s.id s.domains

  unfoldable pub sockets_metrics : List (CpuSocket fl) → List Metric
  sockets_metrics [] = []
  sockets_metrics (s ∷ ss) = socket_metrics s ++ sockets_metrics ss

-- `gen_socket_metrics`
module _ (fs fl : Float) where
  unfoldable pub gen_socket_metrics : Files → ℕ → MetricGenerator fs fl → MetricGenerator fs fl
  gen_socket_metrics files now g =
      push_all fs fl (sockets_metrics fl files now g.hostname g.topology.sockets) g
