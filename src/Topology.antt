-- ===== src/Topology.antt =====
-- `Topology` of scaphandre/src/sensors/mod.rs: the host with its sockets, the events that are kept for
-- them, and the measurements of the whole host. What is read of the host is an argument.
pub mod Names
pub mod Sorted
pub mod Measures
pub mod Shares
pub mod Attribution
pub mod Attributed
pub mod PerProcess
pub mod Usage
pub mod System
pub mod Disks
pub mod CpuTime
pub mod Refresh
pub mod Events
pub mod Sockets
pub mod Cores
pub mod Host
pub mod Measurable
pub mod Total
mod Examples
pub mod ProcessExamples
use scaphandre.Sensor.Domain
use scaphandre.Sensor.Socket
use scaphandre.Base.{ℕ, not, Option, none, some, List, [], ◌∷◌, ◌++◌, map, ◌==◌, if◌then◌else◌, any}
use scaphandre.Float.{Float}
use scaphandre.Sensor.Domain.{Domain, new_domain}
use scaphandre.Sensor.Event.{CpuStateEvent}
use scaphandre.Sensor.Measure.{Record, MultiValuedRecord, SensorData}
use scaphandre.Sensor.Socket.{CpuSocket, new_socket, safe_add_domain}
use scaphandre.Sensor.Stat.{CpuStat}
use scaphandre.Text.{Text}
use scaphandre.Topology.Names.{names_of_sockets}
use scaphandre.Tracker.{ProcessTracker, new_tracker}

-- `Topology`, less the handles of the eBPF program. The parameters `fs` and `fl` stand for `f32` and `f64`.
pub record Topology (fs fl : Float) : Type 0 where
  pub sockets : List (CpuSocket fl)
  pub proc_tracker : ProcessTracker fs
  pub stat_buffer : List CpuStat
  pub record_buffer : List Record
  pub buffer_max_kbytes : ℕ
  pub sensor_data : SensorData
  pub activation_idle_buffer : List (ℕ × List CpuStateEvent)
  pub cpu_time_buffer : List MultiValuedRecord
  pub domains_names : Option (List Text)

-- `entry(e.socket_id).or_insert(vec![]).push(e)`
unfoldable pub push_event :
    CpuStateEvent → List (ℕ × List CpuStateEvent) → List (ℕ × List CpuStateEvent)
push_event e [] = (e.socket_id, e ∷ []) ∷ []
push_event e ((id, es) ∷ m) =
    if id == e.socket_id then (id, es ++ e ∷ []) ∷ m else (id, es) ∷ push_event e m

unfoldable pub push_events :
    List CpuStateEvent → List (ℕ × List CpuStateEvent) → List (ℕ × List CpuStateEvent)
push_events [] m = m
push_events (e ∷ es) m = push_events es (push_event e m)

-- `remove(&socket).unwrap_or_default()`: the events, and then the map that is left
unfoldable pub events_of : ℕ → List (ℕ × List CpuStateEvent) → List CpuStateEvent
events_of socket [] = []
events_of socket ((id, es) ∷ m) = if id == socket then es else events_of socket m

unfoldable pub without : ℕ → List (ℕ × List CpuStateEvent) → List (ℕ × List CpuStateEvent)
without socket [] = []
without socket ((id, es) ∷ m) = if id == socket then m else (id, es) ∷ without socket m

module _ (fs fl : Float) where
  -- `new`, given the number of cores; the maps of the eBPF program are arguments of what uses them
  unfoldable pub new_topology : ℕ → SensorData → Topology fs fl
  new_topology nb_cores sensor_data = record {
    sockets = [];
    proc_tracker = new_tracker fs 5 nb_cores;
    stat_buffer = [];
    record_buffer = [];
    buffer_max_kbytes = 1;
    sensor_data = sensor_data;
    activation_idle_buffer = [];
    cpu_time_buffer = [];
    domains_names = none;
  }

  -- `safe_add_socket`: the topology, and the new socket where it was added
  unfoldable pub safe_add_socket :
      ℕ
      → List (Domain fl)
      → List (List SensorData)
      → Text
      → ℕ
      → SensorData
      → Topology fs fl
      → Topology fs fl × Option (CpuSocket fl)
  safe_add_socket socket_id domains attributes counter_uj_path buffer_max_kbytes sensor_data t =
      if not (any (λ (s : CpuSocket fl). s.id == socket_id) t.sockets)
      then (let socket =
            new_socket fl socket_id domains attributes counter_uj_path buffer_max_kbytes
              sensor_data in
          (record t { sockets = t.sockets ++ socket ∷ [] }, some socket))
      else (t, none)

  -- `safe_insert_socket`
  unfoldable pub safe_insert_socket : CpuSocket fl → Topology fs fl → Topology fs fl
  safe_insert_socket socket t =
      if not (any (λ (s : CpuSocket fl). s.id == socket.id) t.sockets)
      then record t { sockets = t.sockets ++ socket ∷ [] }
      else t

  -- `build_domains_names`
  unfoldable pub build_domains_names : Topology fs fl → Topology fs fl
  build_domains_names t = record t { domains_names = some (names_of_sockets t.sockets) }

  -- `set_domains_names`
  unfoldable pub set_domains_names : List Text → Topology fs fl → Topology fs fl
  set_domains_names names t = record t { domains_names = some names }

  -- `safe_add_domain_to_socket`
  unfoldable pub safe_add_domain_to_socket :
      ℕ → ℕ → Text → Text → ℕ → SensorData → Topology fs fl → Topology fs fl
  safe_add_domain_to_socket socket_id domain_id name uj_counter buffer_max_kbytes sensor_data t =
      let domain = new_domain fl domain_id name uj_counter buffer_max_kbytes sensor_data in
      build_domains_names (record t {
        sockets =
            map (λ (s : CpuSocket fl). if s.id == socket_id then safe_add_domain fl domain s else s)
              t.sockets;
      })

  -- `refresh_activation_idle_records`: the events of the ring buffer, where there is one
  unfoldable pub refresh_activation_idle_records :
      Option (List CpuStateEvent) → Topology fs fl → Topology fs fl
  refresh_activation_idle_records none t = t
  refresh_activation_idle_records (some drained) t = record t {
    activation_idle_buffer = push_events drained t.activation_idle_buffer;
  }

  -- `get_activation_idle_records` for each of the socket ids: their events, and what is left
  unfoldable pub collect_events :
      List ℕ
      → List (ℕ × List CpuStateEvent)
      → List (List CpuStateEvent) × List (ℕ × List CpuStateEvent)
  collect_events [] m = ([], m)
  collect_events (id ∷ ids) m =
      let rest = collect_events ids (without id m) in (events_of id m ∷ rest.0, rest.1)
