-- ===== src/Topology/Cores.antt =====
-- The CPU cores of the host: `generate_cpu_cores`, and `add_cpu_cores`, which gives each to a socket.
-- What sysinfo, /proc/cpuinfo and the kernel's perf counters say is an argument.
use scaphandre.Base.{
  ℕ, ◌+◌, ◌%◌, ◌&&◌, Option, none, some, List, [], ◌∷◌, leb, ◌==◌, if◌then◌else◌, ◌>>=◌, unwrap_or,
  map_option, u16_mod,
}
use scaphandre.Float.{Float}
use scaphandre.Sensor.Core.{CpuCore, new_core}
use scaphandre.Sensor.Measure.{SensorData, lookup, insert}
use scaphandre.Sensor.Socket.{CpuSocket, add_cpu_core}
use scaphandre.Text.{Text, show, parse_u16}
use scaphandre.Topology.{Topology}

-- What the code asks of a `Cpu` of sysinfo
pub record CpuInfo : Type 0 where
  pub name : Text
  pub frequency : ℕ
  pub vendor_id : Text
  pub brand : Text

-- The CPUs that sysinfo lists, the fields of a CPU in /proc/cpuinfo, and the perf counters of a core,
-- instructions and cycles, where the kernel opens them
pub record CpuHost : Type 0 where
  pub cpus : List CpuInfo
  pub get_info : ℕ → Option SensorData
  pub instructions : ℕ → Option ℕ
  pub cycles : ℕ → Option ℕ

-- `trim_start_matches(|ch| !ch.is_ascii_digit())`
unfoldable pub trim_to_digit : Text → Text
trim_to_digit [] = []
trim_to_digit (c ∷ t) = let rest = trim_to_digit t in if leb 48 c && leb c 57 then c ∷ t else rest

unfoldable pub insert_all : SensorData → SensorData → SensorData
insert_all [] info = info
insert_all ((k, v) ∷ fields) info = insert_all fields (insert k v info)

module _ (host : CpuHost) where
  -- One round of the loop: `none` is the panic on a CPU that /proc/cpuinfo does not list
  unfoldable pub generate_cpu_core : ℕ → CpuInfo → Option CpuCore
  generate_cpu_core idx c = do
    let id = unwrap_or idx (parse_u16 (trim_to_digit c.name))
    fields ← host.get_info id
    let info = insert "brand" c.brand (
        insert "vendor_id" c.vendor_id
          (insert "name" c.name (insert "frequency" (show c.frequency) (insert_all fields []))))
    some (new_core id info (host.instructions id) (host.cycles id))

  unfoldable pub generate_from : ℕ → List CpuInfo → Option (List CpuCore)
  generate_from idx [] = some []
  generate_from idx (c ∷ cs) = do
    first ← generate_cpu_core idx c
    rest ← generate_from ((idx + 1) % u16_mod) cs
    some (first ∷ rest)

  -- `generate_cpu_cores`; `none` is a panic
  unfoldable pub generate_cpu_cores : Option (List CpuCore)
  generate_cpu_cores = generate_from 0 host.cpus

module _ (fl : Float) where
  -- `iter_mut().find(|x| x.id == socket_id)`, and `add_cpu_core` on what is found
  unfoldable pub add_to_match : ℕ → CpuCore → List (CpuSocket fl) → Option (List (CpuSocket fl))
  add_to_match socket_id c [] = none
  add_to_match socket_id c (s ∷ ss) =
      let rest = map_option (λ (xs : List (CpuSocket fl)). s ∷ xs) (add_to_match socket_id c ss) in
      if s.id == socket_id then some (add_cpu_core fl c s ∷ ss) else rest

  -- `first_mut`, and `add_cpu_core` on it; `none` is the panic where there is no socket
  unfoldable pub add_to_first : CpuCore → List (CpuSocket fl) → Option (List (CpuSocket fl))
  add_to_first c [] = none
  add_to_first c (s ∷ ss) = some (add_cpu_core fl c s ∷ ss)

  -- The socket of the number, or the first one; `none` is a panic
  unfoldable pub place_in : ℕ → CpuCore → List (CpuSocket fl) → Option (List (CpuSocket fl))
  place_in socket_id c ss = elim (add_to_match socket_id c ss) [
    | none ↦ add_to_first c ss
    | some placed ↦ some placed
  ]

  -- One round of the loop; `none` is a panic
  unfoldable pub place_core : CpuCore → List (CpuSocket fl) → Option (List (CpuSocket fl))
  place_core c ss = do
    socket_id ← lookup "physical id" c.attributes >>= parse_u16
    place_in socket_id c ss

  -- The loop takes the cores from the end.
  unfoldable pub place_cores : List CpuCore → List (CpuSocket fl) → Option (List (CpuSocket fl))
  place_cores [] ss = some ss
  place_cores (c ∷ cs) ss = do behind ← place_cores cs ss; place_core c behind

module _ (fs fl : Float) where
  -- `add_cpu_cores`; `none` is a panic
  unfoldable pub add_cpu_cores : CpuHost → Topology fs fl → Option (Topology fs fl)
  add_cpu_cores host t = do
    cores ← generate_cpu_cores host
    sockets ← place_cores fl cores t.sockets
    some (record t { sockets = sockets })
