-- ===== src/Powercap/Scan.antt =====
-- `generate_topology`: the loops over the folders of the powercap tree.
use scaphandre.Base.{
  ℕ, Bool, false, not, ◌&&◌, Option, none, some, List, [], ◌∷◌, ◌++◌, map, ◌==◌, if◌then◌else◌,
  map_option, any, ◌>>=◌,
}
use scaphandre.Float.{Float}
use scaphandre.Powercap.{
  display_resource, parse_resource, PowercapSensor, PowercapHost, check_module, re_socket,
  re_domain, re_socket_mmio, re_domain_mmio, second_number, third_number, socket_folder,
  socket_source, domain_source, source_data,
}
use scaphandre.Sensor.Domain.{Domain}
use scaphandre.Sensor.Measure.{same_text, insert}
use scaphandre.Sensor.Socket.{CpuSocket}
use scaphandre.Text.{Text, codes, trim, show}
use scaphandre.Topology.{Topology, new_topology, safe_add_socket, safe_add_domain_to_socket}
use scaphandre.Topology.Cores.{add_cpu_cores}

module _ (fs fl : Float) (sensor : PowercapSensor) (host : PowercapHost) where
  abbrev read_name : Text → Option Text
  read_name folder = host.files (folder ++ codes "/name")

  -- The socket of the number is added, where it is new
  unfoldable pub add_package : ℕ → Topology fs fl → Topology fs fl
  add_package socket_id t =
      (safe_add_socket fs fl socket_id [] [] (socket_source sensor.base_path socket_id)
        sensor.buffer_per_socket_max_kbytes
        (source_data host.files (socket_source sensor.base_path socket_id)
          (socket_folder sensor.base_path socket_id ++ codes "/max_energy_range_uj"))
        t).0

  -- A domain folder: its socket, and the domain where the name of it can be read; `none` is a panic
  unfoldable pub add_domain_folder : Text → Topology fs fl → Option (Topology fs fl)
  add_domain_folder folder t = do
    socket_id ← second_number folder
    domain_id ← third_number folder
    let with_socket = add_package socket_id t
    let source = domain_source sensor.base_path socket_id domain_id
    let found = source_data host.files source (folder ++ codes "/max_energy_range_uj")
    elim (read_name folder) [
      | none ↦ some with_socket
      | some name ↦
          map_option
            (λ resource.
              safe_add_domain_to_socket fs fl socket_id domain_id (trim name) source
                sensor.buffer_per_domain_max_kbytes
                (insert "related_resource" (display_resource resource) found) with_socket)
            (parse_resource (trim name))
    ]

  -- A socket folder of the mmio tree; `none` is a panic
  unfoldable pub mark_socket : Text → Topology fs fl → Option (Topology fs fl)
  mark_socket folder t = do
    socket_id ← second_number folder
    let mmio = sensor.base_path ++ codes "/intel-rapl-mmio:" ++ show socket_id ++ codes "/energy_uj"
    some (record t {
      sockets =
          map
            (λ (s : CpuSocket fl).
              if s.id == socket_id
              then record s { sensor_data = insert "mmio" mmio s.sensor_data }
              else s)
            t.sockets;
    })

  -- The domains of a socket that have the name in the folder; `none` is the panic of `unwrap`
  unfoldable pub mark_domains : Text → List (Domain fl) → Option (List (Domain fl))
  mark_domains folder [] = some []
  mark_domains folder (d ∷ ds) = do
    name ← read_name folder
    rest ← mark_domains folder ds
    let mmio = folder ++ codes "/energy_uj"
    some (
        (if same_text (trim d.name) (trim name)
          then record d { sensor_data = insert "mmio" mmio d.sensor_data }
          else d)
        ∷ rest)

  unfoldable pub mark_sockets : Text → ℕ → List (CpuSocket fl) → Option (List (CpuSocket fl))
  mark_sockets folder socket_id [] = some []
  mark_sockets folder socket_id (s ∷ ss) = do
    rest ← mark_sockets folder socket_id ss
    let marked = map_option (λ ds. record s { domains = ds } ∷ rest) (mark_domains folder s.domains)
    if s.id == socket_id then marked else some (s ∷ rest)

  -- A domain folder of the mmio tree; `none` is a panic
  unfoldable pub mark_domain_folder : Text → Topology fs fl → Option (Topology fs fl)
  mark_domain_folder folder t = do
    socket_id ← second_number folder
    sockets ← mark_sockets folder socket_id t.sockets
    some (record t { sockets = sockets })

  -- One round of the first loop; `none` is a panic
  unfoldable pub scan_folder : Text → Topology fs fl → Option (Topology fs fl)
  scan_folder folder t =
      if host.is_match re_domain folder
      then add_domain_folder folder t
      else (if host.is_match re_socket_mmio folder
          then mark_socket folder t
          else (if host.is_match re_domain_mmio folder
              then mark_domain_folder folder t
              else some t))

  unfoldable pub scan_folders : List Text → Topology fs fl → Option (Topology fs fl)
  scan_folders [] t = some t
  scan_folders (folder ∷ folders) t = do first ← scan_folder folder t; scan_folders folders first

  -- `domain_name != "psys"`, with the name as it is in the file, and the match of a socket folder
  unfoldable pub is_package : Text → Bool
  is_package folder = elim (read_name folder) [
    | none ↦ false
    | some name ↦ not (same_text name (codes "psys")) && host.is_match re_socket folder
  ]

  -- The fallback on socket folders, one round and the loop; `none` is a panic
  unfoldable pub scan_package : Text → Topology fs fl → Option (Topology fs fl)
  scan_package folder t =
      if is_package folder
      then map_option (λ socket_id. add_package socket_id t) (second_number folder)
      else some t

  unfoldable pub scan_packages : List Text → Topology fs fl → Option (Topology fs fl)
  scan_packages [] t = some t
  scan_packages (folder ∷ folders) t = do first ← scan_package folder t; scan_packages folders first

  -- The last loop, one round and the whole: the folder whose name is psys
  unfoldable pub mark_psys : Text → Topology fs fl → Topology fs fl
  mark_psys folder t = elim (read_name folder) [
    | none ↦ t
    | some name ↦
        if same_text (trim name) (codes "psys")
        then record t { sensor_data = insert "psys" folder t.sensor_data }
        else t
  ]

  unfoldable pub scan_psys : List Text → Topology fs fl → Topology fs fl
  scan_psys [] t = t
  scan_psys (folder ∷ folders) t = scan_psys folders (mark_psys folder t)

  -- The sockets and domains of the folders; `none` is a panic
  unfoldable pub scan_all : List Text → Option (Topology fs fl)
  scan_all folders = do
    scanned ← scan_folders folders (new_topology fs fl host.nb_cores [])
    found ←
        if any (host.is_match re_domain) folders
        then some scanned
        else scan_packages folders scanned
    some (scan_psys folders found)

  -- `generate_topology`; `none` is a panic
  unfoldable pub generate_topology : Option (Topology fs fl)
  generate_topology = do
    modules_state ← check_module host
    folders ← host.folders
    found ← scan_all folders
    add_cpu_cores fs fl host.cpu_host found
