-- ===== src/Powercap.antt =====
-- `PowercapRAPLSensor` of scaphandre/src/sensors/powercap_rapl.rs: the topology of the host is made of
-- the folders of the powercap tree. What is read of the host is an argument, and so are the regular
-- expressions, which the regex crate matches.
pub mod Scan
pub mod Sourced
pub mod Placed
pub mod Ready
pub mod Mmio
pub mod Scanned
pub mod Generated
mod Examples
use scaphandre.Base.{
  ℕ, String, Bool, str_eq, ◌||◌, Option, none, some, List, [], ◌++◌, if◌then◌else◌, ◌>>=◌,
  unwrap_or, map_option, get_elem?, any,
}
use scaphandre.Sensor.Measure.{same_text, SensorData, insert, Files}
use scaphandre.Text.{Text, codes, trim, show, parse_u16}
use scaphandre.Text.Split.{split}
use scaphandre.Topology.Cores.{CpuHost}

-- `DomainResource`
pub data DomainResource : Type 0 where
  memory cpu gpu : DomainResource

-- `Display for DomainResource`
unfoldable pub display_resource : DomainResource → Text
display_resource cpu = codes "core"
display_resource gpu = codes "uncore"
display_resource memory = codes "dram"

-- `DomainResource::parse`; `none` is the panic
unfoldable pub parse_resource : Text → Option DomainResource
parse_resource name =
    if same_text name (codes "core")
    then some cpu
    else (if same_text name (codes "uncore")
        then some gpu
        else (if same_text name (codes "dram") then some memory else none))

-- `PowercapRAPLSensor`
pub record PowercapSensor : Type 0 where
  pub base_path : Text
  pub buffer_per_socket_max_kbytes : ℕ
  pub buffer_per_domain_max_kbytes : ℕ
  pub virtual_machine : Bool

-- `new`, given the variable SCAPHANDRE_POWERCAP_PATH of the environment, where it is set
unfoldable pub new_sensor : ℕ → ℕ → Bool → Option Text → PowercapSensor
new_sensor buffer_per_socket_max_kbytes buffer_per_domain_max_kbytes virtual_machine path = record {
  base_path =
      if virtual_machine
      then unwrap_or (codes "/var/scaphandre") path
      else codes "/sys/class/powercap";
  buffer_per_socket_max_kbytes = buffer_per_socket_max_kbytes;
  buffer_per_domain_max_kbytes = buffer_per_domain_max_kbytes;
  virtual_machine = virtual_machine;
}

-- What `generate_topology` reads of the host, which does not change while it runs: the names of the
-- kernel modules, the paths in the powercap folder (`none` where it, an entry or a name cannot be read,
-- on which the code panics), the files, `is_match` of the regex crate, the CPUs and their number.
pub record PowercapHost : Type 0 where
  pub modules : Option (List String)
  pub folders : Option (List Text)
  pub files : Files
  pub is_match : String → Text → Bool
  pub cpu_host : CpuHost
  pub nb_cores : ℕ

-- `check_module`: the outer `none` is a panic, `some true` that a module was found
unfoldable pub check_module : PowercapHost → Option Bool
check_module host =
    map_option
      (any
        (λ m. str_eq m "intel_rapl" || str_eq m "intel_rapl_msr" || str_eq m "intel_rapl_common"))
      host.modules

abbrev pub re_socket : String
re_socket = "^.*/intel-rapl:\\d+$"

abbrev pub re_domain : String
re_domain = "^.*/intel-rapl:\\d+:\\d+$"

abbrev pub re_socket_mmio : String
re_socket_mmio = "^.*/intel-rapl-mmio:\\d+$"

abbrev pub re_domain_mmio : String
re_domain_mmio = "^.*/intel-rapl-mmio:\\d+:\\d+$"

-- The second and the third part of a folder's name, as numbers; `none` is a panic
unfoldable pub second_number : Text → Option ℕ
second_number folder = get_elem? (split b':' folder) 1 >>= parse_u16

unfoldable pub third_number : Text → Option ℕ
third_number folder = get_elem? (split b':' folder) 2 >>= parse_u16

-- `{base_path}/intel-rapl:{socket_id}`
unfoldable pub socket_folder : Text → ℕ → Text
socket_folder base_path socket_id = base_path ++ codes "/intel-rapl:" ++ show socket_id

unfoldable pub socket_source : Text → ℕ → Text
unfolding socket_folder
socket_source base_path socket_id = socket_folder base_path socket_id ++ codes "/energy_uj"

-- `{base_path}/intel-rapl:{socket_id}:{domain_id}/energy_uj`
unfoldable pub domain_source : Text → ℕ → ℕ → Text
unfolding socket_folder
domain_source base_path socket_id domain_id =
    socket_folder base_path socket_id ++ codes ":" ++ show domain_id ++ codes "/energy_uj"

-- The data of a socket or a domain: its source file, and its range where that can be read
unfoldable pub source_data : Files → Text → Text → SensorData
source_data files source range_file = elim (files range_file) [
  | none ↦ insert "source_file" source []
  | some range ↦ insert "max_energy_range_uj" (trim range) (insert "source_file" source [])
]
