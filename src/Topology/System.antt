-- ===== src/Topology/System.antt =====
-- What the topology hands on of the system: its load, memory, disks and counts of processes. What sysinfo
-- and /proc/stat say is an argument.
use scaphandre.Base.{
  ℕ, String, Bool, str_eq, Option, none, some, List, [], ◌∷◌, if◌then◌else◌, ◌>>=◌, map_option,
}
use scaphandre.Float.{Float}
use scaphandre.Sensor.Measure.{Record, new_record, SensorData, insert}
use scaphandre.Text.{Text, codes, show}
use scaphandre.Units.{numeric, bytes, mega_hertz}

-- `DiskType` of sysinfo
pub data DiskType : Type 0 where
  hdd ssd unknown_disk : DiskType

-- What the code asks of a `Disk`; a name is there where it is Unicode
pub record Disk : Type 0 where
  pub file_system : Option Text
  pub mount_point : Option Text
  pub disk_type : DiskType
  pub is_removable : Bool
  pub name : Option Text
  pub total_space : ℕ
  pub available_space : ℕ

-- What the code asks of `System`, with the averages of one and of five minutes
pub record SystemInfo (fl : Float) : Type 0 where
  pub load_one : fl.F
  pub load_five : fl.F
  pub frequency : ℕ
  pub disks : List Disk
  pub total_memory : ℕ
  pub available_memory : ℕ
  pub free_memory : ℕ
  pub total_swap : ℕ
  pub free_swap : ℕ

-- The counts in /proc/stat
pub record ProcessCounts : Type 0 where
  pub processes : ℕ
  pub procs_running : Option ℕ
  pub procs_blocked : Option ℕ
  pub ctxt : ℕ

-- `HashMap<String, (String, HashMap<String, String>, Record)>`
abbrev pub DiskMetrics : Type 0
DiskMetrics = List (String × (Text × SensorData × Record))

unfoldable pub insert_metric : String → Text × SensorData × Record → DiskMetrics → DiskMetrics
insert_metric k v [] = (k, v) ∷ []
insert_metric k v ((j, w) ∷ m) = if str_eq j k then (k, v) ∷ m else (j, w) ∷ insert_metric k v m

abbrev pub insert_if : String → Option Text → SensorData → SensorData
insert_if k none attributes = attributes
insert_if k (some v) attributes = insert k v attributes

abbrev disk_type_name : DiskType → Text
disk_type_name ssd = codes "SSD"
disk_type_name hdd = codes "HDD"
disk_type_name unknown_disk = codes "Unknown"

unfoldable pub disk_attributes : Disk → SensorData
disk_attributes d = insert_if "disk_name" d.name (
    insert "disk_is_removable" (if d.is_removable then codes "true" else codes "false") (
      insert "disk_type" (disk_type_name d.disk_type) (
        insert_if "disk_mount_point" d.mount_point
          (insert_if "disk_file_system" d.file_system []))))

-- One round of the loop over the disks
unfoldable pub insert_disk : ℕ → Disk → DiskMetrics → DiskMetrics
insert_disk timestamp d res =
    insert_metric "scaph_host_disk_available_bytes"
      (
        codes "Available disk space, in bytes.",
        disk_attributes d,
        new_record timestamp (show d.available_space) bytes,
      )
      (insert_metric "scaph_host_disk_total_bytes"
        (
          codes "Total disk size, in bytes.",
          disk_attributes d,
          new_record timestamp (show d.total_space) bytes,
        )
        res)

unfoldable pub insert_disks : ℕ → List Disk → DiskMetrics → DiskMetrics
insert_disks timestamp [] res = res
insert_disks timestamp (d ∷ ds) res = insert_disks timestamp ds (insert_disk timestamp d res)

-- `get_disks`
unfoldable pub get_disks : ℕ → List Disk → DiskMetrics
get_disks timestamp ds = insert_disks timestamp ds []

-- `get_load_avg`, with the average of five minutes twice
unfoldable pub get_load_avg : {fl : Float} → ℕ → SystemInfo fl → List Record
get_load_avg {fl = fl} timestamp info =
    new_record timestamp (fl.show_f64 info.load_one) numeric
    ∷ new_record timestamp (fl.show_f64 info.load_five) numeric
    ∷ new_record timestamp (fl.show_f64 info.load_five) numeric
    ∷ []

-- `get_cpu_frequency`
unfoldable pub get_cpu_frequency : {fl : Float} → ℕ → SystemInfo fl → Record
get_cpu_frequency timestamp info = new_record timestamp (show info.frequency) mega_hertz

abbrev in_bytes : ℕ → ℕ → Record
in_bytes timestamp n = new_record timestamp (show n) bytes

-- The readers of memory and swap space
unfoldable pub get_total_memory_bytes : {fl : Float} → ℕ → SystemInfo fl → Record
get_total_memory_bytes timestamp info = in_bytes timestamp info.total_memory

unfoldable pub get_available_memory_bytes : {fl : Float} → ℕ → SystemInfo fl → Record
get_available_memory_bytes timestamp info = in_bytes timestamp info.available_memory

unfoldable pub get_free_memory_bytes : {fl : Float} → ℕ → SystemInfo fl → Record
get_free_memory_bytes timestamp info = in_bytes timestamp info.free_memory

unfoldable pub get_total_swap_bytes : {fl : Float} → ℕ → SystemInfo fl → Record
get_total_swap_bytes timestamp info = in_bytes timestamp info.total_swap

unfoldable pub get_free_swap_bytes : {fl : Float} → ℕ → SystemInfo fl → Record
get_free_swap_bytes timestamp info = in_bytes timestamp info.free_swap

-- The counts in /proc/stat, where it can be read
unfoldable pub read_nb_process_total_count : Option ProcessCounts → Option ℕ
read_nb_process_total_count counts = map_option ProcessCounts.processes counts

unfoldable pub read_nb_process_running_current : Option ProcessCounts → Option ℕ
read_nb_process_running_current counts = counts >>= ProcessCounts.procs_running

unfoldable pub read_nb_process_blocked_current : Option ProcessCounts → Option ℕ
read_nb_process_blocked_current counts = counts >>= ProcessCounts.procs_blocked

unfoldable pub read_nb_context_switches_total_count : Option ProcessCounts → Option ℕ
read_nb_context_switches_total_count counts = map_option ProcessCounts.ctxt counts
