-- ===== src/Topology/Examples.antt =====
-- A host of two sockets, and the theorems at it, with fractions for `f32` and `f64`.
use scaphandre.Base.{
  ℕ, ◌+◌, ◌-◌, ◌%◌, ◌^◌, ◌≡◌, refl, true, false, none, some, List, [], ◌∷◌, arith, if◌then◌else◌,
}
use scaphandre.Float.Fractions.{fractions}
use scaphandre.Sensor.Domain.{Layout, Domain, new_domain}
use scaphandre.Sensor.Event.{CpuEventType, activation_event, idle_event, CpuStateEvent}
use scaphandre.Sensor.Measure.{new_record, same_text, SensorData, lookup, Files}
use scaphandre.Sensor.Socket.{CpuSocket, new_socket}
use scaphandre.Text.{Text, codes, is_whitespace, show}
use scaphandre.Topology.{
  Topology, push_events, events_of, safe_add_socket, safe_insert_socket, safe_add_domain_to_socket,
  collect_events,
}
use scaphandre.Topology.CpuTime.{cpu_delta, cpu_delta-of_elapsed}
use scaphandre.Topology.Disks.{get_disks-last}
use scaphandre.Topology.Events.{of_socket, IsDistinct, collect_events-of_sockets}
use scaphandre.Topology.Host.{
  HoldsNumber, DramTotal, no_domains, skip_domain, add_dram, HostTotal, no_sockets, add_socket,
  read_record-HostTotal,
}
use scaphandre.Topology.Measurable.{AllMeasurable}
use scaphandre.Topology.Measures.{read_record}
use scaphandre.Topology.Refresh.{World, refresh}
use scaphandre.Topology.Sockets.{ids_of, safe_add_socket-IsDistinct}
use scaphandre.Topology.Sorted.{
  IsSortedNames, has_name, has_domain_in, safe_add_domain_to_socket-names,
}
use scaphandre.Topology.System.{hdd, ssd, Disk, get_disks}
use scaphandre.Topology.Total.{refresh-total}
use scaphandre.Tracker.Created.{SystemProcess}
use scaphandre.Tracker.Valid.{IsValid}
use scaphandre.Units.{micro_joule}

abbrev layout : Layout
layout = record { record_size = 48; multi_record_size = 64; stat_size = 128 }

abbrev path_a : Text
path_a = b'a' ∷ []

abbrev path_b : Text
path_b = b'b' ∷ []

abbrev source : Text → SensorData
source path = ("source_file", path) ∷ []

-- The file `a` holds 90 and a newline, the file `b` 20.
abbrev disk : Files
disk path =
    if same_text path path_a
    then some (b'9' ∷ b'0' ∷ 10 ∷ [])
    else (if same_text path path_b then some (b'2' ∷ b'0' ∷ []) else none)

abbrev memory : Domain fractions
memory = new_domain fractions 0 (codes "dram") path_b 1 (source path_b)

abbrev graphics : Domain fractions
graphics = new_domain fractions 1 (codes "uncore") path_a 1 (source path_a)

abbrev socket_of : ℕ → CpuSocket fractions
socket_of id = new_socket fractions id (graphics ∷ memory ∷ []) [] path_a 1 (source path_a)

abbrev host : Topology fractions fractions
host = record {
  sockets = socket_of 0 ∷ socket_of 1 ∷ [];
  proc_tracker = record { procs = []; nb_cores = 2; max_records_per_process = 5 };
  stat_buffer = [];
  record_buffer = [];
  buffer_max_kbytes = 1;
  sensor_data = [];
  activation_idle_buffer = [];
  cpu_time_buffer = [];
  domains_names = none;
}

abbrev event : ℕ → CpuEventType → CpuStateEvent
event socket kind = record { socket_id = socket; event_type = kind }

-- A counter that wraps between two readings loses one.
cpu_delta-of_elapsed_example : cpu_delta ((2 ^ 64 - 3 + 10) % 2 ^ 64) (2 ^ 64 - 3) ≡ 9
cpu_delta-of_elapsed_example = cpu_delta-of_elapsed (2 ^ 64 - 3) 10 (omega arith) (omega arith)

collect_events-of_sockets_example :
    (collect_events fractions fractions
      (0 ∷ 1 ∷ [])
      (push_events (event 1 idle_event ∷ event 0 activation_event ∷ []) [])).0
    ≡ (event 0 activation_event ∷ []) ∷ (event 1 idle_event ∷ []) ∷ []
unfolding events_of of_socket
collect_events-of_sockets_example =
    collect_events-of_sockets fractions fractions (0 ∷ 1 ∷ [])
      (event 1 idle_event ∷ event 0 activation_event ∷ []) [] ((refl, tt), (tt, tt))

safe_add_socket-IsDistinct_example :
    ((safe_add_socket fractions fractions 1 [] [] path_a 1 (source path_a) host).0
      ≡ safe_insert_socket fractions fractions
          (new_socket fractions 1 [] [] path_a 1 (source path_a))
          host)
    × IsDistinct (ids_of (safe_insert_socket fractions fractions (socket_of 2) host).sockets)
unfolding new_socket
safe_add_socket-IsDistinct_example =
    safe_add_socket-IsDistinct 1 [] [] path_a 1 (source path_a) (socket_of 2) host
      ((refl, tt), (tt, tt))

ninety :
    (sensor_data : SensorData)
    → lookup "source_file" sensor_data ≡ some path_a
    → HoldsNumber disk sensor_data 90
unfolding lookup same_text show is_whitespace
ninety sensor_data e = record {
  path = path_a;
  before = [];
  behind = 10 ∷ [];
  source = e;
  content = refl;
  before-IsBlank = tt;
  behind-IsBlank = (refl, tt);
  fits = omega arith;
}

twenty :
    (sensor_data : SensorData)
    → lookup "source_file" sensor_data ≡ some path_b
    → HoldsNumber disk sensor_data 20
unfolding lookup same_text show
twenty sensor_data e = record {
  path = path_b;
  before = [];
  behind = [];
  source = e;
  content = refl;
  before-IsBlank = tt;
  behind-IsBlank = tt;
  fits = omega arith;
}

memory_total : DramTotal disk (graphics ∷ memory ∷ []) 20
unfolding new_domain lookup same_text
memory_total =
    skip_domain graphics (memory ∷ []) 20 refl
      (add_dram memory [] 20 0 refl (twenty (source path_b) refl) no_domains)

host_total : HostTotal disk host.sockets 220
unfolding new_socket lookup
host_total =
    add_socket (socket_of 0) (socket_of 1 ∷ []) 90 20 110 (ninety (source path_a) refl) memory_total
      (add_socket (socket_of 1) [] 90 20 0 (ninety (source path_a) refl) memory_total no_sockets)

read_record-HostTotal_example :
    read_record fractions fractions disk 7 host ≡ some (new_record 7 (show 220) micro_joule)
unfolding lookup
read_record-HostTotal_example =
    read_record-HostTotal fractions fractions disk 7 host 220 refl (omega arith) host_total

-- A process of a program
abbrev worker : SystemProcess fractions
worker = record {
  pid = 42;
  exe = some "worker";
  cmd = [];
  cpu_usage = (5, 1);
  memory = 0;
  virtual_memory = 0;
  read_bytes = 0;
  written_bytes = 0;
  total_read_bytes = 0;
  total_written_bytes = 0;
}

-- A refresh of the host at 7, with an event for the second socket and one process
abbrev world : World fractions
world = record {
  now = 7;
  files = disk;
  drained = some (event 1 idle_event ∷ []);
  kernel_stats = none;
  core_host = λ id. record {
    idle_states = [];
    read_msr = λ r. none;
    kernel_stats = none;
    read_counter = λ h. none;
  };
  cpu_time_map = some (λ cpu. some 5);
  system = record {
    global_usage = (10, 1);
    process = λ pid. some worker;
    stat = λ pid. some (3, 4);
    total = none;
  };
  processes = worker ∷ [];
  core_times_map = some (λ pid. some (8 ∷ 9 ∷ []));
}

host_measurable : AllMeasurable none host.sockets
unfolding new_socket new_domain lookup
host_measurable = (
  ((path_a, refl), ((path_a, refl), ((path_b, refl), tt)), tt),
  (((path_a, refl), ((path_a, refl), ((path_b, refl), tt)), tt), tt),
)

empty-IsValid : IsValid 3 host.proc_tracker
empty-IsValid = record { positive = omega arith; kept = tt; unique = tt }

refresh-total_example :
    (t' : Topology fractions fractions) × (refresh fractions fractions layout world host ≡ some t')
    × IsValid 7 t'.proc_tracker
refresh-total_example =
    refresh-total fractions fractions layout world 3 host (omega arith) empty-IsValid
      host_measurable ((_, refl), tt)

abbrev with_uncore : Topology fractions fractions
with_uncore = safe_add_domain_to_socket fractions fractions 1 5 (codes "uncore") path_b 1 [] host

safe_add_domain_to_socket-names_example :
    (names : List Text) × (with_uncore.domains_names ≡ some names)
    × IsSortedNames names
    × ((x : Text) → has_name x names ≡ has_domain_in x with_uncore.sockets)
safe_add_domain_to_socket-names_example =
    safe_add_domain_to_socket-names fractions fractions host 1 5 (codes "uncore") path_b 1 []

abbrev root_disk : Disk
root_disk = record {
  file_system = some (codes "ext4");
  mount_point = some (codes "/");
  disk_type = ssd;
  is_removable = false;
  name = some (codes "sda");
  total_space = 100;
  available_space = 40;
}

abbrev usb_disk : Disk
usb_disk = record {
  file_system = none;
  mount_point = none;
  disk_type = hdd;
  is_removable = true;
  name = none;
  total_space = 10;
  available_space = 4;
}

get_disks-last_example : get_disks 5 (root_disk ∷ usb_disk ∷ []) ≡ get_disks 5 (usb_disk ∷ [])
get_disks-last_example = get_disks-last 5 (root_disk ∷ []) usb_disk
