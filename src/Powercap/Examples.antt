-- ===== src/Powercap/Examples.antt =====
-- Tests of the powercap sensor, and its theorem at a concrete host.
use mathlib.Core.Bool.{true≢false}
use mathlib.Core.Option.{some-injective}
use mathlib.Core.Path.{subst}
use scaphandre.Base.{
  ℕ, String, ◌≡◌, refl, sym, Bool, true, false, str_eq, ◌&&◌, ◌||◌, none, some, List, [], ◌∷◌, ◌++◌,
  ◌==◌, if◌then◌else◌, length, any,
}
use scaphandre.Float.Fractions.{fractions}
use scaphandre.Powercap.{
  memory, parse_resource, PowercapSensor, new_sensor, PowercapHost, re_socket, re_domain,
  re_domain_mmio, second_number, third_number,
}
use scaphandre.Powercap.Generated.{generate_topology-refresh}
use scaphandre.Powercap.Placed.{AllPlaced}
use scaphandre.Powercap.Ready.{IsReadable}
use scaphandre.Powercap.Scan.{is_package, generate_topology}
use scaphandre.Powercap.Sourced.{IsSound}
use scaphandre.Sensor.Core.{CpuCore, new_core, read_stats}
use scaphandre.Sensor.Domain.{Layout}
use scaphandre.Sensor.Measure.{same_text, lookup, insert, Files}
use scaphandre.Sensor.Socket.Sources.{AllKnown}
use scaphandre.Text.{Text, codes, trim, show, parse_nonempty, parse_unsigned}
use scaphandre.Text.Split.{cons_first, split, starts_with, contains}
use scaphandre.Topology.{Topology}
use scaphandre.Topology.Cores.{
  CpuHost, trim_to_digit, insert_all, generate_cpu_core, generate_from, generate_cpu_cores,
}
use scaphandre.Topology.Refresh.{World, refresh}

abbrev parts : Text → ℕ
parts folder = length (split b':' folder)

-- What the four patterns match, among the paths of this host
abbrev is_match : String → Text → Bool
is_match re folder =
    if str_eq re re_domain
    then contains (codes "/intel-rapl:") folder && parts folder == 3
    else (if str_eq re re_socket
        then contains (codes "/intel-rapl:") folder && parts folder == 2
        else (if str_eq re re_domain_mmio
            then contains (codes "/intel-rapl-mmio:") folder && parts folder == 3
            else contains (codes "/intel-rapl-mmio:") folder && parts folder == 2))

abbrev package_folder : Text
package_folder = codes "/p/intel-rapl:0"

abbrev memory_folder : Text
memory_folder = codes "/p/intel-rapl:0:1"

abbrev mmio_folder : Text
mmio_folder = codes "/p/intel-rapl-mmio:0"

abbrev mmio_memory_folder : Text
mmio_memory_folder = codes "/p/intel-rapl-mmio:0:0"

abbrev folders : List Text
folders = package_folder ∷ memory_folder ∷ mmio_folder ∷ mmio_memory_folder ∷ []

abbrev is_name : Text → Bool
is_name path =
    same_text path (memory_folder ++ codes "/name")
    || same_text path (mmio_memory_folder ++ codes "/name")

abbrev disk : Files
disk path = if is_name path then some (codes "dram\n") else none

abbrev one_cpu : CpuHost
one_cpu = record {
  cpus = record { name = codes "cpu0"; frequency = 2000; vendor_id = []; brand = [] } ∷ [];
  get_info = λ id. some (("physical id", codes "0") ∷ []);
  instructions = λ id. none;
  cycles = λ id. none;
}

abbrev host : PowercapHost
host = record {
  modules = some ("intel_rapl_msr" ∷ []);
  folders = some folders;
  files = disk;
  is_match = is_match;
  cpu_host = one_cpu;
  nb_cores = 1;
}

abbrev sensor : PowercapSensor
sensor = new_sensor 1 1 true (some (codes "/p"))

abbrev core : CpuCore
core =
    new_core 0
      (("physical id", codes "0")
        ∷ ("frequency", codes "2000")
        ∷ ("name", codes "cpu0")
        ∷ ("vendor_id", [])
        ∷ ("brand", [])
        ∷ [])
      none none

abbrev world : World fractions
world = record {
  now = 7;
  files = disk;
  drained = none;
  kernel_stats = none;
  core_host = λ id. record {
    idle_states = [];
    read_msr = λ r. none;
    kernel_stats = none;
    read_counter = λ h. none;
  };
  cpu_time_map = none;
  system = record {
    global_usage = (10, 1);
    process = λ pid. none;
    stat = λ pid. some (3, 4);
    total = none;
  };
  processes = [];
  core_times_map = none;
}

abbrev layout : Layout
layout = record { record_size = 48; multi_record_size = 64; stat_size = 80 }

-- A pattern that does not match leaves nothing to show.
unmatched {ℓ} : {A : Type ℓ} → false ≡ true → A
unmatched h = absurd (true≢false (sym h))

core_found : generate_cpu_cores one_cpu ≡ some (core ∷ [])
unfolding generate_cpu_cores generate_from generate_cpu_core insert_all insert trim_to_digit
    parse_unsigned show parse_nonempty
core_found = refl

package-IsReadable : IsReadable host package_folder
unfolding contains split cons_first starts_with second_number parse_unsigned parse_nonempty
package-IsReadable = record {
  numbers = unmatched;
  resource = unmatched;
  socket_number = λ h. (0, refl);
  mmio_number = unmatched;
  mmio_name = unmatched;
}

memory-IsReadable : IsReadable host memory_folder
unfolding contains split cons_first starts_with second_number third_number parse_unsigned
    parse_nonempty same_text parse_resource trim
memory-IsReadable = record {
  numbers = λ h. ((0, refl), (1, refl));
  resource = λ h name e.
      (memory, subst (λ n. parse_resource (trim n) ≡ some memory) (some-injective _ _ e) refl);
  socket_number = unmatched;
  mmio_number = unmatched;
  mmio_name = unmatched;
}

mmio-IsReadable : IsReadable host mmio_folder
unfolding contains split cons_first starts_with second_number parse_unsigned parse_nonempty
mmio-IsReadable = record {
  numbers = unmatched;
  resource = unmatched;
  socket_number = unmatched;
  mmio_number = λ h. (0, refl);
  mmio_name = unmatched;
}

mmio_memory-IsReadable : IsReadable host mmio_memory_folder
unfolding contains split cons_first starts_with second_number same_text parse_unsigned
    parse_nonempty
mmio_memory-IsReadable = record {
  numbers = unmatched;
  resource = unmatched;
  socket_number = unmatched;
  mmio_number = unmatched;
  mmio_name = λ h. ((0, refl), (codes "dram\n", refl));
}

some_domain :
    (any (is_match re_domain) folders || any (is_package fractions fractions sensor host) folders)
    ≡ true
unfolding contains split cons_first starts_with
some_domain = refl

core_known : AllKnown none (core ∷ [])
unfolding read_stats
core_known = ((none, refl), tt)

core_placed : AllPlaced (core ∷ [])
unfolding new_core lookup parse_unsigned parse_nonempty
core_placed = ((0, refl), tt)

generate_topology-refresh_example :
    (t : Topology fractions fractions) × (generate_topology fractions fractions sensor host
      ≡ some t)
    × IsSound sensor.base_path none t.sockets
    × ((t' : Topology fractions fractions) × (refresh fractions fractions layout world t ≡ some t'))
generate_topology-refresh_example =
    generate_topology-refresh fractions fractions sensor host layout world ("intel_rapl_msr" ∷ [])
      folders (core ∷ []) refl refl
      (package-IsReadable, (memory-IsReadable, (mmio-IsReadable, (mmio_memory-IsReadable, tt))))
      some_domain core_found core_placed core_known tt
