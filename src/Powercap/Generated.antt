-- ===== src/Powercap/Generated.antt =====
-- The topology that the powercap folders give can be refreshed.
use mathlib.Core.Path.{subst}
use scaphandre.Base.{
  ℕ, String, ◌≡◌, refl, sym, ap, true, ◌||◌, some, List, arith, bind-some, map_option, any,
}
use scaphandre.Float.{Float}
use scaphandre.Powercap.{PowercapSensor, PowercapHost, check_module, re_domain}
use scaphandre.Powercap.Placed.{AllPlaced, place_cores_sound}
use scaphandre.Powercap.Ready.{AllReadable}
use scaphandre.Powercap.Scan.{is_package, generate_topology}
use scaphandre.Powercap.Scanned.{scan_all_sound}
use scaphandre.Powercap.Sourced.{IsSound, AllSoundSockets-AllMeasurable}
use scaphandre.Sensor.Core.{CpuCore}
use scaphandre.Sensor.Domain.{Layout}
use scaphandre.Sensor.Socket.Sources.{AllKnown}
use scaphandre.Text.{Text}
use scaphandre.Topology.{Topology}
use scaphandre.Topology.Cores.{generate_cpu_cores, add_cpu_cores}
use scaphandre.Topology.Events.{IsDistinct}
use scaphandre.Topology.Refresh.{World, refresh}
use scaphandre.Topology.Total.{AllProgramsNamed, refresh-total}
use scaphandre.Tracker.{new_tracker}
use scaphandre.Tracker.Valid.{IsValid}

fresh-IsValid : {fs : Float} (nb_cores : ℕ) → IsValid 0 (new_tracker fs 5 nb_cores)
unfolding new_tracker
fresh-IsValid nb_cores = record { positive = omega arith; kept = tt; unique = tt }

module _ (fs fl : Float) (sensor : PowercapSensor) (host : PowercapHost) where
  -- The modules of the kernel and the folder of powercap can be listed. Each folder in it that a pattern
  -- of the code matches has a number of 16 bits for its socket, and a domain one for itself; the name in
  -- a domain folder, where it can be read, is a resource that the code knows; and the name in an mmio
  -- domain folder can be read. One of the folders makes a socket. /proc/cpuinfo can be read, each of its
  -- CPUs has the number of a socket in its field `physical id`, and /proc/stat has a line for each where it
  -- can be read. Then no panic happens: a topology is generated in which every socket and domain names
  -- the counter of its own number in the powercap folder, and in which no two sockets have one number;
  -- and a refresh of it does not panic, where the paths of the programs of all processes are Unicode.
  pub generate_topology-refresh :
      (layout : Layout) (w : World fs) (modules : List String) (folders : List Text)
      (cores : List CpuCore)
      → host.modules ≡ some modules
      → host.folders ≡ some folders
      → AllReadable host folders
      → (any (host.is_match re_domain) folders || any (is_package fs fl sensor host) folders) ≡ true
      → generate_cpu_cores host.cpu_host ≡ some cores
      → AllPlaced cores
      → AllKnown w.kernel_stats cores
      → AllProgramsNamed fs fl layout w w.processes
      → (t : Topology fs fl) × (generate_topology fs fl sensor host ≡ some t)
        × IsSound sensor.base_path w.kernel_stats t.sockets
        × ((t' : Topology fs fl) × (refresh fs fl layout w t ≡ some t'))
  unfolding generate_topology check_module add_cpu_cores
  generate_topology-refresh layout w modules folders cores listed opened r some_socket made p k n =
      let found = scan_all_sound fs fl sensor host w.kernel_stats folders r in
      let placed =
        place_cores_sound sensor.base_path w.kernel_stats cores found.0.sockets p
          (found.3 some_socket) k found.2.0.sourced in
      let t : Topology fs fl = record found.0 { sockets = placed.0 } in
      let refreshed =
        refresh-total fs fl layout w 0 t (omega arith)
          (subst (IsValid 0) (sym found.2.1) (fresh-IsValid host.nb_cores))
          (AllSoundSockets-AllMeasurable sensor.base_path w.kernel_stats placed.0 placed.2.0) n in
      (
        t,
        bind-some _ (ap (map_option _) listed) (
            bind-some _ opened
              (bind-some _ found.1 (bind-some _ made (bind-some _ placed.1 refl)))),
        record {
          sourced = placed.2.0;
          distinct = subst IsDistinct (sym placed.2.1) found.2.0.distinct;
        },
        (refreshed.0, refreshed.1),
      )
