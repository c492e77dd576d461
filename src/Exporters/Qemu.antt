-- ===== src/Exporters/Qemu.antt =====
-- `QemuExporter` of scaphandre/src/exporters/qemu.rs: the energy of each virtual machine, in files as the
-- powercap tree has them. The file system is an interface.
pub mod Files
pub mod Added
use scaphandre.Base.{
  ℕ, Bool, true, false, Option, none, some, List, [], ◌∷◌, ◌++◌, ltb, if◌then◌else◌, map_option,
  length, get_elem?, any, ◌>>=◌,
}
use scaphandre.Exporters.Qemu.Files.{FileSystem}
use scaphandre.Float.{Float}
use scaphandre.Sensor.Domain.{Layout}
use scaphandre.Sensor.Measure.{Record}
use scaphandre.Sensor.Stat.{add_u64}
use scaphandre.Text.{Text, codes, show, parse_u64}
use scaphandre.Text.Split.{split, starts_with, contains}
use scaphandre.Topology.{Topology}
use scaphandre.Topology.Measures.{get_records_diff_power_microwatts}
use scaphandre.Topology.Refresh.{World, refresh}
use scaphandre.Topology.Usage.{get_process_cpu_usage_percentage}
use scaphandre.Tracker.{Records}
use scaphandre.Tracker.Alive.{get_alive_processes}
use scaphandre.Tracker.Cleaning.{ProcessStatus}

-- `get_vm_name_from_cmdline`; `none` is the panic of `unwrap`
unfoldable pub get_vm_name_from_cmdline : List Text → Option Text
get_vm_name_from_cmdline [] = some []
get_vm_name_from_cmdline (elmt ∷ elmts) = elim (starts_with (codes "guest=") elmt) [
  | true ↦ (do value ← get_elem? (split b'=' elmt) 1; get_elem? (split b',' value) 0)
  | false ↦ get_vm_name_from_cmdline elmts
]

module _ {fs : Float} where
  abbrev is_qemu : Records fs → Bool
  is_qemu [] = false
  is_qemu (r ∷ rs) = any (λ x. contains (codes "qemu-system") x) r.process.cmdline

  -- `filter_qemu_vm_processes`
  unfoldable pub filter_qemu_vm_processes : List (Records fs) → List (Records fs)
  filter_qemu_vm_processes [] = []
  filter_qemu_vm_processes (v ∷ vs) =
      let rest = filter_qemu_vm_processes vs in if is_qemu v then v ∷ rest else rest

-- The number to write, from the file where it could be read; `none` is the panic of `unwrap`
unfoldable pub new_content : ℕ → Option Text → Option ℕ
new_content uj_value none = some 0
new_content uj_value (some file) = map_option (λ content. add_u64 content uj_value) (parse_u64 file)

module _ (files : FileSystem) where
  open files use {State, is_dir, create_dir_all, read_to_string, write}

  -- The folder is made where it cannot be read; `none` is the panic of an error
  unfoldable pub ensure_folder : Text → State → Option State
  ensure_folder path s = if is_dir path s then some s else create_dir_all path s

  -- `{path}/energy_uj`
  abbrev pub energy_file : Text → Text
  energy_file path = path ++ codes "/energy_uj"

  -- `add_or_create`: the files, and whether they were written; `none` is a panic
  unfoldable pub add_or_create : Text → ℕ → State → Option (State × Bool)
  add_or_create path uj_value s = do
    s' ← ensure_folder path s
    content ← new_content uj_value (read_to_string (energy_file path) s')
    some (write (energy_file path) (show content) s')

-- What the exporter asks sysinfo: the status and the command line of a process that it knows
pub record Processes : Type 0 where
  pub status : ℕ → Option ProcessStatus
  pub cmdline : ℕ → Option (List Text)

module _ (fs fl : Float) (files : FileSystem) where
  open files use {State}
  open fl use {of_ℕ, mul, div, to_u64, parse_f64}

  -- One round of the loop over the virtual machines, with the power of the host; `none` is a panic
  unfoldable pub export_process :
      Processes → Text → Record → Topology fs fl → Records fs → State → Option State
  export_process processes path topo_energy t qp s =
      if ltb 2 (length qp)
      then (do
        first ← get_elem? qp 0
        cmdline ← processes.cmdline first.process.pid
        vm_name ← get_vm_name_from_cmdline cmdline
        let folder = path ++ codes "/" ++ vm_name ++ codes "/intel-rapl:0"
        s' ← ensure_folder files (folder ++ codes ":0") s
        elim (get_process_cpu_usage_percentage fs fl first.process.pid t) [
          | none ↦ some s'
          | some ratio ↦ do
            share ← parse_f64 ratio.value
            power_uw ← parse_f64 topo_energy.value
            let uj_to_add = div (mul share power_uw) (of_ℕ 100)
            result ← add_or_create files folder (to_u64 uj_to_add) s'
            some result.0
        ])
      else some s

  unfoldable pub export_processes :
      Processes → Text → Record → Topology fs fl → List (Records fs) → State → Option State
  export_processes processes path topo_energy t [] s = some s
  export_processes processes path topo_energy t (qp ∷ qps) s = do
    s' ← export_process processes path topo_energy t qp s
    export_processes processes path topo_energy t qps s'

  -- `iterate`; `none` is a panic
  unfoldable pub iterate :
      Layout
      → World fs
      → Processes
      → Text
      → Topology fs fl
      → State
      → Option (Topology fs fl × State)
  iterate layout w processes path t s = do
    t' ← refresh fs fl layout w t
    elim (get_records_diff_power_microwatts fs fl w.now t') [
      | none ↦ some (t', s)
      | some topo_energy ↦
          let alive = get_alive_processes fs processes.status t'.proc_tracker in
          map_option (λ s'. (t', s'))
            (export_processes processes path topo_energy t' (filter_qemu_vm_processes alive) s)
    ]
