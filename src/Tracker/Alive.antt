-- ===== src/Tracker/Alive.antt =====
-- The processes that are alive, and what the tracker asks sysinfo and the kernel part for.
use scaphandre.Base.{
  ℕ, Bool, true, false, not, Option, none, some, List, [], ◌∷◌, ◌++◌, if◌then◌else◌, ◌>>=◌,
  map_option, get_elem?,
}
use scaphandre.Float.{Float}
use scaphandre.Text.{Text}
use scaphandre.Tracker.{ProcessTracker, Records, pids_of, filter_tracking}
use scaphandre.Tracker.Cleaning.{ProcessStatus, dead}
use scaphandre.Tracker.Process.{ProcessRecord}

-- `status != ProcessStatus::Dead`
abbrev is_dead : ProcessStatus → Bool
is_dead dead = true
is_dead _ = false

-- The parts of a command line, one behind the other
unfoldable pub concat : List Text → Text
concat [] = []
concat (t ∷ ts) = t ++ concat ts

module _ (fs : Float) where
  -- Whether sysinfo knows the process of a vector, and it is not dead
  abbrev pub is_alive : (ℕ → Option ProcessStatus) → Records fs → Bool
  is_alive status [] = false
  is_alive status (r ∷ rs) = elim (status r.process.pid) [
    | none ↦ false
    | some st ↦ not (is_dead st)
  ]

  unfoldable pub filter_alive : (ℕ → Option ProcessStatus) → List (Records fs) → List (Records fs)
  filter_alive status [] = []
  filter_alive status (v ∷ vs) =
      let rest = filter_alive status vs in if is_alive status v then v ∷ rest else rest

  -- `get_alive_processes`, given the status of each process that sysinfo knows
  unfoldable pub get_alive_processes :
      (ℕ → Option ProcessStatus) → ProcessTracker fs → List (Records fs)
  get_alive_processes status t = filter_alive status t.procs

  -- `get_alive_pids`
  unfoldable pub get_alive_pids : (ℕ → Option ProcessStatus) → ProcessTracker fs → List ℕ
  get_alive_pids status t = pids_of fs (get_alive_processes status t)

  -- `get_process_cmdline`, given what `IProcess::cmdline` finds; the outer `none` is the panic of `unwrap`
  unfoldable pub first_cmdline : (ℕ → Option (List Text)) → List (Records fs) → Option (Option Text)
  first_cmdline cmdline [] = none
  first_cmdline cmdline (v ∷ vs) =
      some (get_elem? v 0 >>= λ (r : ProcessRecord fs). map_option concat (cmdline r.process.pid))

  unfoldable pub get_process_cmdline :
      (ℕ → Option (List Text)) → ℕ → ProcessTracker fs → Option (Option Text)
  get_process_cmdline cmdline pid t = first_cmdline cmdline (filter_tracking fs pid t.procs)

  -- `get_process_core_times`, of the map of the kernel part where there is one
  unfoldable pub get_process_core_times : Option (ℕ → Option (List ℕ)) → ℕ → Option (List ℕ)
  get_process_core_times core_times_map pid = core_times_map >>= λ get. get pid
