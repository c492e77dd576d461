-- ===== src/Tracker.antt =====
-- scaphandre/src/sensors/utils.rs: the records of the processes on the host. What sysinfo and procfs
-- give of a process is an argument of the operation that asks for it.
pub mod Process
pub mod Insert
pub mod Valid
pub mod Lookup
pub mod Cleaning
pub mod Terminated
pub mod Alive
pub mod Created
pub mod Consumers
pub mod Ranked
pub mod Names
mod Examples
mod ConsumerExamples
use scaphandre.Base.{
  ℕ, zero, suc, ◌-◌, String, Bool, false, str_eq, Option, none, some, List, [], ◌∷◌, ltb, leb, ◌==◌,
  if◌then◌else◌, length, get_elem?, pop, saturating_sub, ◌>>=◌,
}
use scaphandre.Float.{Float}
use scaphandre.Sensor.Stat.{add_u64, sub_u64}
use scaphandre.Tracker.Process.{IProcess, ProcessRecord}

-- `ProcessTracker`, less its handles of sysinfo, of the eBPF map and of the compiled regexes. The
-- parameter stands for `f32`, in which a process has its share of the CPU.
pub record ProcessTracker (fs : Float) : Type 0 where
  pub procs : List (List (ProcessRecord fs))
  pub nb_cores : ℕ
  pub max_records_per_process : ℕ

module _ (fs : Float) where
  -- `new`, given the number of cores that sysinfo counts
  unfoldable pub new_tracker : ℕ → ℕ → ProcessTracker fs
  new_tracker max_records_per_process nb_cores = record {
    procs = [];
    nb_cores = nb_cores;
    max_records_per_process = max_records_per_process;
  }

  abbrev pub Records : Type 0
  Records = List (ProcessRecord fs)

  -- `!x.is_empty() && x[0].process.pid == pid`
  abbrev pub tracks : ℕ → Records → Bool
  tracks pid [] = false
  tracks pid (r ∷ rs) = r.process.pid == pid

  -- `sort_by(|a, b| b.timestamp.cmp(&a.timestamp))`, a stable sort, the newest first
  unfoldable pub insert_newest_first : ProcessRecord fs → Records → Records
  insert_newest_first r [] = r ∷ []
  insert_newest_first r (x ∷ xs) =
      if leb x.timestamp r.timestamp then r ∷ x ∷ xs else x ∷ insert_newest_first r xs

  unfoldable pub sort_newest_first : Records → Records
  unfolding insert_newest_first
  sort_newest_first [] = []
  sort_newest_first (r ∷ rs) = insert_newest_first r (sort_newest_first rs)

  -- `for _ in 0..diff { records.sort_by(…); records.pop(); }`
  unfoldable pub pop_oldest : ℕ → Records → Records
  pop_oldest zero rs = rs
  pop_oldest (suc diff) rs = pop_oldest diff (pop (sort_newest_first rs))

  -- `clean_old_process_records`
  unfoldable pub clean_old_process_records : ℕ → Records → Records
  clean_old_process_records max_records rs =
      if ltb max_records (length rs) then pop_oldest (length rs - max_records) rs else rs

  -- A vector of another program under the same pid is dropped for a new one.
  unfoldable pub same_program : ProcessRecord fs → Records → Records
  same_program r [] = []
  same_program r (x ∷ xs) = if str_eq r.process.comm x.process.comm then x ∷ xs else []

  -- The branch of `add_process_record` in which a vector was found
  unfoldable pub insert_record : ℕ → ProcessRecord fs → Records → Records
  insert_record max_records r rs = clean_old_process_records max_records (r ∷ same_program r rs)

  -- The first vector that tracks the pid is changed, and a new one is pushed where there is none.
  unfoldable pub add_to : ℕ → ProcessRecord fs → List Records → List Records
  add_to max_records r [] = (r ∷ []) ∷ []
  add_to max_records r (v ∷ vs) =
      if tracks r.process.pid v
      then insert_record max_records r v ∷ vs
      else v ∷ add_to max_records r vs

  -- `add_process_record`, at the time that `ProcessRecord::new` reads
  unfoldable pub add_process_record : ℕ → IProcess fs → ProcessTracker fs → ProcessTracker fs
  add_process_record now process t = record t {
    procs =
        add_to t.max_records_per_process (record { process = process; timestamp = now }) t.procs;
  }

  -- `find_records`: the last vector that tracks the pid
  unfoldable pub find_from : ℕ → Option Records → List Records → Option Records
  find_from pid refer [] = refer
  find_from pid refer (v ∷ vs) = find_from pid (if tracks pid v then some v else refer) vs

  unfoldable pub find_records : ℕ → ProcessTracker fs → Option Records
  find_records pid t = find_from pid none t.procs

  -- `get_process_last_record`
  unfoldable pub get_process_last_record : ℕ → ProcessTracker fs → Option (ProcessRecord fs)
  get_process_last_record pid t = do records ← find_records pid t; get_elem? records 0

  -- `get_all_pids`
  unfoldable pub pids_of : List Records → List ℕ
  pids_of [] = []
  pids_of ([] ∷ vs) = pids_of vs
  pids_of ((r ∷ rs) ∷ vs) = r.process.pid ∷ pids_of vs

  unfoldable pub get_all_pids : ProcessTracker fs → List ℕ
  get_all_pids t = pids_of t.procs

  -- The vectors that `filter` passes on
  unfoldable pub filter_tracking : ℕ → List Records → List Records
  filter_tracking pid [] = []
  filter_tracking pid (v ∷ vs) =
      if tracks pid v then v ∷ filter_tracking pid vs else filter_tracking pid vs

  -- `get_process_name`; `none` is a panic: of `unwrap`, or for two vectors of one pid
  unfoldable pub name_of : List Records → Option String
  name_of ((r ∷ rs) ∷ []) = some r.process.comm
  name_of _ = none

  unfoldable pub get_process_name : ℕ → ProcessTracker fs → Option String
  get_process_name pid t = name_of (filter_tracking pid t.procs)

  -- `get_per_core_cpu_time_delta`: the times of equally many cores, core by core
  unfoldable pub core_deltas : List ℕ → List ℕ → List ℕ
  core_deltas [] last_times = []
  core_deltas (p ∷ ps) [] = []
  core_deltas (p ∷ ps) (l ∷ ls) = sub_u64 l p ∷ core_deltas ps ls

  unfoldable pub get_per_core_cpu_time_delta : ℕ → ProcessTracker fs → Option (List ℕ)
  get_per_core_cpu_time_delta pid t = do
    records ← find_records pid t
    newest ← get_elem? records 0
    previous ← get_elem? records 1
    last_core_times ← newest.process.core_busy_times
    prev_core_times ← previous.process.core_busy_times
    if length prev_core_times == length last_core_times
        then some (core_deltas prev_core_times last_core_times)
        else none

  -- `get_process_cpu_time_delta_as_percentage`
  unfoldable pub get_process_cpu_time_delta_as_percentage :
      (fl : Float) → ℕ → ProcessTracker fs → Option fl.F
  get_process_cpu_time_delta_as_percentage fl pid t = do
    records ← find_records pid t
    newest ← get_elem? records 0
    previous ← get_elem? records 1
    let cpu_difference = saturating_sub newest.process.cpu_busy_time previous.process.cpu_busy_time
    let node_difference =
        saturating_sub newest.process.node_busy_time previous.process.node_busy_time
    if node_difference == 0
        then none
        else some (fl.mul (fl.div (fl.of_ℕ cpu_difference) (fl.of_ℕ node_difference)) (fl.of_ℕ 100))

  -- `total_time_jiffies` of a process
  unfoldable pub process_time_jiffies : ℕ → ProcessTracker fs → ℕ
  process_time_jiffies pid t = elim (get_process_last_record pid t) [
    | none ↦ 0
    | some r ↦ add_u64 r.process.stime r.process.utime
  ]
