-- ===== src/Tracker/Cleaning.antt =====
-- `clean_terminated_process_records_vectors` of scaphandre/src/sensors/utils.rs: what it does to the
-- tracked vectors.
-- `sysinfo::ProcessStatus`, with the variants that the code names
use scaphandre.Base.{
  ℕ, zero, suc, ◌-◌, Bool, true, false, Option, none, some, List, [], ◌∷◌, if◌then◌else◌, length,
}
use scaphandre.Float.{Float}
use scaphandre.Tracker.{ProcessTracker, Records}

pub data ProcessStatus : Type 0 where
  idle : ProcessStatus
  dead : ProcessStatus
  stop : ProcessStatus
  run : ProcessStatus
  lock_blocked : ProcessStatus
  waking : ProcessStatus
  wakekill : ProcessStatus
  tracing : ProcessStatus
  zombie : ProcessStatus
  sleep : ProcessStatus
  parked : ProcessStatus
  uninterruptible_disk_sleep : ProcessStatus
  unknown : ℕ → ProcessStatus

-- Whether the vector of a process of this status is left as it is
abbrev pub keeps : Option ProcessStatus → Bool
keeps none = false
keeps (some stop) = false
keeps (some idle) = true
keeps (some dead) = true
keeps (some run) = true
keeps (some lock_blocked) = true
keeps (some waking) = true
keeps (some wakekill) = true
keeps (some tracing) = true
keeps (some zombie) = true
keeps (some sleep) = true
keeps (some parked) = true
keeps (some uninterruptible_disk_sleep) = true
keeps (some (unknown code)) = true

module _ {fs : Float} where
  -- `Vec::remove` for an index in range
  abbrev pub remove_at : ℕ → List (Records fs) → List (Records fs)
  remove_at i [] = []
  remove_at zero (v ∷ vs) = vs
  remove_at (suc i) (v ∷ vs) = v ∷ remove_at i vs

  abbrev pub is_empty_at : ℕ → List (Records fs) → Bool
  is_empty_at i [] = false
  is_empty_at zero ([] ∷ vs) = true
  is_empty_at zero ((r ∷ rs) ∷ vs) = false
  is_empty_at (suc i) (v ∷ vs) = is_empty_at i vs

  -- The rounds of `for i in 0..(procs.len() - 1)` that are left, from the index on: a removal moves
  -- the vectors behind it, and the index goes on.
  unfoldable pub drop_empty_from : ℕ → ℕ → List (Records fs) → List (Records fs)
  drop_empty_from zero i procs = procs
  drop_empty_from (suc rounds) i procs =
      drop_empty_from rounds (suc i) (if is_empty_at i procs then remove_at i procs else procs)

  -- `drop_empty_process_records_vectors`
  unfoldable pub drop_empty_process_records_vectors : List (Records fs) → List (Records fs)
  unfolding drop_empty_from
  drop_empty_process_records_vectors procs = drop_empty_from (length procs - 1) 0 procs

  -- The status is that of the process of the first record, `none` where sysinfo knows no process.
  unfoldable pub clean_vector : (ℕ → Option ProcessStatus) → Records fs → Records fs
  clean_vector status [] = []
  clean_vector status (r ∷ rs) = if keeps (status r.process.pid) then r ∷ rs else []

  unfoldable pub clean_vectors : (ℕ → Option ProcessStatus) → List (Records fs) → List (Records fs)
  clean_vectors status [] = []
  clean_vectors status (v ∷ vs) = clean_vector status v ∷ clean_vectors status vs

  -- `clean_terminated_process_records_vectors`
  unfoldable pub clean_terminated_process_records_vectors :
      (ℕ → Option ProcessStatus) → ProcessTracker fs → ProcessTracker fs
  clean_terminated_process_records_vectors status t = record t {
    procs = drop_empty_process_records_vectors (clean_vectors status t.procs);
  }
