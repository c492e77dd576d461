-- ===== src/Tracker/Examples.antt =====
-- A tracker of two processes, and the theorems at it.
use scaphandre.Base.{ℕ, String, ◌≡◌, refl, Option, none, some, [], ◌∷◌, arith, ◌==◌, if◌then◌else◌}
use scaphandre.Float.Fractions.{fractions}
use scaphandre.Tracker.{
  ProcessTracker, same_program, add_process_record, find_from, find_records, get_process_name,
}
use scaphandre.Tracker.Cleaning.{
  ProcessStatus, run, drop_empty_from, drop_empty_process_records_vectors,
  clean_terminated_process_records_vectors,
}
use scaphandre.Tracker.Lookup.{find_records-add_process_record}
use scaphandre.Tracker.Names.{get_process_name-found}
use scaphandre.Tracker.Process.{IProcess, ProcessRecord}
use scaphandre.Tracker.Terminated.{find_records-clean_terminated}
use scaphandre.Tracker.Valid.{IsValid, add_process_record-IsValid}

abbrev process : ℕ → String → IProcess fractions
process pid comm = record {
  pid = pid;
  owner = 0;
  comm = comm;
  cmdline = [];
  cpu_busy_time = 5;
  node_busy_time = 10;
  core_busy_times = some (3 ∷ 4 ∷ []);
  cpu_usage_percentage = (0, 1);
  virtual_memory = 0;
  memory = 0;
  disk_read = 0;
  disk_written = 0;
  total_disk_read = 0;
  total_disk_written = 0;
  stime = 1;
  utime = 2;
}

abbrev taken : ℕ → IProcess fractions → ProcessRecord fractions
taken now p = record { process = p; timestamp = now }

abbrev shell : IProcess fractions
shell = process 7 "sh"

abbrev editor : IProcess fractions
editor = process 7 "vi"

abbrev daemon : IProcess fractions
daemon = process 9 "d"

abbrev tracker : ProcessTracker fractions
tracker = record {
  procs = (taken 3 shell ∷ taken 2 shell ∷ []) ∷ [] ∷ (taken 1 daemon ∷ []) ∷ [];
  nb_cores = 2;
  max_records_per_process = 2;
}

tracker-IsValid : IsValid 3 tracker
tracker-IsValid = record {
  positive = omega arith;
  kept = (
    ((omega arith, tt), omega arith, omega arith, (refl, tt)),
    ((tt, tt, omega arith, tt), ((tt, omega arith, omega arith, tt), tt)),
  );
  unique = ((refl, (refl, tt)), (tt, tt));
}

-- Process 7 runs another program at 4, and process 9 ends.
abbrev status_of : ℕ → Option ProcessStatus
status_of pid = if pid == 7 then some run else none

add_process_record-IsValid_example : IsValid 4 (add_process_record fractions 4 editor tracker)
add_process_record-IsValid_example =
    add_process_record-IsValid 3 4 editor tracker (omega arith) tracker-IsValid

find_records-add_process_record_example :
    find_records fractions 7 (add_process_record fractions 4 shell tracker)
    ≡ some (taken 4 shell ∷ taken 3 shell ∷ [])
unfolding find_records find_from same_program
find_records-add_process_record_example =
    find_records-add_process_record 3 4 7 shell tracker (omega arith) tracker-IsValid

find_records-clean_terminated_example :
    find_records fractions 9 (clean_terminated_process_records_vectors status_of tracker) ≡ none
find_records-clean_terminated_example = find_records-clean_terminated status_of 9 tracker

found : find_records fractions 9 tracker ≡ some (taken 1 daemon ∷ [])
unfolding find_records find_from
found = refl

get_process_name-found_example : get_process_name fractions 9 tracker ≡ some "d"
get_process_name-found_example =
    get_process_name-found 3 9 (taken 1 daemon) [] tracker tracker-IsValid found

-- Of two empty vectors beside each other one stays.
empty_left : drop_empty_process_records_vectors {fs = fractions} ([] ∷ [] ∷ []) ≡ [] ∷ []
unfolding drop_empty_process_records_vectors drop_empty_from
empty_left = refl
