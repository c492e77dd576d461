-- ===== src/Tracker/ConsumerExamples.antt =====
-- The consumers of two processes, and the theorem at them.
use scaphandre.Base.SortBy.{insert_by, sort_by}
use scaphandre.Base.{
  ℕ, ◌*◌, String, ◌≡◌, refl, sym, ap, Bool, true, false, not, Option, none, some, List, [], ◌∷◌,
  arith, ltb, map_option,
}
use scaphandre.Float.Fractions.{Fraction, fractions}
use scaphandre.Tracker.{ProcessTracker}
use scaphandre.Tracker.Consumers.{
  get_cpu_usage_percentage, uses_more, count_above, place, consider, consider_all,
  get_top_consumers,
}
use scaphandre.Tracker.Created.{SystemProcess, System, new_process}
use scaphandre.Tracker.Process.{IProcess, ProcessRecord}
use scaphandre.Tracker.Ranked.{get_top_consumers-IsRanked, AllNamed, IsRanked}

abbrev running : ℕ → SystemProcess fractions
running pid = record {
  pid = pid;
  exe = some "sh";
  cmd = [];
  cpu_usage = (pid, 1);
  memory = 0;
  virtual_memory = 0;
  read_bytes = 0;
  written_bytes = 0;
  total_read_bytes = 0;
  total_written_bytes = 0;
}

abbrev sys : System fractions
sys = record {
  global_usage = (10, 1);
  process = λ pid. some (running pid);
  stat = λ pid. some (3, 4);
  total = none;
}

abbrev kept : ℕ → IProcess fractions
kept pid = record {
  pid = pid;
  owner = 0;
  comm = "sh";
  cmdline = [];
  cpu_busy_time = 7;
  node_busy_time = 0;
  core_busy_times = none;
  cpu_usage_percentage = (pid, 1);
  virtual_memory = 0;
  memory = 0;
  disk_read = 0;
  disk_written = 0;
  total_disk_read = 0;
  total_disk_written = 0;
  stime = 4;
  utime = 3;
}

abbrev two_records : ℕ → List (ProcessRecord fractions)
two_records pid =
    record { process = kept pid; timestamp = 2 } ∷ record { process = kept pid; timestamp = 1 } ∷ []

abbrev tracker : ProcessTracker fractions
tracker = record {
  procs = two_records 5 ∷ two_records 9 ∷ [];
  nb_cores = 2;
  max_records_per_process = 2;
}

abbrev at_least : Fraction → Fraction → Bool
at_least x y = not (fractions.lt x y)

not_below : (a b : ℕ) → not (ltb a b) ≡ false → not (ltb b a) ≡ true
not_below a b h = ground arith

at_least_total : (x y : Fraction) → at_least x y ≡ false → at_least y x ≡ true
at_least_total x y h = not_below (x.0 * y.1) (y.0 * x.1) h

abbrev exe_of : Option (SystemProcess fractions) → Option String
exe_of none = none
exe_of (some p) = p.exe

all_named : AllNamed fractions fractions (λ x. x) at_least sys
all_named pid p h = ("sh", sym (ap exe_of h))

abbrev pids : List (IProcess fractions × Fraction) → List ℕ
pids [] = []
pids (c ∷ cs) = c.0.pid ∷ pids cs

-- The second process uses more of the CPU, and is not considered.
greater_left_out :
    map_option pids (get_top_consumers fractions fractions (λ x. x) at_least sys none 1 tracker)
    ≡ some (5 ∷ [])
unfolding get_top_consumers consider_all consider count_above uses_more place
    get_cpu_usage_percentage new_process sort_by insert_by
greater_left_out = refl

get_top_consumers-IsRanked_example :
    (result : List (IProcess fractions × Fraction)) × (get_top_consumers fractions fractions
        (λ x. x)
        at_least
        sys
        none
        1
        tracker
      ≡ some result)
    × IsRanked fractions fractions (λ x. x) at_least sys 1 result
get_top_consumers-IsRanked_example =
    get_top_consumers-IsRanked fractions fractions (λ x. x) at_least sys at_least_total all_named
      none 1 tracker
