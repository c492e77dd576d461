-- ===== src/Buffer/Examples.antt =====
-- Runs of the cleaning on a small buffer, and the theorems at it.
-- Twenty-five elements of 48 bytes under a limit of 1000 bytes.
use scaphandre.Base.{
  ℕ, ◌+◌, ◌*◌, ◌≤◌, ◌<◌, ◌≡◌, refl, Option, none, some, List, [], ◌∷◌, ◌++◌, arith, length, drop,
  replicate,
}
use scaphandre.Buffer.{clean_old_records, clean_old_cpu_time_records, clean_old_stats}
use scaphandre.Buffer.Back.{IsCutBack, clean_old_stats-IsCutBack, clean_old_cpu_time_records_lem}
use scaphandre.Buffer.Newest.{history, history_newest}
use scaphandre.F32.{quotient_as_usize, quotient_as_u32}

abbrev full : List ℕ
full = replicate 25 7

-- 200 bytes too many are four elements; three go.
clean_runs : length (clean_old_records 48 1 full) ≡ 22
unfolding clean_old_records quotient_as_u32
clean_runs = refl

stats_run : length (clean_old_stats 48 1 full) ≡ 22
unfolding clean_old_stats quotient_as_u32
stats_run = refl

cpu_time_runs : length (clean_old_cpu_time_records 48 1 full) ≡ 21
unfolding clean_old_cpu_time_records quotient_as_usize
cpu_time_runs = refl

abbrev readings : List (Option ℕ)
readings = some 1 ∷ none ∷ some 2 ∷ []

history_newest_example :
    (older : List ℕ) × (1 ∷ 2 ∷ [] ≡ older ++ history 48 1 readings [])
    × (48 * length (history 48 1 readings []) < 1000 + 2 * 48)
history_newest_example = history_newest 48 1 readings (omega arith) (omega arith)

clean_old_stats-IsCutBack_example : IsCutBack 48 1000 full (clean_old_stats 48 1 full)
clean_old_stats-IsCutBack_example = clean_old_stats-IsCutBack 48 1 full (omega arith) (omega arith)

clean_old_cpu_time_records_lem_example :
    let after = clean_old_cpu_time_records 48 1 full in
    (n : ℕ) × (after ≡ drop n full) × (48 * length after ≤ 1000 + 48)
clean_old_cpu_time_records_lem_example =
    clean_old_cpu_time_records_lem 48 1 full (omega arith) (omega arith)
