-- ===== src/Topology/CpuTime.antt =====
-- The CPU times that the kernel part accounts, as user space keeps them: one snapshot of all CPUs a
-- refresh, and the difference of the last two.
-- The entries of the map that are read: `map.get(&(i as u32), 0).unwrap_or(0)`, for `nb_cores` of them
use scaphandre.Base.{
  ℕ, zero, suc, ◌+◌, ◌-◌, ◌%◌, ◌<◌, ◌≡◌, Bool, Option, none, some, List, [], ◌∷◌, arith, ltb, leb,
  if◌then◌else◌, unwrap_or, replicate, all, u64_mod, ◌>>=◌,
}
use scaphandre.Buffer.{clean_old_cpu_time_records, refresh_buffer}
use scaphandre.Float.{Float}
use scaphandre.Sensor.Domain.{Layout}
use scaphandre.Sensor.Measure.{MultiValuedRecord, new_multi_record, same_text, last_two}
use scaphandre.Text.{Text, show, parse_u64}
use scaphandre.Topology.{Topology}
use scaphandre.Units.{numeric}

unfoldable pub snapshot_values : (ℕ → Option ℕ) → ℕ → ℕ → List Text
snapshot_values get i zero = []
snapshot_values get i (suc n) = show (unwrap_or 0 (get i)) ∷ snapshot_values get (suc i) n

-- One difference: a newer value below the older one is taken for a wrap.
unfoldable pub cpu_delta : ℕ → ℕ → ℕ
cpu_delta lv pv = if leb pv lv then lv - pv else u64_mod - 1 - pv + lv

abbrev pub read_u64 : Text → ℕ
read_u64 t = unwrap_or 0 (parse_u64 t)

unfoldable pub cpu_deltas : List Text → List Text → List Text
cpu_deltas [] ps = []
cpu_deltas (l ∷ ls) [] = []
cpu_deltas (l ∷ ls) (p ∷ ps) = show (cpu_delta (read_u64 l) (read_u64 p)) ∷ cpu_deltas ls ps

abbrev zero_text : Text → Bool
zero_text t = same_text t (b'0' ∷ [])

module _ (fs fl : Float) where
  -- `refresh_cpu_time_record`, with the map where the program was loaded
  unfoldable pub refresh_cpu_time_record :
      Layout → Option (ℕ → Option ℕ) → ℕ → Topology fs fl → Topology fs fl
  refresh_cpu_time_record layout none now t = t
  refresh_cpu_time_record layout (some get) now t =
      let nb_cores = t.proc_tracker.nb_cores in
      let values = snapshot_values get 0 nb_cores in
      record t {
        cpu_time_buffer =
            refresh_buffer (clean_old_cpu_time_records layout.multi_record_size t.buffer_max_kbytes)
              (some (new_multi_record now values (replicate nb_cores numeric))) t.cpu_time_buffer;
      }

  -- `get_cpu_time_diff`
  unfoldable pub get_cpu_time_diff : Topology fs fl → Option MultiValuedRecord
  get_cpu_time_diff t = do
    (newest, prev) ← last_two t.cpu_time_buffer
    let diffs = cpu_deltas newest.values prev.values
    if all zero_text diffs
        then none
        else some (new_multi_record newest.timestamp diffs newest.units)

-- The difference of two readings of a counter of 64 bits that went on by `d` in between is `d` when
-- the counter did not wrap, and one less when it did.
pub cpu_delta-of_elapsed :
    (p d : ℕ)
    → p < u64_mod
    → d < u64_mod
    → cpu_delta ((p + d) % u64_mod) p ≡ (if ltb (p + d) u64_mod then d else d - 1)
unfolding cpu_delta
cpu_delta-of_elapsed p d h k = ground arith
