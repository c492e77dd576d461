-- ===== src/Sensor/Stat.antt =====
-- `CPUStat`: the jiffies that the kernel accounts for, as one sample or as a difference of two.
use scaphandre.Base.{
  ℕ, ◌+◌, ◌%◌, Option, none, some, List, [], ◌∷◌, unwrap_or, last, u64_mod, wrapping_sub,
}

pub record CpuStat : Type 0 where
  pub user : ℕ
  pub nice : ℕ
  pub system : ℕ
  pub idle : ℕ
  pub irq : Option ℕ
  pub iowait : Option ℕ
  pub softirq : Option ℕ
  pub steal : Option ℕ
  pub guest : Option ℕ
  pub guest_nice : Option ℕ

abbrev pub add_u64 : ℕ → ℕ → ℕ
add_u64 a b = (a + b) % u64_mod

abbrev pub sub_u64 : ℕ → ℕ → ℕ
sub_u64 = wrapping_sub u64_mod

-- `total_time_jiffies`
unfoldable pub total_time_jiffies : CpuStat → ℕ
total_time_jiffies s =
    add_u64 (add_u64 (add_u64 (add_u64 s.user s.nice) s.system) (unwrap_or 0 s.guest_nice))
      (unwrap_or 0 s.guest)

-- `get_idle_and_total`
unfoldable pub get_idle_and_total : CpuStat → ℕ × ℕ
get_idle_and_total s =
    let idle = add_u64 s.idle (unwrap_or 0 s.iowait) in
    let plain = add_u64 (add_u64 (add_u64 s.user s.nice) s.system) s.idle in
    let waits =
      add_u64 (add_u64 (add_u64 plain (unwrap_or 0 s.iowait)) (unwrap_or 0 s.irq))
        (unwrap_or 0 s.softirq) in
    let total =
      add_u64 (add_u64 (add_u64 waits (unwrap_or 0 s.steal)) (unwrap_or 0 s.guest))
        (unwrap_or 0 s.guest_nice) in
    (idle, total)

abbrev pub diff_of : Option ℕ → Option ℕ → Option ℕ
diff_of none p = none
diff_of (some l) none = none
diff_of (some l) (some p) = some (sub_u64 l p)

abbrev pub stat_diff : CpuStat → CpuStat → CpuStat
stat_diff last previous = record {
  user = sub_u64 last.user previous.user;
  nice = sub_u64 last.nice previous.nice;
  system = sub_u64 last.system previous.system;
  idle = sub_u64 last.idle previous.idle;
  irq = diff_of last.irq previous.irq;
  iowait = diff_of last.iowait previous.iowait;
  softirq = diff_of last.softirq previous.softirq;
  steal = diff_of last.steal previous.steal;
  guest = diff_of last.guest previous.guest;
  guest_nice = diff_of last.guest_nice previous.guest_nice;
}

-- `get_stats_diff` of `Topology` and of `CPUSocket`, on their `stat_buffer`
unfoldable pub get_stats_diff : List CpuStat → Option CpuStat
get_stats_diff [] = none
get_stats_diff (last ∷ []) = none
get_stats_diff (last ∷ previous ∷ older) = some (stat_diff last previous)

-- `KernelStats`, of the procfs crate: the fields that the code reads.
pub record KernelStats : Type 0 where
  pub total : CpuStat
  pub cpu_time : List CpuStat
