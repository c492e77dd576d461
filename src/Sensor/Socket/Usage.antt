-- ===== src/Sensor/Socket/Usage.antt =====
-- The usage statistics of a socket: the sum of those of its cores.
-- What the statistics of one core add to those of the socket
use scaphandre.Base.{Option, none, some, List, [], ◌∷◌, unwrap_or, ◌>>=◌}
use scaphandre.Buffer.{clean_old_stats, clean_unless_empty}
use scaphandre.Float.{Float}
use scaphandre.Sensor.Core.{CpuCore, read_stats}
use scaphandre.Sensor.Domain.{Layout}
use scaphandre.Sensor.Socket.{CpuSocket}
use scaphandre.Sensor.Stat.{CpuStat, add_u64, KernelStats}

unfoldable pub add_usage : CpuStat → CpuStat → CpuStat
add_usage stats c_stats = record stats {
  user = add_u64 stats.user c_stats.user;
  nice = add_u64 stats.nice c_stats.nice;
  system = add_u64 stats.system c_stats.system;
  idle = add_u64 stats.idle c_stats.idle;
  iowait = some (add_u64 (unwrap_or 0 stats.iowait) (unwrap_or 0 c_stats.iowait));
  irq = some (add_u64 (unwrap_or 0 stats.irq) (unwrap_or 0 c_stats.irq));
  softirq = some (add_u64 (unwrap_or 0 stats.softirq) (unwrap_or 0 c_stats.softirq));
}

abbrev pub no_usage : CpuStat
no_usage = record {
  user = 0;
  nice = 0;
  system = 0;
  idle = 0;
  irq = some 0;
  iowait = some 0;
  softirq = some 0;
  steal = some 0;
  guest = some 0;
  guest_nice = some 0;
}

abbrev pub add_if_some : CpuStat → Option CpuStat → CpuStat
add_if_some stats none = stats
add_if_some stats (some c_stats) = add_usage stats c_stats

-- The loop over the cores; `none` is the panic of a core's number that /proc/stat does not have
unfoldable pub sum_usage : Option KernelStats → CpuStat → List CpuCore → Option CpuStat
sum_usage kernel_stats stats [] = some stats
sum_usage kernel_stats stats (c ∷ cs) = do
  reading ← read_stats kernel_stats c
  sum_usage kernel_stats (add_if_some stats reading) cs

module _ (fl : Float) where
  -- `CPUSocket::read_stats`
  unfoldable pub read_usage : Option KernelStats → CpuSocket fl → Option CpuStat
  read_usage kernel_stats s = sum_usage kernel_stats no_usage s.cpu_cores

  -- `CPUSocket::refresh_stats`: the buffer is cleaned first; `none` is a panic
  unfoldable pub refresh_usage : Layout → Option KernelStats → CpuSocket fl → Option (CpuSocket fl)
  refresh_usage layout kernel_stats s = do
    stats ← read_usage kernel_stats s
    let cleaned =
        clean_unless_empty (clean_old_stats layout.stat_size s.buffer_max_kbytes) s.stat_buffer
    some (record s { stat_buffer = stats ∷ cleaned })
