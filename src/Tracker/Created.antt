-- ===== src/Tracker/Created.antt =====
-- `IProcess::new` and `IProcess::myself`: a process as sysinfo and procfs show it at one time.
use scaphandre.Base.{
  ℕ, String, ◌≡◌, refl, ap, Option, some, List, ◌>>=◌, bind-some, unwrap_or, map_option,
}
use scaphandre.Float.{Float}
use scaphandre.Sensor.Stat.{CpuStat, add_u64}
use scaphandre.Text.{Text}
use scaphandre.Tracker.Alive.{get_process_core_times}
use scaphandre.Tracker.Process.{IProcess}

-- What the code asks of a `Process` of sysinfo, whose pid is an `i32` on Linux; the path of the program is
-- there where it is Unicode
pub record SystemProcess (fs : Float) : Type 0 where
  pub pid : ℕ
  pub exe : Option String
  pub cmd : List Text
  pub cpu_usage : fs.F
  pub memory : ℕ
  pub virtual_memory : ℕ
  pub read_bytes : ℕ
  pub written_bytes : ℕ
  pub total_read_bytes : ℕ
  pub total_written_bytes : ℕ

-- What sysinfo and procfs know: the usage of all CPUs, the processes, the user and the system time of a
-- process, and the times of /proc/stat
pub record System (fs : Float) : Type 0 where
  pub global_usage : fs.F
  pub process : ℕ → Option (SystemProcess fs)
  pub stat : ℕ → Option (ℕ × ℕ)
  pub total : Option CpuStat

-- The sum over /proc/stat without the idle and the waiting time
unfoldable pub busy_time : CpuStat → ℕ
busy_time t =
    add_u64
      (add_u64
        (add_u64
          (add_u64 (add_u64 (add_u64 (add_u64 t.user t.nice) t.system) (unwrap_or 0 t.irq))
            (unwrap_or 0 t.softirq))
          (unwrap_or 0 t.steal))
        (unwrap_or 0 t.guest))
      (unwrap_or 0 t.guest_nice)

module _ {fs : Float} where
  -- `IProcess::new`; `none` is the panic of `unwrap`
  unfoldable pub new_process : System fs → SystemProcess fs → Option (List ℕ) → Option (IProcess fs)
  new_process sys p core_times =
      let times = unwrap_or (0, 0) (sys.stat p.pid) in
      map_option
        (λ (exe : String). record {
          pid = p.pid;
          owner = 0;
          comm = exe;
          cmdline = p.cmd;
          cpu_busy_time = add_u64 times.0 times.1;
          node_busy_time = unwrap_or 0 (map_option busy_time sys.total);
          core_busy_times = core_times;
          cpu_usage_percentage = p.cpu_usage;
          virtual_memory = p.virtual_memory;
          memory = p.memory;
          disk_read = p.read_bytes;
          disk_written = p.written_bytes;
          total_disk_read = p.total_read_bytes;
          total_disk_written = p.total_written_bytes;
          stime = times.1;
          utime = times.0;
        })
        p.exe

  -- `IProcess::myself`, given the pid of the program; `none` is the panic of `unwrap`
  unfoldable pub myself : System fs → Option (ℕ → Option (List ℕ)) → ℕ → Option (IProcess fs)
  myself sys core_times_map own_pid = sys.process own_pid >>= λ (p : SystemProcess fs).
      new_process sys p (get_process_core_times fs core_times_map own_pid)

  -- The path of the program of the process is Unicode.
  abbrev pub IsNamed : SystemProcess fs → Type 0
  IsNamed p = (exe : String) × (p.exe ≡ some exe)

  pub new_process-IsNamed :
      (sys : System fs) (p : SystemProcess fs) (core_times : Option (List ℕ))
      → IsNamed p
      → (c : IProcess fs) × (new_process sys p core_times ≡ some c) × (c.pid ≡ p.pid)
  unfolding new_process
  new_process-IsNamed sys p core_times named = (_, ap (map_option _) named.1, refl)

  pub myself-IsNamed :
      (sys : System fs) (core_times_map : Option (ℕ → Option (List ℕ))) (own_pid : ℕ)
      (p : SystemProcess fs)
      → sys.process own_pid ≡ some p
      → IsNamed p
      → (c : IProcess fs) × (myself sys core_times_map own_pid ≡ some c) × (c.pid ≡ p.pid)
  unfolding myself
  myself-IsNamed sys core_times_map own_pid p known named =
      let c = new_process-IsNamed sys p (get_process_core_times fs core_times_map own_pid) named in
      (c.0, bind-some _ known c.1, c.2)
