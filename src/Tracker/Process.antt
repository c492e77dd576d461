-- ===== src/Tracker/Process.antt =====
-- `IProcess` and `ProcessRecord`: what is kept of a process at one time. The parameter stands for
-- `f32`; the fields of Linux are there.
use scaphandre.Base.{ℕ, String, Option, List}
use scaphandre.Float.{Float}
use scaphandre.Text.{Text}

pub record IProcess (fs : Float) : Type 0 where
  pub pid : ℕ
  pub owner : ℕ
  pub comm : String
  pub cmdline : List Text
  pub cpu_busy_time : ℕ
  pub node_busy_time : ℕ
  pub core_busy_times : Option (List ℕ)
  pub cpu_usage_percentage : fs.F
  pub virtual_memory : ℕ
  pub memory : ℕ
  pub disk_read : ℕ
  pub disk_written : ℕ
  pub total_disk_read : ℕ
  pub total_disk_written : ℕ
  pub stime : ℕ
  pub utime : ℕ

pub record ProcessRecord (fs : Float) : Type 0 where
  pub process : IProcess fs
  pub timestamp : ℕ
