-- ===== src/Kernel/Runs.antt =====
-- Runs of one CPU: the handlers called in the order in which the CPU switches between tasks.
-- The time from `t` to `now` that counts: none of it when the idle task was running.
use scaphandre.Base.{ℕ, ◌+◌, ◌-◌, ◌≤◌, ◌<◌, ◌≡◌, Bool, false, none, ◌==◌, if◌then◌else◌, u64_mod}
use scaphandre.Kernel.{Kernel, switch_tasks, sample_tick, exit_task}
use scaphandre.Kernel.PerCpu.{Maps}

abbrev pub counted_time : ℕ → ℕ → ℕ → ℕ
counted_time running t now = if running == 0 then 0 else now - t

-- `Runs maps cpu boot t running busy k`: since the maps `boot`, the handlers were called on the CPU as
-- its tasks came and went; the last call was at `t` and left the maps `k`, a task of the process
-- `running` has the CPU, and tasks other than the idle one have had it for `busy`. The idle task
-- alone has the process 0, and the thread 0. Two calls of handlers are made when a task exits: one for
-- its exit, and one for the switch behind it.
pub data Runs (maps : Maps) (cpu : ℕ) (boot : Kernel maps) : ℕ → ℕ → ℕ → Kernel maps → Type 0 where
  start :
      (t prev tid next : ℕ)
      → maps.slot cpu prev boot.pid_last ≡ none
      → Runs maps cpu boot t next 0 (switch_tasks maps t cpu prev tid next boot)
  switched :
      (t running busy : ℕ) (k : Kernel maps) (now tid next : ℕ)
      → Runs maps cpu boot t running busy k
      → t ≤ now
      → now < u64_mod
      → tid == 0 ≡ running == 0
      → Runs maps cpu boot now next
          (busy + counted_time running t now)
          (switch_tasks maps now cpu running tid next k)
  ticked :
      (t running busy : ℕ) (k : Kernel maps) (now tid : ℕ)
      → Runs maps cpu boot t running busy k
      → t ≤ now
      → now < u64_mod
      → tid == 0 ≡ running == 0
      → Runs maps cpu boot now running
          (busy + counted_time running t now)
          (sample_tick maps now cpu running tid k)
  exited :
      (t running busy : ℕ) (k : Kernel maps) (now tid later next : ℕ) (gone : Bool)
      → Runs maps cpu boot t running busy k
      → t ≤ now
      → now < u64_mod
      → running == 0 ≡ false
      → tid == 0 ≡ false
      → Runs maps cpu boot later next
          (busy + (now - t))
          (switch_tasks maps later cpu running tid next (exit_task maps now cpu running tid gone k))
