-- ===== src/Kernel/Stale.antt =====
-- A process with threads on two CPUs: what its marks are worth.
use scaphandre.Base.{ℕ, ◌<◌, ◌≡◌, refl, ap, ◌∙◌, true, false, none, some, arith, ◌==◌, u64_mod}
use scaphandre.Kernel.{Kernel, charge, charge_and_remove, switch_tasks}
use scaphandre.Kernel.Accounting.{at-charge_and_remove}
use scaphandre.Kernel.PerCpu.{Maps}
use scaphandre.Sensor.Stat.{add_u64, sub_u64}

module _ {maps : Maps} where
  open maps use {slot, at}

  at-charge_other :
      (cpu other tgid delta c : ℕ) (k : Kernel maps)
      → cpu == other ≡ false
      → at cpu k.cpu_time ≡ some c
      → at other (charge maps cpu tgid delta k).cpu_time ≡ at other k.cpu_time
  unfolding charge
  at-charge_other cpu other tgid delta c k ne h =
      rw h (maps.at-put_other cpu other (add_u64 c delta) k.cpu_time ne)

  -- The maps after a CPU left a task of the process, which has no mark then on any CPU
  switched_out :
      (now cpu other tgid tid next t c : ℕ) (k : Kernel maps)
      → cpu == other ≡ false
      → tgid == 0 ≡ false
      → tid == 0 ≡ false
      → next == tgid ≡ false
      → slot cpu tgid k.pid_last ≡ some t
      → at cpu k.cpu_time ≡ some c
      → (slot cpu tgid (switch_tasks maps now cpu tgid tid next k).pid_last ≡ none)
        × (at other (switch_tasks maps now cpu tgid tid next k).cpu_time ≡ at other k.cpu_time)
  unfolding switch_tasks charge_and_remove charge
  switched_out now cpu other tgid tid next t c k ne work thread away m h =
      rw (switch_tasks, work, thread)
        (rw (charge_and_remove, m)
          (
            maps.slot-insert_other cpu cpu next tgid now (maps.remove tgid k.pid_last) away
                ∙ maps.slot-remove_same cpu tgid k.pid_last,
            at-charge_other cpu other tgid (sub_u64 now t) c k ne h,
          ))

  -- The maps after a CPU went from the idle task to one of a process without a mark
  switched_in :
      (now cpu other tgid : ℕ) (k : Kernel maps)
      → ((key : ℕ) (h : maps.Hash) → maps.has_room key h ≡ true)
      → cpu == other ≡ false
      → slot cpu tgid k.pid_last ≡ none
      → (slot other tgid (switch_tasks maps now cpu 0 0 tgid k).pid_last ≡ some 0)
        × (at other (switch_tasks maps now cpu 0 0 tgid k).cpu_time ≡ at other k.cpu_time)
  unfolding switch_tasks
  switched_in now cpu other tgid k room ne m =
      (maps.slot-insert_new cpu other tgid now k.pid_last (room tgid k.pid_last) ne m, refl)

  at-switched_out :
      (now cpu tgid tid next t c : ℕ) (k : Kernel maps)
      → tgid == 0 ≡ false
      → tid == 0 ≡ false
      → slot cpu tgid k.pid_last ≡ some t
      → at cpu k.cpu_time ≡ some c
      → at cpu (switch_tasks maps now cpu tgid tid next k).cpu_time
        ≡ some (add_u64 c (sub_u64 now t))
  unfolding switch_tasks
  at-switched_out now cpu tgid tid next t c k work thread m h =
      rw (work, thread) (at-charge_and_remove now cpu tgid t c k m h).0

  -- Where the maps never run full and two threads of a process run on two CPUs: once the first CPU
  -- leaves its thread for another process and later comes back to it from the idle task, a switch of
  -- the second CPU away from the other thread adds to the time of that CPU all the time since boot,
  -- whenever that thread was switched in.
  pub two_cpus_time_since_boot :
      (cpu other tgid tid tid' next next' t c b : ℕ) (out back now : ℕ) (k : Kernel maps)
      → ((key : ℕ) (h : maps.Hash) → maps.has_room key h ≡ true)
      → cpu == other ≡ false
      → tgid == 0 ≡ false
      → tid == 0 ≡ false
      → tid' == 0 ≡ false
      → next == tgid ≡ false
      → now < u64_mod
      → slot cpu tgid k.pid_last ≡ some t
      → at cpu k.cpu_time ≡ some c
      → at other k.cpu_time ≡ some b
      → at other
          (switch_tasks maps now other tgid tid' next' (
            switch_tasks maps back cpu 0 0 tgid
              (switch_tasks maps out cpu tgid tid next k))).cpu_time
        ≡ some (add_u64 b now)
  two_cpus_time_since_boot cpu other tgid tid tid' next next' t c b out back now k room ne work
        thread thread' away lt m h h' =
      let k1 = switch_tasks maps out cpu tgid tid next k in
      let k2 = switch_tasks maps back cpu 0 0 tgid k1 in
      let r1 = switched_out out cpu other tgid tid next t c k ne work thread away m h in
      let r2 = switched_in back cpu other tgid k1 room ne r1.0 in
      at-switched_out now other tgid tid' next' 0 b k2 work thread' r2.0 (r2.1 ∙ r1.1 ∙ h')
      ∙ ap some (omega arith)
