-- ===== src/Kernel/Conservation.antt =====
-- The time of a CPU is kept over its runs.
use mathlib.Core.Bool.{true≢false}
use scaphandre.Base.{
  ℕ, ◌+◌, ◌-◌, ◌%◌, ◌≤◌, ◌<◌, ◌≡◌, refl, ap, ◌∙◌, inl, inr, Bool, true, false, ◌||◌, Option, none,
  some, arith, ◌==◌, Bool-cases, u64_mod,
}
use scaphandre.Kernel.{Kernel, charge, charge_and_remove, switch_tasks, sample_tick, exit_task}
use scaphandre.Kernel.Accounting.{
  add_u64-elapsed, at-charge, at-charge_and_remove, charge_and_remove-unmarked,
}
use scaphandre.Kernel.PerCpu.{Maps}
use scaphandre.Kernel.Runs.{counted_time, Runs, start, switched, ticked, exited}
use scaphandre.Sensor.Stat.{sub_u64}

module _ {maps : Maps} (cpu c : ℕ)
    (room : (key : ℕ) (h : maps.Hash) → maps.has_room key h ≡ true) where
  open maps use {slot, at}

  -- What holds between two calls, where the CPU had the time `c` at first
  abbrev Accounted : ℕ → ℕ → ℕ → Kernel maps → Type 0
  Accounted t running busy k =
      (running == 0 ≡ false → slot cpu running k.pid_last ≡ some t)
      × (at cpu k.cpu_time ≡ some ((c + busy) % u64_mod))

  marked :
      (now running busy : ℕ) (k : Kernel maps)
      → at cpu k.cpu_time ≡ some ((c + busy) % u64_mod)
      → Accounted now running busy (record k { pid_last = maps.insert cpu running now k.pid_last })
  marked now running busy k a =
      (λ h. maps.slot-insert_same cpu running now k.pid_last (room running k.pid_last), a)

  Accounted-charge :
      (t running busy : ℕ) (k : Kernel maps) (now : ℕ)
      → t ≤ now
      → now < u64_mod
      → running == 0 ≡ false
      → Accounted t running busy k
      → (at cpu (charge_and_remove maps now cpu running k).cpu_time
          ≡ some ((c + (busy + (now - t))) % u64_mod))
        × (slot cpu running (charge_and_remove maps now cpu running k).pid_last ≡ none)
  Accounted-charge t running busy k now le lt work a =
      let r = at-charge_and_remove now cpu running t ((c + busy) % u64_mod) k (a.0 work) a.1 in
      (r.0 ∙ ap some (add_u64-elapsed c busy now t le lt), r.1)

  Accounted-switch :
      (t running busy : ℕ) (k : Kernel maps) (now tid next : ℕ)
      → t ≤ now
      → now < u64_mod
      → tid == 0 ≡ running == 0
      → Accounted t running busy k
      → Accounted now next
          (busy + counted_time running t now)
          (switch_tasks maps now cpu running tid next k)
  unfolding switch_tasks
  Accounted-switch t running busy k now tid next le lt same a = elim (Bool-cases (running == 0)) [
    | inl rest ↦
        rw rest
          (marked now next (busy + 0) k (a.1 ∙ ap (λ n. some ((c + n) % u64_mod)) (omega arith)))
    | inr work ↦
        rw (same, work)
          (marked now next (busy + (now - t)) (charge_and_remove maps now cpu running k)
            (Accounted-charge t running busy k now le lt work a).0)
  ]

  sample_tick-rest :
      (now pid tid : ℕ) (k : Kernel maps) → pid == 0 ≡ true → sample_tick maps now cpu pid tid k ≡ k
  unfolding sample_tick
  sample_tick-rest now pid tid k rest = rw (sample_tick, rest) refl

  -- The maps after a tick that finds the mark of the running process
  abbrev ticked_maps : ℕ → ℕ → ℕ → Kernel maps → Kernel maps
  ticked_maps now t pid k =
      let paid = charge maps cpu pid (sub_u64 now t) k in
      record paid { pid_last = maps.store cpu pid now paid.pid_last }

  sample_tick-work :
      (now pid tid t : ℕ) (k : Kernel maps)
      → pid == 0 ≡ false
      → tid == 0 ≡ false
      → slot cpu pid k.pid_last ≡ some t
      → sample_tick maps now cpu pid tid k ≡ ticked_maps now t pid k
  unfolding sample_tick
  sample_tick-work now pid tid t k work thread m = rw (sample_tick, work, thread, m) refl

  Accounted-ticked :
      (t running busy : ℕ) (k : Kernel maps) (now : ℕ)
      → t ≤ now
      → now < u64_mod
      → slot cpu running k.pid_last ≡ some t
      → at cpu k.cpu_time ≡ some ((c + busy) % u64_mod)
      → Accounted now running (busy + (now - t)) (ticked_maps now t running k)
  unfolding charge
  Accounted-ticked t running busy k now le lt m a = (
    λ h. maps.slot-store_same cpu running now t k.pid_last m,
    at-charge cpu running (sub_u64 now t) ((c + busy) % u64_mod) k a
        ∙ ap some (add_u64-elapsed c busy now t le lt),
  )

  Accounted-tick :
      (t running busy : ℕ) (k : Kernel maps) (now tid : ℕ)
      → t ≤ now
      → now < u64_mod
      → tid == 0 ≡ running == 0
      → Accounted t running busy k
      → Accounted now running
          (busy + counted_time running t now)
          (sample_tick maps now cpu running tid k)
  Accounted-tick t running busy k now tid le lt same a = elim (Bool-cases (running == 0)) [
    | inl rest ↦
        rw (sample_tick-rest now running tid k rest, rest)
          (λ h. absurd (true≢false h), a.1 ∙ ap (λ n. some ((c + n) % u64_mod)) (omega arith))
    | inr work ↦
        let r = Accounted-ticked t running busy k now le lt (a.0 work) a.1 in
        rw (sample_tick-work now running tid t k work (same ∙ work) (a.0 work), work)
          (λ h. r.0 work, r.1)
  ]

  -- A task that exits is and its mark is gone.
  exit_task-charge :
      (now running tid : ℕ) (gone : Bool) (k : Kernel maps) (time : Option ℕ)
      → running == 0 ≡ false
      → tid == 0 ≡ false
      → (at cpu (charge_and_remove maps now cpu running k).cpu_time ≡ time)
        × (slot cpu running (charge_and_remove maps now cpu running k).pid_last ≡ none)
      → (at cpu (exit_task maps now cpu running tid gone k).cpu_time ≡ time)
        × (slot cpu running (exit_task maps now cpu running tid gone k).pid_last ≡ none)
  unfolding exit_task
  exit_task-charge now running tid true k time work thread e =
      rw (exit_task, work, thread)
        (e.0, maps.slot-remove_same cpu running (charge_and_remove maps now cpu running k).pid_last)
  exit_task-charge now running tid false k time work thread e = rw (exit_task, work, thread) e

  -- A switch away from a task whose mark is gone charges nothing.
  Accounted-left :
      (running busy : ℕ) (k : Kernel maps) (later tid next : ℕ)
      → running == 0 ≡ false
      → tid == 0 ≡ false
      → (at cpu k.cpu_time ≡ some ((c + busy) % u64_mod)) × (slot cpu running k.pid_last ≡ none)
      → Accounted later next busy (switch_tasks maps later cpu running tid next k)
  unfolding switch_tasks
  Accounted-left running busy k later tid next work thread e =
      rw (switch_tasks, work, thread)
        (rw (charge_and_remove-unmarked later cpu running k e.1) (marked later next busy k e.0))

  Accounted-exit :
      (t running busy : ℕ) (k : Kernel maps) (now tid later next : ℕ) (gone : Bool)
      → t ≤ now
      → now < u64_mod
      → running == 0 ≡ false
      → tid == 0 ≡ false
      → Accounted t running busy k
      → Accounted later next
          (busy + (now - t))
          (switch_tasks maps later cpu running tid next (exit_task maps now cpu running tid gone k))
  Accounted-exit t running busy k now tid later next gone le lt work thread a =
      Accounted-left running (busy + (now - t)) (exit_task maps now cpu running tid gone k) later
        tid next work thread
        (exit_task-charge now running tid gone k (some ((c + (busy + (now - t))) % u64_mod)) work
          thread (Accounted-charge t running busy k now le lt work a))

  Accounted-start :
      (boot : Kernel maps) (t prev tid next : ℕ)
      → c < u64_mod
      → at cpu boot.cpu_time ≡ some c
      → slot cpu prev boot.pid_last ≡ none
      → Accounted t next 0 (switch_tasks maps t cpu prev tid next boot)
  unfolding switch_tasks
  Accounted-start boot t prev tid next lt a m =
      let a' = a ∙ ap some (omega arith) in
      elim (Bool-cases (prev == 0 || tid == 0)) [
        | inl rest ↦ rw rest (marked t next 0 boot a')
        | inr work ↦
            rw work (rw (charge_and_remove-unmarked t cpu prev boot m) (marked t next 0 boot a'))
      ]

  Runs-Accounted :
      (boot : Kernel maps) (t running busy : ℕ) (k : Kernel maps)
      → c < u64_mod
      → at cpu boot.cpu_time ≡ some c
      → Runs maps cpu boot t running busy k
      → Accounted t running busy k
  Runs-Accounted boot _ _ _ _ lt a (start t prev tid next m) =
      Accounted-start boot t prev tid next lt a m
  Runs-Accounted boot _ _ _ _ lt a (switched t running busy k now tid next r le b same) =
      Accounted-switch t running busy k now tid next le b same (Runs-Accounted boot _ _ _ _ lt a r)
  Runs-Accounted boot _ _ _ _ lt a (ticked t running busy k now tid r le b same) =
      Accounted-tick t running busy k now tid le b same (Runs-Accounted boot _ _ _ _ lt a r)
  Runs-Accounted boot _ _ _ _ lt a
        (exited t running busy k now tid later next gone r le b work thread) =
      Accounted-exit t running busy k now tid later next gone le b work thread
        (Runs-Accounted boot _ _ _ _ lt a r)

-- The maps have room for every key in every state. The handlers are called on one CPU only, in the order
-- of time and at less than 2 ^ 64 nanoseconds: first a switch from a process that has no mark on the
-- CPU, then switches, samples and exits of the task that is running, where the exit of a task is followed
-- by the switch away from it with no call in between. Then `CPU_TIME` of the CPU is what it was before
-- the first call plus `busy`, modulo 2 ^ 64: the time for which tasks other than the idle one had the
-- CPU, up to the last call, without the time from the exit of a task to the switch behind it.
pub cpu_time_conserved :
    {maps : Maps} (cpu c : ℕ) (room : (key : ℕ) (h : maps.Hash) → maps.has_room key h ≡ true)
    (boot : Kernel maps) (t running busy : ℕ) (k : Kernel maps)
    → c < u64_mod
    → maps.at cpu boot.cpu_time ≡ some c
    → Runs maps cpu boot t running busy k
    → maps.at cpu k.cpu_time ≡ some ((c + busy) % u64_mod)
cpu_time_conserved cpu c room boot t running busy k lt a r =
    (Runs-Accounted cpu c room boot t running busy k lt a r).1
