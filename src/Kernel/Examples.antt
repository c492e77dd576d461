-- ===== src/Kernel/Examples.antt =====
-- Runs of the handlers over maps as functions.
use scaphandre.Base.{
  ℕ, ◌+◌, ◌*◌, ◌≡◌, refl, true, Option, none, some, [], ◌∷◌, arith, ltb, ◌==◌, if◌then◌else◌,
  get_elem?, replicate,
}
use scaphandre.Kernel.{
  Kernel, max_cpu, max_socket, no_cpus, switch_tasks, sample_tick, observe, count_active,
  cpu_state_tick,
}
use scaphandre.Kernel.Conservation.{cpu_time_conserved}
use scaphandre.Kernel.Functions.{functions}
use scaphandre.Kernel.Runs.{Runs, start, switched, ticked}
use scaphandre.Kernel.Sent.{expected_events, cpu_state_tick-expected}
use scaphandre.Kernel.Stale.{two_cpus_time_since_boot}
use scaphandre.Kernel.Tick.{seen_from, has_cpu, active_count, count_active-of_sockets}
use scaphandre.Sensor.Event.{activation_event}

abbrev times : ℕ → ℕ → Option ℕ
times n cpu = if ltb cpu 2 then some n else none

-- Two CPUs of one socket, before any task was seen
abbrev boot : Kernel functions
boot = record {
  pid_times = λ key. none;
  pid_last = λ key. none;
  cpu_time = times 100;
  cpu_snapshot = times 100;
  cpu_to_socket = times 1;
}

abbrev never_full : (key : ℕ) (h : functions.Hash) → functions.has_room key h ≡ true
never_full key h = refl

-- Process 7 has the CPU from 10, is sampled at 15, and gives way to the idle task at 22.
abbrev sampled : Kernel functions
sampled = sample_tick functions 15 0 7 7 (switch_tasks functions 10 0 0 0 7 boot)

run_of_seven : Runs functions 0 boot 22 0 12 (switch_tasks functions 22 0 7 7 0 sampled)
run_of_seven =
    switched 15 7 5 sampled 22 7 0
      (ticked 10 7 0 (switch_tasks functions 10 0 0 0 7 boot) 15 7 (start 10 0 0 7 refl)
        (omega arith) (omega arith) refl)
      (omega arith) (omega arith) refl

cpu_time_conserved_example : (switch_tasks functions 22 0 7 7 0 sampled).cpu_time 0 ≡ some 112
cpu_time_conserved_example =
    cpu_time_conserved {maps = functions} 0 100 never_full boot 22 0 12
      (switch_tasks functions 22 0 7 7 0 sampled) (omega arith) refl run_of_seven

-- Process 7 has a thread on each of the CPUs, since 40 and 50.
abbrev shared : Kernel functions
shared = record boot { pid_last = λ key. if key == 7 then some (λ cpu. 40 + 10 * cpu) else none }

two_cpus_time_since_boot_example :
    (switch_tasks functions 90 1 7 8 0
        (switch_tasks functions 80 0 0 0 7 (switch_tasks functions 70 0 7 7 9 shared))).cpu_time
      1
    ≡ some 190
two_cpus_time_since_boot_example =
    two_cpus_time_since_boot {maps = functions} 0 1 7 7 8 9 0 40 100 100 70 80 90 shared never_full
      refl refl refl refl refl (omega arith) refl refl refl

-- The first of the two CPUs has had time since the last round.
abbrev one_active : Kernel functions
one_active = record boot { cpu_snapshot = λ cpu. if cpu == 0 then some 90 else times 100 cpu }

count_active-of_sockets_example :
    get_elem? (count_active functions max_cpu 0 one_active (replicate max_socket no_cpus)) 0
    ≡ some 1
unfolding has_cpu active_count seen_from observe
count_active-of_sockets_example = count_active-of_sockets one_active 0 (omega arith)

cpu_state_tick-expected_example :
    (cpu_state_tick functions (λ socket. true) one_active).1
    ≡ record { socket_id = 0; event_type = activation_event } ∷ []
unfolding expected_events has_cpu active_count seen_from observe
cpu_state_tick-expected_example = cpu_state_tick-expected (λ socket. true) one_active
