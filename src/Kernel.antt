-- ===== src/Kernel.antt =====
-- scaphandre-ebpf/src/main.rs: the handlers that the kernel runs, over the maps that they share. What
-- a handler reads of the kernel (clock, CPU, task) is an argument of it.
pub mod PerCpu
pub mod Accounting
pub mod Runs
pub mod Conservation
pub mod Stale
pub mod Tick
pub mod Sent
pub mod Functions
mod Examples
use scaphandre.Base.{
  ℕ, zero, suc, ◌+◌, ◌-◌, ◌%◌, ◌^◌, Bool, not, ◌||◌, Option, none, some, List, [], ◌∷◌, ◌==◌,
  if◌then◌else◌, get_elem?, set, replicate, u32_mod, ◌>>=◌,
}
use scaphandre.Kernel.PerCpu.{Maps}
use scaphandre.Sensor.Event.{activation_event, idle_event, CpuStateEvent}
use scaphandre.Sensor.Stat.{add_u64, sub_u64}

-- The maps of the program; `cpu_to_socket` is filled from user space.
pub record Kernel (maps : Maps) : Type 0 where
  pub pid_times : maps.Hash
  pub pid_last : maps.Hash
  pub cpu_time : maps.Array
  pub cpu_snapshot : maps.Array
  pub cpu_to_socket : maps.Array

abbrev pub max_cpu : ℕ
max_cpu = 256

abbrev pub max_socket : ℕ
max_socket = 64

-- `u32::MAX`, for a socket that no CPU was found of
abbrev pub no_cpus : ℕ
no_cpus = 2 ^ 32 - 1

-- One active CPU more, or none so far, of the socket at an index
unfoldable pub mark : ℕ → Bool → List ℕ → List ℕ
mark i changed actives = elim (get_elem? actives i) [
  | none ↦ actives
  | some active_cpus ↦
      let counted = if active_cpus == no_cpus then 0 else active_cpus in
      set actives i (if changed then (counted + 1) % u32_mod else counted)
]

-- The second loop, from a socket on. The argument says whether the ring buffer has room for the
-- event of a socket.
unfoldable pub events_from : (ℕ → Bool) → ℕ → List ℕ → List CpuStateEvent
events_from room socket [] = []
events_from room socket (active_cpus ∷ actives) =
    let rest = events_from room (suc socket) actives in
    if active_cpus == no_cpus
    then []
    else if active_cpus == 0
    then (if room socket
        then record { socket_id = socket; event_type = idle_event } ∷ rest
        else rest)
    else if active_cpus == 1
    then (if room socket
        then record { socket_id = socket; event_type = activation_event } ∷ rest
        else rest)
    else rest

module _ (maps : Maps) where
  open maps use {slot, store, insert, remove, at, put}

  -- A time slice is added to the times of the process and of the CPU.
  unfoldable pub charge : ℕ → ℕ → ℕ → Kernel maps → Kernel maps
  charge cpu tgid delta k = record k {
    pid_times = elim (slot cpu tgid k.pid_times) [
      | none ↦ insert cpu tgid delta k.pid_times
      | some p_time ↦ store cpu tgid (add_u64 p_time delta) k.pid_times
    ];
    cpu_time = elim (at cpu k.cpu_time) [
      | none ↦ k.cpu_time
      | some c_time ↦ put cpu (add_u64 c_time delta) k.cpu_time
    ];
  }

  -- The process is charged up to now, and its mark is removed.
  unfoldable pub charge_and_remove : ℕ → ℕ → ℕ → Kernel maps → Kernel maps
  charge_and_remove now cpu tgid k = elim (slot cpu tgid k.pid_last) [
    | none ↦ k
    | some last_timestamp ↦
        let charged = charge cpu tgid (sub_u64 now last_timestamp) k in
        record charged { pid_last = remove tgid charged.pid_last }
  ]

  -- `try_sched_switch`, once the tasks are read
  unfoldable pub switch_tasks : ℕ → ℕ → ℕ → ℕ → ℕ → Kernel maps → Kernel maps
  switch_tasks now cpu prev_tgid prev_tid next_tgid k =
      let left =
        if prev_tgid == 0 || prev_tid == 0 then k else charge_and_remove now cpu prev_tgid k in
      record left { pid_last = insert cpu next_tgid now left.pid_last }

  -- `try_sched_switch`; `none` is the error of a read of a task, before which nothing is changed
  unfoldable pub try_sched_switch :
      ℕ → ℕ → Option ℕ → Option ℕ → Option ℕ → Kernel maps → Option (Kernel maps)
  try_sched_switch now cpu prev next tid k = do
    prev_tgid ← prev
    next_tgid ← next
    prev_tid ← tid
    some (switch_tasks now cpu prev_tgid prev_tid next_tgid k)

  -- `sample_tick`
  unfoldable pub sample_tick : ℕ → ℕ → ℕ → ℕ → Kernel maps → Kernel maps
  sample_tick now cpu pid tid k =
      if pid == 0 || tid == 0 then k else elim (slot cpu pid k.pid_last) [
        | none ↦ record k { pid_last = insert cpu pid now k.pid_last }
        | some last_timestamp ↦
            let charged = charge cpu pid (sub_u64 now last_timestamp) k in
            record charged { pid_last = store cpu pid now charged.pid_last }
      ]

  -- `try_process_exit`, once its arguments are read
  unfoldable pub exit_task : ℕ → ℕ → ℕ → ℕ → Bool → Kernel maps → Kernel maps
  exit_task now cpu tgid tid group_dead k =
      let left = if tgid == 0 || tid == 0 then k else charge_and_remove now cpu tgid k in
      if group_dead
      then record left {
        pid_times = remove tgid left.pid_times;
        pid_last = remove tgid left.pid_last;
      }
      else left

  -- `try_process_exit`; `none` is the error of the read of the thread and of whether it is the last
  unfoldable pub try_process_exit :
      ℕ → ℕ → ℕ → Option (ℕ × Bool) → Kernel maps → Option (Kernel maps)
  try_process_exit now cpu tgid args k = do
    (tid, group_dead) ← args
    some (exit_task now cpu tgid tid group_dead k)

  -- The socket of a CPU, and whether its time has changed since the last round of `cpu_state_tick`
  unfoldable pub observe : ℕ → Kernel maps → Option (ℕ × Bool)
  observe cpu k = do
    old ← at cpu k.cpu_snapshot
    new ← at cpu k.cpu_time
    socket ← at cpu k.cpu_to_socket
    some (socket, not (sub_u64 new old == 0))

  -- The rounds of the first loop of `cpu_state_tick` that are left, from a CPU on
  unfoldable pub count_active : ℕ → ℕ → Kernel maps → List ℕ → List ℕ
  count_active zero cpu k actives = actives
  count_active (suc rounds) cpu k actives =
      let rest = count_active rounds (suc cpu) k in
      elim (observe cpu k) [
        | none ↦ rest actives
        | some (socket, changed) ↦
            if socket == 0 then actives else rest (mark (socket - 1) changed actives)
      ]

  -- The third loop: the rounds left, from a CPU on
  unfoldable pub snapshot_from : ℕ → ℕ → Kernel maps → Kernel maps
  snapshot_from zero cpu k = k
  snapshot_from (suc rounds) cpu k = snapshot_from rounds (suc cpu) (elim (at cpu k.cpu_time) [
    | none ↦ k
    | some c_time ↦ record k { cpu_snapshot = put cpu c_time k.cpu_snapshot }
  ])

  -- `cpu_state_tick`: the new maps, and the events that are sent
  unfoldable pub cpu_state_tick : (ℕ → Bool) → Kernel maps → Kernel maps × List CpuStateEvent
  unfolding count_active events_from snapshot_from
  cpu_state_tick room k =
      let actives = count_active max_cpu 0 k (replicate max_socket no_cpus) in
      (snapshot_from max_cpu 0 k, events_from room 0 actives)
