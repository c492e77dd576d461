-- ===== src/Kernel/Sent.antt =====
-- The events that `cpu_state_tick` sends.
use mathlib.Core.Option.{some-injective}
use scaphandre.Base.{
  ℕ, zero, suc, ◌+◌, ◌-◌, ◌≤◌, ◌<◌, ◌≡◌, refl, ap, ◌∙◌, inl, inr, Bool, false, ◌&&◌, some, List, [],
  ◌∷◌, arith, ◌==◌, if◌then◌else◌, Bool-cases, Option-cases, length, get_elem?, set, replicate,
}
use scaphandre.Kernel.{
  Kernel, max_cpu, max_socket, no_cpus, mark, events_from, count_active, cpu_state_tick,
}
use scaphandre.Kernel.PerCpu.{Maps}
use scaphandre.Kernel.Tick.{
  Seen, seen_from, has_cpu, active_count, mark_all, count_active-seen, length-seen_from,
  count_active-of_sockets,
}
use scaphandre.Sensor.Event.{CpuEventType, activation_event, idle_event, CpuStateEvent}
-- For the socket at an index and those behind it: an idle event where no CPU of the socket was active,
-- an activation event where one was, up to the first socket without a CPU
use scaphandre.Base.{
  ℕ, zero, suc, ◌+◌, ◌-◌, ◌≤◌, ◌<◌, ◌≡◌, refl, inl, inr, Bool, false, ◌&&◌, some, List, [], ◌∷◌,
  arith, ◌==◌, if◌then◌else◌, Bool-cases, length, get_elem?,
}
use scaphandre.Kernel.{no_cpus, events_from}
use scaphandre.Kernel.Tick.{Seen, has_cpu, active_count}
use scaphandre.Sensor.Event.{activation_event, idle_event, CpuStateEvent}

unfoldable pub expected_events : (ℕ → Bool) → ℕ → ℕ → Seen → List CpuStateEvent
expected_events room zero socket seen = []
expected_events room (suc rounds) socket seen =
    let rest = expected_events room rounds (suc socket) seen in
    let send = λ (kind : CpuEventType).
      if room socket then record { socket_id = socket; event_type = kind } ∷ rest else rest in
    if has_cpu socket seen
    then (if active_count socket seen == 0
        then send idle_event
        else (if active_count socket seen == 1 then send activation_event else rest))
    else []

abbrev count_of : ℕ → Seen → ℕ
count_of i seen = if has_cpu i seen then active_count i seen else no_cpus

active_count-le : (i : ℕ) (seen : Seen) → active_count i seen ≤ length seen
unfolding active_count
active_count-le i [] = omega arith
active_count-le i ((socket, active) ∷ seen) = elim (Bool-cases (socket - 1 == i && active)) [
  | inl one ↦ rw one (omega (arith, active_count-le i seen))
  | inr none_more ↦ rw none_more (omega (arith, active_count-le i seen))
]

below_no_cpus : (n m : ℕ) → n ≤ m → m < no_cpus → n == no_cpus ≡ false
below_no_cpus n m le lt = ground arith

-- The events of one socket and those behind it, given its counter
events_from-cons :
    (room : ℕ → Bool) (rounds socket : ℕ) (seen : Seen) (actives : List ℕ)
    → length seen < no_cpus
    → events_from room (suc socket) actives ≡ expected_events room rounds (suc socket) seen
    → events_from room socket (count_of socket seen ∷ actives)
      ≡ expected_events room (suc rounds) socket seen
unfolding events_from expected_events
events_from-cons room rounds socket seen actives small e = elim (Bool-cases (has_cpu socket seen)) [
  | inl some_cpu ↦
      let counted : active_count socket seen == no_cpus ≡ false =
        below_no_cpus (active_count socket seen) (length seen) (active_count-le socket seen)
          small in
      rw some_cpu (rw (counted, e) refl)
  | inr no_cpu ↦ rw no_cpu refl
]

events_from-expected :
    (room : ℕ → Bool) (rounds socket : ℕ) (seen : Seen) (actives : List ℕ)
    → length seen < no_cpus
    → length actives ≡ rounds
    → ((i : ℕ) → i < rounds → get_elem? actives i ≡ some (count_of (i + socket) seen))
    → events_from room socket actives ≡ expected_events room rounds socket seen
unfolding events_from expected_events
events_from-expected room zero socket seen [] small l h = refl
events_from-expected room zero socket seen (a ∷ actives) small l h = absurd (omega arith)
events_from-expected room (suc rounds) socket seen [] small l h = absurd (omega arith)
events_from-expected room (suc rounds) socket seen (a ∷ actives) small l h =
    let first =
      some-injective a (count_of socket seen)
        (h 0 (omega arith) ∙ ap (λ j. some (count_of j seen)) (omega arith)) in
    let rest =
      events_from-expected room rounds (suc socket) seen actives small (omega arith)
        (λ i k. h (suc i) (omega arith) ∙ ap (λ j. some (count_of j seen)) (omega arith)) in
    rw first (events_from-cons room rounds socket seen actives small rest)

length-set : (xs : List ℕ) (i v : ℕ) → length (set xs i v) ≡ length xs
length-set [] i v = refl
length-set (x ∷ xs) zero v = refl
length-set (x ∷ xs) (suc i) v = ap suc (length-set xs i v)

length-mark : (i : ℕ) (active : Bool) (xs : List ℕ) → length (mark i active xs) ≡ length xs
unfolding mark
length-mark i active xs = elim (Option-cases (get_elem? xs i)) [
  | inl out ↦ rw (mark, out) refl
  | inr (n, at_i) ↦ rw (mark, at_i) (length-set xs i _)
]

length-mark_all : (seen : Seen) (xs : List ℕ) → length (mark_all seen xs) ≡ length xs
unfolding mark_all
length-mark_all [] xs = refl
length-mark_all ((socket, active) ∷ seen) xs =
    length-mark_all seen (mark (socket - 1) active xs) ∙ length-mark (socket - 1) active xs

length-count_active :
    {maps : Maps} (k : Kernel maps)
    → length (count_active maps max_cpu 0 k (replicate max_socket no_cpus)) ≡ max_socket
length-count_active k =
    ap length (count_active-seen max_cpu 0 k (replicate max_socket no_cpus))
    ∙ length-mark_all (seen_from max_cpu 0 k) (replicate max_socket no_cpus)

-- A round of `cpu_state_tick` looks at the CPUs in front of the first one that is mapped to no socket.
-- For the sockets from the first one up to one that none of these CPUs is of, it sends an idle event for
-- a socket none of whose CPUs had time since the last round, and an activation event for a socket of
-- which one CPU had, where the ring buffer has room for it, and nothing else.
pub cpu_state_tick-expected :
    {maps : Maps} (room : ℕ → Bool) (k : Kernel maps)
    → (cpu_state_tick maps room k).1 ≡ expected_events room max_socket 0 (seen_from max_cpu 0 k)
unfolding cpu_state_tick
cpu_state_tick-expected room k =
    events_from-expected room max_socket 0 (seen_from max_cpu 0 k) _
      (omega (arith, length-seen_from max_cpu 0 k)) (length-count_active k)
      (λ i h.
        count_active-of_sockets k i h
        ∙ ap (λ j. some (count_of j (seen_from max_cpu 0 k))) (omega arith))
