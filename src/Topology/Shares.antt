-- ===== src/Topology/Shares.antt =====
-- The power of a socket shared among its cores, by how much each of them worked.
use scaphandre.Base.{ℕ, Option, none, some, List, [], ◌∷◌, ◌++◌, map, ltb, if◌then◌else◌, ◌>>=◌}
use scaphandre.Base.Sorting.{sort_by_key}
use scaphandre.Float.{Float}
use scaphandre.Sensor.Core.{CpuCore, clone_core, get_core_metrics_delta}
use scaphandre.Sensor.Measure.{MultiValuedRecord, new_multi_record}
use scaphandre.Sensor.Socket.{CpuSocket, get_records_diff_power_microwatts_per_domain}
use scaphandre.Text.{Text}
use scaphandre.Units.{numeric, micro_watt}

-- `DomainResource::CPU.to_string()`
abbrev pub cpu_name : Text
cpu_name = b'c' ∷ b'o' ∷ b'r' ∷ b'e' ∷ []

module _ (fl : Float) where
  open fl use {F, of_ℕ, add, mul, div, eq, parse_f64, show_f64}

  -- `iter().sum()`
  unfoldable pub sum_f64 : List F → F
  sum_f64 xs = sum_from (of_ℕ 0) xs
    where
      sum_from : F → List F → F
      sum_from total [] = total
      sum_from total (x ∷ xs) = sum_from (add total x) xs

  -- `get_cores` of a socket
  unfoldable pub socket_cores : CpuSocket fl → List CpuCore
  socket_cores s = sort_by_key CpuCore.id (map clone_core s.cpu_cores)

  -- The coefficient of one core: it grows with the instructions per cycle and the active cycles.
  unfoldable pub core_coef : CpuCore → F
  core_coef c = elim (get_core_metrics_delta fl c) [
    | none ↦ of_ℕ 0
    | some metrics ↦
        if ltb 0 metrics.tsc
        then mul (mul (add (of_ℕ 1) metrics.ipc) (of_ℕ metrics.aperf))
            (div (of_ℕ metrics.aperf) (of_ℕ metrics.mperf))
        else of_ℕ 0
  ]

  -- `get_core_coefs` of a socket
  unfoldable pub socket_core_coefs : CpuSocket fl → List F
  socket_core_coefs s = map core_coef (socket_cores s)

  -- Each coefficient over their sum
  unfoldable pub proportions_of : List F → List F
  proportions_of coefs =
      let total_coefs = sum_f64 coefs in
      map (λ c. if eq total_coefs (of_ℕ 0) then of_ℕ 0 else div c total_coefs) coefs

  -- `get_core_proportions` of a socket
  unfoldable pub socket_core_proportions : CpuSocket fl → List F
  socket_core_proportions s = proportions_of (socket_core_coefs s)

  -- `get_proportional_core_diff_power_microwatts` of a socket; `cpu_name` is the name of the domain
  unfoldable pub socket_core_powers : ℕ → CpuSocket fl → Option MultiValuedRecord
  socket_core_powers now s = do
    r ← get_records_diff_power_microwatts_per_domain fl now cpu_name s
    conso ← parse_f64 r.value
    let energies = map (λ p. mul p conso) (socket_core_proportions s)
    some (new_multi_record now (map show_f64 energies) (map (λ e. numeric) energies))

  -- Pairs of a core's number and a value, as `zip` makes them
  unfoldable pub with_ids {ℓ} : {A : Type ℓ} → List CpuCore → List A → List (ℕ × A)
  with_ids [] xs = []
  with_ids (c ∷ cs) [] = []
  with_ids (c ∷ cs) (x ∷ xs) = (c.id, x) ∷ with_ids cs xs

  abbrev by_id {ℓ} : {A : Type ℓ} → List (ℕ × A) → List A
  by_id xs = map (λ x. x.1) (sort_by_key (λ x. x.0) xs)

  unfoldable pub cores_of : List (CpuSocket fl) → List CpuCore
  cores_of [] = []
  cores_of (s ∷ ss) = socket_cores s ++ cores_of ss

  -- `get_cores` of the topology, of its sockets
  unfoldable pub all_cores : List (CpuSocket fl) → List CpuCore
  all_cores ss = sort_by_key CpuCore.id (cores_of ss)

  unfoldable pub powers_of : ℕ → List (CpuSocket fl) → Option (List (ℕ × Text))
  powers_of now [] = some []
  powers_of now (s ∷ ss) = do
    powers ← socket_core_powers now s
    rest ← powers_of now ss
    some (with_ids (socket_cores s) powers.values ++ rest)

  -- `get_proportional_core_diff_power_microwatts` of the topology
  unfoldable pub all_core_powers : ℕ → List (CpuSocket fl) → Option MultiValuedRecord
  all_core_powers now ss = do
    v ← powers_of now ss
    some (new_multi_record now (by_id v) (map (λ t. micro_watt) v))

  unfoldable pub coefs_of : List (CpuSocket fl) → List (ℕ × F)
  coefs_of [] = []
  coefs_of (s ∷ ss) = with_ids (socket_cores s) (socket_core_coefs s) ++ coefs_of ss

  -- `get_core_coefs` of the topology
  unfoldable pub all_core_coefs : List (CpuSocket fl) → List F
  all_core_coefs ss = by_id (coefs_of ss)

  -- `get_core_proportions` of the topology
  unfoldable pub all_core_proportions : List (CpuSocket fl) → List F
  all_core_proportions ss = proportions_of (all_core_coefs ss)
