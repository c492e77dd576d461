-- ===== src/Kernel/Tick.antt =====
-- What `cpu_state_tick` sends: the active CPUs of each socket, counted over the CPUs up to the first
-- one without a socket.
use mathlib.Core.Path.{subst}
use mathlib.Core.Bool.{true≢false}
use mathlib.Core.Option.{none-ne-some}
use scaphandre.Base.{
  ℕ, zero, suc, ◌+◌, ◌-◌, ◌%◌, ◌≤◌, ◌<◌, ◌≡◌, refl, sym, ap, ◌∙◌, inl, inr, Bool, true, false, ◌&&◌,
  ◌||◌, none, some, List, [], ◌∷◌, arith, ◌==◌, if◌then◌else◌, eqb→eq, Bool-cases, Option-cases,
  length, get_elem?, set, replicate, u32_mod,
}
use scaphandre.Kernel.{Kernel, max_cpu, max_socket, no_cpus, mark, observe, count_active}
use scaphandre.Kernel.PerCpu.{Maps}

-- What the first loop looks at: the socket of each CPU, counted from 1, and whether it was active
abbrev pub Seen : Type 0
Seen = List (ℕ × Bool)

module _ {maps : Maps} where
  unfoldable pub seen_from : ℕ → ℕ → Kernel maps → Seen
  seen_from zero cpu k = []
  seen_from (suc rounds) cpu k =
      let rest = seen_from rounds (suc cpu) k in
      elim (observe maps cpu k) [
        | none ↦ rest
        | some (socket, active) ↦ if socket == 0 then [] else (socket, active) ∷ rest
      ]

-- Whether the socket at an index has a CPU, and how many of its CPUs were active
unfoldable pub has_cpu : ℕ → Seen → Bool
has_cpu i [] = false
has_cpu i ((socket, active) ∷ seen) = socket - 1 == i || has_cpu i seen

unfoldable pub active_count : ℕ → Seen → ℕ
active_count i [] = 0
active_count i ((socket, active) ∷ seen) =
    let rest = active_count i seen in if socket - 1 == i && active then suc rest else rest

unfoldable pub mark_all : Seen → List ℕ → List ℕ
mark_all [] actives = actives
mark_all ((socket, active) ∷ seen) actives = mark_all seen (mark (socket - 1) active actives)

pub count_active-seen :
    {maps : Maps} (rounds cpu : ℕ) (k : Kernel maps) (actives : List ℕ)
    → count_active maps rounds cpu k actives ≡ mark_all (seen_from rounds cpu k) actives
unfolding count_active seen_from mark_all
count_active-seen zero cpu k actives = refl
count_active-seen {maps} (suc rounds) cpu k actives = elim (Option-cases (observe maps cpu k)) [
  | inl skipped ↦
      rw (count_active, seen_from, skipped) (count_active-seen rounds (suc cpu) k actives)
  | inr ((socket, active), found) ↦ elim (Bool-cases (socket == 0)) [
    | inl end ↦ rw (count_active, seen_from, found, end) refl
    | inr other ↦
        rw (count_active, seen_from, found, other)
          (count_active-seen rounds (suc cpu) k (mark (socket - 1) active actives))
  ]
]

get_elem?-set_same :
    (xs : List ℕ) (i v old : ℕ) → get_elem? xs i ≡ some old → get_elem? (set xs i v) i ≡ some v
get_elem?-set_same [] i v old h = absurd (none-ne-some old h)
get_elem?-set_same (x ∷ xs) zero v old h = refl
get_elem?-set_same (x ∷ xs) (suc i) v old h = get_elem?-set_same xs i v old h

get_elem?-set_other :
    (xs : List ℕ) (i j v : ℕ) → i == j ≡ false → get_elem? (set xs i v) j ≡ get_elem? xs j
get_elem?-set_other [] i j v ne = refl
get_elem?-set_other (x ∷ xs) zero zero v ne = absurd (true≢false ne)
get_elem?-set_other (x ∷ xs) zero (suc j) v ne = refl
get_elem?-set_other (x ∷ xs) (suc i) zero v ne = refl
get_elem?-set_other (x ∷ xs) (suc i) (suc j) v ne = get_elem?-set_other xs i j v (ground arith)

-- The counter of a socket after a CPU of it
abbrev counted : Bool → ℕ → ℕ
counted active n = let m = if n == no_cpus then 0 else n in if active then (m + 1) % u32_mod else m

get_elem?-mark_same :
    (i n : ℕ) (active : Bool) (xs : List ℕ)
    → get_elem? xs i ≡ some n
    → get_elem? (mark i active xs) i ≡ some (counted active n)
unfolding mark
get_elem?-mark_same i n active xs h = rw (mark, h) (get_elem?-set_same xs i (counted active n) n h)

get_elem?-mark_other :
    (i j : ℕ) (active : Bool) (xs : List ℕ)
    → i == j ≡ false
    → get_elem? (mark i active xs) j ≡ get_elem? xs j
unfolding mark
get_elem?-mark_other i j active xs ne = elim (Option-cases (get_elem? xs i)) [
  | inl out ↦ rw (mark, out) refl
  | inr (n, at_i) ↦ rw (mark, at_i) (get_elem?-set_other xs i j (counted active n) ne)
]

-- The counter of the socket at an index after the CPUs that are left, from a value
abbrev count_after : ℕ → Seen → ℕ → ℕ
count_after i seen n =
    if n == no_cpus
    then (if has_cpu i seen then active_count i seen else no_cpus)
    else n + active_count i seen

abbrev base : ℕ → ℕ
base n = if n == no_cpus then 0 else n

counted-small :
    (active : Bool) (n room : ℕ)
    → base n + suc room < no_cpus
    → (counted active n == no_cpus ≡ false)
      × (counted active n ≡ (if active then 1 else 0) + base n)
      × (base (counted active n) + room < no_cpus)
counted-small true n room h = (ground arith, ground arith, ground arith)
counted-small false n room h = (ground arith, ground arith, ground arith)

count_after-counting :
    (i m : ℕ) (seen : Seen) → m == no_cpus ≡ false → count_after i seen m ≡ m + active_count i seen
count_after-counting i m seen e = rw e refl

count_after-seen :
    (i socket n : ℕ) (active : Bool) (seen : Seen)
    → socket - 1 == i ≡ true
    → count_after i ((socket, active) ∷ seen) n
      ≡ (if active then 1 else 0) + base n + active_count i seen
unfolding has_cpu active_count
count_after-seen i socket n true seen e = elim (Bool-cases (n == no_cpus)) [
  | inl first ↦ rw (first, e) (omega arith)
  | inr again ↦ rw (again, e) (omega arith)
]
count_after-seen i socket n false seen e = elim (Bool-cases (n == no_cpus)) [
  | inl first ↦ rw (first, e) (omega arith)
  | inr again ↦ rw (again, e) (omega arith)
]

count_after-same :
    (i socket n : ℕ) (active : Bool) (seen : Seen)
    → base n + suc (length seen) < no_cpus
    → socket - 1 == i ≡ true
    → count_after i seen (counted active n) ≡ count_after i ((socket, active) ∷ seen) n
count_after-same i socket n active seen h e =
    let c = counted-small active n (length seen) h in
    count_after-counting i (counted active n) seen c.0
    ∙ ap (λ m. m + active_count i seen) c.1
    ∙ sym (count_after-seen i socket n active seen e)

count_after-other :
    (i socket n : ℕ) (active : Bool) (seen : Seen)
    → socket - 1 == i ≡ false
    → count_after i seen n ≡ count_after i ((socket, active) ∷ seen) n
unfolding has_cpu active_count
count_after-other i socket n active seen e = rw e refl

get_elem?-mark_all :
    (i n : ℕ) (seen : Seen) (xs : List ℕ)
    → base n + length seen < no_cpus
    → get_elem? xs i ≡ some n
    → get_elem? (mark_all seen xs) i ≡ some (count_after i seen n)
unfolding mark_all has_cpu active_count
get_elem?-mark_all i n [] xs h e = e ∙ ap some (ground arith)
get_elem?-mark_all i n ((socket, active) ∷ seen) xs h e = elim (Bool-cases (socket - 1 == i)) [
  | inl same ↦
      let at_i = eqb→eq (socket - 1) i same in
      let marked =
        subst (λ j. get_elem? (mark (socket - 1) active xs) j ≡ some (counted active n)) at_i
          (get_elem?-mark_same (socket - 1) n active xs (ap (get_elem? xs) at_i ∙ e)) in
      get_elem?-mark_all i (counted active n) seen (mark (socket - 1) active xs)
        (counted-small active n (length seen) h).2 marked
      ∙ ap some (count_after-same i socket n active seen h same)
  | inr other ↦
      get_elem?-mark_all i n seen (mark (socket - 1) active xs) (omega arith)
        (get_elem?-mark_other (socket - 1) i active xs other ∙ e)
      ∙ ap some (count_after-other i socket n active seen other)
]

pub length-seen_from :
    {maps : Maps} (rounds cpu : ℕ) (k : Kernel maps) → length (seen_from rounds cpu k) ≤ rounds
unfolding seen_from
length-seen_from zero cpu k = omega arith
length-seen_from {maps} (suc rounds) cpu k = elim (Option-cases (observe maps cpu k)) [
  | inl skipped ↦ rw (seen_from, skipped) (omega (arith, length-seen_from rounds (suc cpu) k))
  | inr ((socket, active), found) ↦ elim (Bool-cases (socket == 0)) [
    | inl end ↦ rw (seen_from, found, end) (omega arith)
    | inr other ↦ rw (seen_from, found, other) (omega (arith, length-seen_from rounds (suc cpu) k))
  ]
]

get_elem?-replicate : (n i x : ℕ) → i < n → get_elem? (replicate n x) i ≡ some x
get_elem?-replicate zero i x h = absurd (omega arith)
get_elem?-replicate (suc n) zero x h = refl
get_elem?-replicate (suc n) (suc i) x h = get_elem?-replicate n i x (omega arith)

-- Over the CPUs up to the first one that is mapped to no socket, the first loop of `cpu_state_tick`
-- gives each socket below 64 the number of its CPUs whose time has changed since the last round, and
-- leaves a socket without a CPU at `u32::MAX`, the value at which the second loop ends.
pub count_active-of_sockets :
    {maps : Maps} (k : Kernel maps) (i : ℕ)
    → i < max_socket
    → get_elem? (count_active maps max_cpu 0 k (replicate max_socket no_cpus)) i
      ≡ some (
          if has_cpu i (seen_from max_cpu 0 k)
          then active_count i (seen_from max_cpu 0 k)
          else no_cpus)
count_active-of_sockets k i h =
    ap (λ xs. get_elem? xs i) (count_active-seen max_cpu 0 k (replicate max_socket no_cpus))
    ∙ get_elem?-mark_all i no_cpus (seen_from max_cpu 0 k) (replicate max_socket no_cpus)
        (omega (arith, length-seen_from max_cpu 0 k)) (get_elem?-replicate max_socket i no_cpus h)
