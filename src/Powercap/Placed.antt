-- ===== src/Powercap/Placed.antt =====
-- Every core finds a socket, where there is one.
use mathlib.Core.Bool.{true≢false}
use mathlib.Core.Option.{none-ne-some, some-injective}
use mathlib.Core.Path.{subst}
use scaphandre.Base.{
  ℕ, ◌≡◌, refl, sym, ap, ◌∙◌, inl, inr, Bool, true, false, Option, some, List, [], ◌∷◌, ◌++◌, ◌==◌,
  Bool-cases, Option-cases, ◌>>=◌,
}
use scaphandre.Float.{Float}
use scaphandre.Powercap.Sourced.{IsSoundSocket, AllSoundSockets}
use scaphandre.Sensor.Core.{CpuCore, read_stats}
use scaphandre.Sensor.Measure.{lookup}
use scaphandre.Sensor.Socket.{CpuSocket, add_cpu_core}
use scaphandre.Sensor.Socket.Sources.{AllKnown}
use scaphandre.Sensor.Stat.{CpuStat, KernelStats}
use scaphandre.Text.{Text, parse_u16}
use scaphandre.Topology.Cores.{add_to_match, add_to_first, place_in, place_core, place_cores}
use scaphandre.Topology.Sockets.{ids_of}

-- Whether a list has an element
abbrev pub nonempty {ℓ} : {A : Type ℓ} → List A → Bool
nonempty [] = false
nonempty (x ∷ xs) = true

-- The cores name a socket by a number, whether that socket is there or not.
abbrev pub AllPlaced : List CpuCore → Type 0
AllPlaced [] = Unit
AllPlaced (c ∷ cs) =
    ((socket_id : ℕ) × (lookup "physical id" c.attributes >>= parse_u16 ≡ some socket_id))
    × AllPlaced cs

AllKnown-append :
    (kernel_stats : Option KernelStats) (cs : List CpuCore) (c : CpuCore)
    → AllKnown kernel_stats cs
    → (r : Option CpuStat) × (read_stats kernel_stats c ≡ some r)
    → AllKnown kernel_stats (cs ++ c ∷ [])
AllKnown-append kernel_stats [] c h k = (k, tt)
AllKnown-append kernel_stats (x ∷ xs) c h k = (h.0, AllKnown-append kernel_stats xs c h.1 k)

module _ {fl : Float} (base_path : Text) (kernel_stats : Option KernelStats) where
  -- The sockets with one core more: sound, and with the numbers of before
  abbrev Grown : List (CpuSocket fl) → List (CpuSocket fl) → Type 0
  Grown ss ss' = AllSoundSockets base_path kernel_stats ss' × (ids_of ss' ≡ ids_of ss)

  add_cpu_core_sound :
      (c : CpuCore) (s : CpuSocket fl)
      → (r : Option CpuStat) × (read_stats kernel_stats c ≡ some r)
      → IsSoundSocket base_path kernel_stats s
      → IsSoundSocket base_path kernel_stats (add_cpu_core fl c s)
  unfolding add_cpu_core
  add_cpu_core_sound c s k h = (h.0, h.1, AllKnown-append kernel_stats s.cpu_cores c h.2 k)

  add_to_match_sound :
      (socket_id : ℕ) (c : CpuCore) (ss ss' : List (CpuSocket fl))
      → (r : Option CpuStat) × (read_stats kernel_stats c ≡ some r)
      → AllSoundSockets base_path kernel_stats ss
      → add_to_match fl socket_id c ss ≡ some ss'
      → Grown ss ss'
  unfolding add_to_match
  add_to_match_sound socket_id c [] ss' k h e = absurd (none-ne-some ss' e)
  add_to_match_sound socket_id c (s ∷ ss) ss' k h e = elim (Bool-cases (s.id == socket_id)) [
    | inl same ↦
        subst (Grown (s ∷ ss)) (some-injective _ _ (rw same at e))
          ((add_cpu_core_sound c s k h.0, h.1), unfold add_cpu_core in refl)
    | inr other ↦ elim (Option-cases (add_to_match fl socket_id c ss)) [
      | inl unmatched ↦ absurd (none-ne-some ss' (rw (other, unmatched) at e))
      | inr (xs, matched) ↦
          let rest = add_to_match_sound socket_id c ss xs k h.1 matched in
          subst (Grown (s ∷ ss)) (some-injective _ _ (rw (other, matched) at e))
            ((h.0, rest.0), ap (λ is. s.id ∷ is) rest.1)
    ]
  ]

  add_to_first_sound :
      (c : CpuCore) (ss : List (CpuSocket fl))
      → nonempty ss ≡ true
      → (r : Option CpuStat) × (read_stats kernel_stats c ≡ some r)
      → AllSoundSockets base_path kernel_stats ss
      → (ss' : List (CpuSocket fl)) × (add_to_first fl c ss ≡ some ss') × Grown ss ss'
  unfolding add_to_first add_cpu_core
  add_to_first_sound c [] n k h = absurd (true≢false (sym n))
  add_to_first_sound c (s ∷ ss) n k h =
      (add_cpu_core fl c s ∷ ss, refl, ((add_cpu_core_sound c s k h.0, h.1), refl))

  place_in_sound :
      (socket_id : ℕ) (c : CpuCore) (ss : List (CpuSocket fl))
      → nonempty ss ≡ true
      → (r : Option CpuStat) × (read_stats kernel_stats c ≡ some r)
      → AllSoundSockets base_path kernel_stats ss
      → (ss' : List (CpuSocket fl)) × (place_in fl socket_id c ss ≡ some ss') × Grown ss ss'
  unfolding place_in
  place_in_sound socket_id c ss n k h = elim (Option-cases (add_to_match fl socket_id c ss)) [
    | inl unmatched ↦
        let first = add_to_first_sound c ss n k h in
        (first.0, rw (place_in, unmatched) first.1, first.2)
    | inr (ss', matched) ↦
        (ss', rw (place_in, matched) refl, add_to_match_sound socket_id c ss ss' k h matched)
  ]

  place_core_sound :
      (c : CpuCore) (ss : List (CpuSocket fl))
      → (socket_id : ℕ) × (lookup "physical id" c.attributes >>= parse_u16 ≡ some socket_id)
      → nonempty ss ≡ true
      → (r : Option CpuStat) × (read_stats kernel_stats c ≡ some r)
      → AllSoundSockets base_path kernel_stats ss
      → (ss' : List (CpuSocket fl)) × (place_core fl c ss ≡ some ss') × Grown ss ss'
  unfolding place_core
  place_core_sound c ss p n k h =
      let placed = place_in_sound p.0 c ss n k h in (placed.0, rw p.1 placed.1, placed.2)

  nonempty_as_ids : (ss : List (CpuSocket fl)) → nonempty ss ≡ nonempty (ids_of ss)
  nonempty_as_ids [] = refl
  nonempty_as_ids (s ∷ ss) = refl

  pub nonempty-ids :
      (ss ss' : List (CpuSocket fl))
      → ids_of ss' ≡ ids_of ss
      → nonempty ss ≡ true
      → nonempty ss' ≡ true
  nonempty-ids ss ss' e n = nonempty_as_ids ss' ∙ ap nonempty e ∙ sym (nonempty_as_ids ss) ∙ n

  pub place_cores_sound :
      (cs : List CpuCore) (ss : List (CpuSocket fl))
      → AllPlaced cs
      → nonempty ss ≡ true
      → AllKnown kernel_stats cs
      → AllSoundSockets base_path kernel_stats ss
      → (ss' : List (CpuSocket fl)) × (place_cores fl cs ss ≡ some ss') × Grown ss ss'
  unfolding place_cores
  place_cores_sound [] ss p n k h = (ss, refl, (h, refl))
  place_cores_sound (c ∷ cs) ss p n k h =
      let behind = place_cores_sound cs ss p.1 n k.1 h in
      let placed =
        place_core_sound c behind.0 p.0 (nonempty-ids ss behind.0 behind.2.1 n) k.0 behind.2.0 in
      (placed.0, rw behind.1 placed.1, (placed.2.0, placed.2.1 ∙ behind.2.1))
