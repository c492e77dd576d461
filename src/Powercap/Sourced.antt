-- ===== src/Powercap/Sourced.antt =====
-- What the sockets of a powercap topology have in common: each names the counter of its own number,
-- its domains name theirs, /proc/stat has a line for each
-- of its cores, and no two sockets have one number.
use mathlib.Core.Path.{subst}
use scaphandre.Base.{
  ℕ, ◌≡◌, refl, sym, ◌∙◌, inl, inr, not, Option, some, List, [], ◌∷◌, ◌++◌, map, ◌==◌,
  if◌then◌else◌, eqb→eq, Bool-cases, Option-cases, any,
}
use scaphandre.Float.{Float}
use scaphandre.Powercap.{socket_source, domain_source, source_data}
use scaphandre.Sensor.Domain.{Domain}
use scaphandre.Sensor.Measure.{lookup, insert, Files}
use scaphandre.Sensor.Measure.Keys.{lookup-insert_other}
use scaphandre.Sensor.Socket.{CpuSocket, safe_add_domain}
use scaphandre.Sensor.Socket.Sources.{AllSourced, AllKnown}
use scaphandre.Sensor.Stat.{KernelStats}
use scaphandre.Text.{Text}
use scaphandre.Topology.Events.{IsDistinct}
use scaphandre.Topology.Measurable.{AllMeasurable}
use scaphandre.Topology.Sockets.{ids_of, IsDistinct-unless_there}

pub source_data-source :
    (files : Files) (source range_file : Text)
    → lookup "source_file" (source_data files source range_file) ≡ some source
unfolding source_data
source_data-source files source range_file = elim (Option-cases (files range_file)) [
  | inl unread ↦ rw (source_data, unread) (unfold lookup insert in refl)
  | inr (range, found) ↦ rw (source_data, found) (unfold lookup insert in refl)
]

module _ {fl : Float} (base_path : Text) (kernel_stats : Option KernelStats) where
  abbrev pub AllSourcedDomains : ℕ → List (Domain fl) → Type 0
  AllSourcedDomains socket_id [] = Unit
  AllSourcedDomains socket_id (d ∷ ds) =
      (lookup "source_file" d.sensor_data ≡ some (domain_source base_path socket_id d.id))
      × AllSourcedDomains socket_id ds

  abbrev pub IsSoundSocket : CpuSocket fl → Type 0
  IsSoundSocket s =
      (lookup "source_file" s.sensor_data ≡ some (socket_source base_path s.id))
      × AllSourcedDomains s.id s.domains
      × AllKnown kernel_stats s.cpu_cores

  abbrev pub AllSoundSockets : List (CpuSocket fl) → Type 0
  AllSoundSockets [] = Unit
  AllSoundSockets (s ∷ ss) = IsSoundSocket s × AllSoundSockets ss

  -- Sockets as the powercap tree has them
  pub record IsSound (ss : List (CpuSocket fl)) : Type 0 where
    pub sourced : AllSoundSockets ss
    pub distinct : IsDistinct (ids_of ss)

  AllSourcedDomains-append :
      (socket_id : ℕ) (ds : List (Domain fl)) (d : Domain fl)
      → AllSourcedDomains socket_id ds
      → lookup "source_file" d.sensor_data ≡ some (domain_source base_path socket_id d.id)
      → AllSourcedDomains socket_id (ds ++ d ∷ [])
  AllSourcedDomains-append socket_id [] d h k = (k, tt)
  AllSourcedDomains-append socket_id (x ∷ xs) d h k =
      (h.0, AllSourcedDomains-append socket_id xs d h.1 k)

  AllSoundSockets-append :
      (ss : List (CpuSocket fl)) (s : CpuSocket fl)
      → AllSoundSockets ss
      → IsSoundSocket s
      → AllSoundSockets (ss ++ s ∷ [])
  AllSoundSockets-append [] s h k = (k, tt)
  AllSoundSockets-append (x ∷ xs) s h k = (h.0, AllSoundSockets-append xs s h.1 k)

  -- A change of each socket that keeps its number and its sources
  abbrev Keeps : (CpuSocket fl → CpuSocket fl) → Type 0
  Keeps g = (s : CpuSocket fl) → ((g s).id ≡ s.id) × (IsSoundSocket s → IsSoundSocket (g s))

  ids_of-map :
      (g : CpuSocket fl → CpuSocket fl) (ss : List (CpuSocket fl))
      → Keeps g
      → ids_of (map g ss) ≡ ids_of ss
  ids_of-map g [] k = refl
  ids_of-map g (s ∷ ss) k = rw ((k s).0, ids_of-map g ss k) refl

  AllSoundSockets-map :
      (g : CpuSocket fl → CpuSocket fl) (ss : List (CpuSocket fl))
      → Keeps g
      → AllSoundSockets ss
      → AllSoundSockets (map g ss)
  AllSoundSockets-map g [] k h = tt
  AllSoundSockets-map g (s ∷ ss) k h = ((k s).1 h.0, AllSoundSockets-map g ss k h.1)

  pub IsSound-map :
      (g : CpuSocket fl → CpuSocket fl) (ss : List (CpuSocket fl))
      → Keeps g
      → IsSound ss
      → IsSound (map g ss)
  IsSound-map g ss k h = record {
    sourced = AllSoundSockets-map g ss k h.sourced;
    distinct = subst IsDistinct (sym (ids_of-map g ss k)) h.distinct;
  }

  safe_add_domain-sourced :
      (d : Domain fl) (s : CpuSocket fl)
      → lookup "source_file" d.sensor_data ≡ some (domain_source base_path s.id d.id)
      → ((safe_add_domain fl d s).id ≡ s.id)
        × (IsSoundSocket s → IsSoundSocket (safe_add_domain fl d s))
  unfolding safe_add_domain
  safe_add_domain-sourced d s k =
      elim (Bool-cases (any (λ (x : Domain fl). x.id == d.id) s.domains)) [
        | inl there ↦ rw there (refl, λ h. h)
        | inr new ↦ rw new (refl, λ h. (h.0, AllSourcedDomains-append s.id s.domains d h.1 k, h.2))
      ]

  -- The domain is added to the socket of its number only.
  pub Keeps-domain :
      (d : Domain fl) (socket_id : ℕ)
      → lookup "source_file" d.sensor_data ≡ some (domain_source base_path socket_id d.id)
      → Keeps (λ (s : CpuSocket fl). if s.id == socket_id then safe_add_domain fl d s else s)
  Keeps-domain d socket_id k s = elim (Bool-cases (s.id == socket_id)) [
    | inl same ↦ rw same (
        safe_add_domain-sourced d s (
          subst (λ i. lookup "source_file" d.sensor_data ≡ some (domain_source base_path i d.id))
            (sym (eqb→eq s.id socket_id same)) k))
    | inr other ↦ rw other (refl, λ h. h)
  ]

  -- An entry for mmio is no source file.
  pub Keeps-mmio :
      (socket_id : ℕ) (mmio : Text)
      → Keeps (λ (s : CpuSocket fl).
        if s.id == socket_id
        then record s { sensor_data = insert "mmio" mmio s.sensor_data }
        else s)
  Keeps-mmio socket_id mmio s = elim (Bool-cases (s.id == socket_id)) [
    | inl same ↦ rw same (
      refl,
      λ h. (lookup-insert_other "source_file" "mmio" mmio s.sensor_data refl ∙ h.0, h.1, h.2),
    )
    | inr other ↦ rw other (refl, λ h. h)
  ]

  pub IsSound-unless_there :
      (s : CpuSocket fl) (ss : List (CpuSocket fl))
      → IsSoundSocket s
      → IsSound ss
      → IsSound (if not (any (λ (x : CpuSocket fl). x.id == s.id) ss) then ss ++ s ∷ [] else ss)
  IsSound-unless_there s ss k h = record {
    sourced = elim (Bool-cases (any (λ (x : CpuSocket fl). x.id == s.id) ss)) [
      | inl there ↦ rw there h.sourced
      | inr new ↦ rw new (AllSoundSockets-append ss s h.sourced k)
    ];
    distinct = IsDistinct-unless_there s ss h.distinct;
  }

  AllSourcedDomains-AllSourced :
      (socket_id : ℕ) (ds : List (Domain fl)) → AllSourcedDomains socket_id ds → AllSourced ds
  AllSourcedDomains-AllSourced socket_id [] h = tt
  AllSourcedDomains-AllSourced socket_id (d ∷ ds) h =
      ((domain_source base_path socket_id d.id, h.0), AllSourcedDomains-AllSourced socket_id ds h.1)

  -- Where all sockets are sourced, all can be measured.
  pub AllSoundSockets-AllMeasurable :
      (ss : List (CpuSocket fl)) → AllSoundSockets ss → AllMeasurable kernel_stats ss
  AllSoundSockets-AllMeasurable [] h = tt
  AllSoundSockets-AllMeasurable (s ∷ ss) h = (
    (
      (socket_source base_path s.id, h.0.0),
      AllSourcedDomains-AllSourced s.id s.domains h.0.1,
      h.0.2,
    ),
    AllSoundSockets-AllMeasurable ss h.1,
  )
