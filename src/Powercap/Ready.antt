-- ===== src/Powercap/Ready.antt =====
-- A domain folder of the powercap tree gives a sound socket and a sound domain.
use mathlib.Core.Path.{subst}
use mathlib.Core.Bool.{true≢false}
use scaphandre.Base.{
  ℕ, ◌≡◌, refl, sym, ap, ◌∙◌, inl, inr, Bool, true, not, Option, some, List, [], ◌∷◌, ◌++◌, map,
  ◌==◌, if◌then◌else◌, Bool-cases, Option-cases, any,
}
use scaphandre.Float.{Float}
use scaphandre.Powercap.{
  DomainResource, display_resource, parse_resource, PowercapSensor, PowercapHost, re_socket,
  re_domain, re_socket_mmio, re_domain_mmio, second_number, third_number, socket_folder,
  socket_source, domain_source, source_data,
}
use scaphandre.Powercap.Placed.{nonempty}
use scaphandre.Powercap.Scan.{add_package, add_domain_folder}
use scaphandre.Powercap.Sourced.{
  source_data-source, IsSoundSocket, IsSound, IsSound-map, Keeps-domain, IsSound-unless_there,
}
use scaphandre.Sensor.Domain.{new_domain}
use scaphandre.Sensor.Measure.{SensorData, lookup, insert}
use scaphandre.Sensor.Measure.Keys.{lookup-insert_other}
use scaphandre.Sensor.Socket.{CpuSocket, new_socket}
use scaphandre.Sensor.Stat.{KernelStats}
use scaphandre.Text.{Text, codes, trim}
use scaphandre.Topology.{Topology, build_domains_names, safe_add_domain_to_socket}
use scaphandre.Topology.Sockets.{
  safe_insert_socket-sockets, safe_add_socket-insert, safe_add_socket-tracker,
}
use scaphandre.Tracker.{new_tracker}

nonempty-append {ℓ} : {A : Type ℓ} (xs : List A) (x : A) → nonempty (xs ++ x ∷ []) ≡ true
nonempty-append [] x = refl
nonempty-append (y ∷ ys) x = refl

nonempty-any {ℓ} : {A : Type ℓ} (p : A → Bool) (xs : List A) → any p xs ≡ true → nonempty xs ≡ true
nonempty-any p [] h = absurd (true≢false (sym h))
nonempty-any p (x ∷ xs) h = refl

pub nonempty-map {ℓ} :
    {A : Type ℓ} (f : A → A) (xs : List A) → nonempty xs ≡ true → nonempty (map f xs) ≡ true
nonempty-map f [] h = h
nonempty-map f (x ∷ xs) h = refl

nonempty-unless_there :
    {fl : Float} (s : CpuSocket fl) (ss : List (CpuSocket fl))
    → nonempty (if not (any (λ (x : CpuSocket fl). x.id == s.id) ss) then ss ++ s ∷ [] else ss)
      ≡ true
nonempty-unless_there {fl = fl} s ss =
    elim (Bool-cases (any (λ (x : CpuSocket fl). x.id == s.id) ss)) [
      | inl there ↦ rw there (nonempty-any _ ss there)
      | inr new ↦ rw new (nonempty-append ss s)
    ]

module _ (host : PowercapHost) where
  -- What the code expects of a folder that a pattern matches: numbers that fit in 16 bits, a resource
  -- that is known, and in the mmio tree a name.
  pub record IsReadable (folder : Text) : Type 0 where
    pub numbers :
        host.is_match re_domain folder ≡ true
        → ((i : ℕ) × (second_number folder ≡ some i)) × ((j : ℕ) × (third_number folder ≡ some j))
    pub resource :
        host.is_match re_domain folder ≡ true
        → (name : Text) → host.files (folder ++ codes "/name") ≡ some name
        → (r : DomainResource) × (parse_resource (trim name) ≡ some r)
    pub socket_number :
        host.is_match re_socket folder ≡ true → (i : ℕ) × (second_number folder ≡ some i)
    pub mmio_number :
        host.is_match re_socket_mmio folder ≡ true → (i : ℕ) × (second_number folder ≡ some i)
    pub mmio_name :
        host.is_match re_domain_mmio folder ≡ true
        → ((i : ℕ) × (second_number folder ≡ some i))
          × ((name : Text) × (host.files (folder ++ codes "/name") ≡ some name))

  abbrev pub AllReadable : List Text → Type 0
  AllReadable [] = Unit
  AllReadable (folder ∷ folders) = IsReadable folder × AllReadable folders

module _ {fs fl : Float} (sensor : PowercapSensor) (host : PowercapHost)
    (kernel_stats : Option KernelStats) where
  abbrev pub Sound : Topology fs fl → Type 0
  Sound t =
      IsSound sensor.base_path kernel_stats t.sockets
      × (t.proc_tracker ≡ new_tracker fs 5 host.nb_cores)

  -- A step ends well: with sound sockets, the tracker as it was made, and with some where there were some.
  abbrev pub Steps : Option (Topology fs fl) → Bool → Type 0
  Steps result some_before =
      (t : Topology fs fl) × (result ≡ some t)
      × Sound t
      × (some_before ≡ true → nonempty t.sockets ≡ true)

  add_package-sockets :
      (socket_id : ℕ) (t : Topology fs fl)
      → (s : CpuSocket fl) × IsSoundSocket sensor.base_path kernel_stats s
        × ((add_package fs fl sensor host socket_id t).sockets ≡ (
            if not (any (λ (x : CpuSocket fl). x.id == s.id) t.sockets)
            then t.sockets ++ s ∷ []
            else t.sockets))
  unfolding add_package new_socket
  add_package-sockets socket_id t =
      let found =
        source_data host.files (socket_source sensor.base_path socket_id)
          (socket_folder sensor.base_path socket_id ++ codes "/max_energy_range_uj") in
      let s =
        new_socket fl socket_id [] [] (socket_source sensor.base_path socket_id)
          sensor.buffer_per_socket_max_kbytes found in
      (
        s,
        (source_data-source host.files (socket_source sensor.base_path socket_id) _, tt, tt),
        ap Topology.sockets (safe_add_socket-insert socket_id [] [] _ _ found t)
            ∙ safe_insert_socket-sockets s t,
      )

  add_package-tracker :
      (socket_id : ℕ) (t : Topology fs fl)
      → (add_package fs fl sensor host socket_id t).proc_tracker ≡ t.proc_tracker
  unfolding add_package
  add_package-tracker socket_id t = safe_add_socket-tracker socket_id [] [] _ _ _ t

  pub add_package-Sound :
      (socket_id : ℕ) (t : Topology fs fl)
      → Sound t
      → Sound (add_package fs fl sensor host socket_id t)
        × (nonempty (add_package fs fl sensor host socket_id t).sockets ≡ true)
  add_package-Sound socket_id t h =
      let r = add_package-sockets socket_id t in
      (
        (
          subst (λ ss. IsSound sensor.base_path kernel_stats ss) (sym r.2)
              (IsSound-unless_there sensor.base_path kernel_stats r.0 t.sockets r.1 h.0),
          add_package-tracker socket_id t ∙ h.1,
        ),
        ap nonempty r.2 ∙ nonempty-unless_there r.0 t.sockets,
      )

  add_domain-Sound :
      (i j : ℕ) (name source : Text) (kbytes : ℕ) (found : SensorData) (t : Topology fs fl)
      → lookup "source_file" found ≡ some (domain_source sensor.base_path i j)
      → Sound t
      → Sound (safe_add_domain_to_socket fs fl i j name source kbytes found t)
  unfolding safe_add_domain_to_socket build_domains_names new_domain
  add_domain-Sound i j name source kbytes found t e h = (
    IsSound-map sensor.base_path kernel_stats _ t.sockets
        (Keeps-domain sensor.base_path kernel_stats (new_domain fl j name source kbytes found) i e)
        h.0,
    h.1,
  )

  add_domain-nonempty :
      (i j : ℕ) (name source : Text) (kbytes : ℕ) (found : SensorData) (t : Topology fs fl)
      → nonempty t.sockets ≡ true
      → nonempty (safe_add_domain_to_socket fs fl i j name source kbytes found t).sockets ≡ true
  unfolding safe_add_domain_to_socket build_domains_names
  add_domain-nonempty i j name source kbytes found t n = nonempty-map _ t.sockets n

  pub add_domain_folder-Sound :
      (folder : Text) (t : Topology fs fl)
      → IsReadable host folder
      → host.is_match re_domain folder ≡ true
      → Sound t
      → Steps (add_domain_folder fs fl sensor host folder t) true
  unfolding add_domain_folder
  add_domain_folder-Sound folder t r m h =
      let i = (r.numbers m).0 in
      let j = (r.numbers m).1 in
      let with_socket = add_package fs fl sensor host i.0 t in
      let added = add_package-Sound i.0 t h in
      elim (Option-cases (host.files (folder ++ codes "/name"))) [
        | inl unnamed ↦ (with_socket, rw (i.1, j.1, unnamed) refl, added.0, λ e. added.1)
        | inr (name, named) ↦
            let known = r.resource m name named in
            let source = domain_source sensor.base_path i.0 j.0 in
            let range_file = folder ++ codes "/max_energy_range_uj" in
            let found =
              insert "related_resource" (display_resource known.0)
                (source_data host.files source range_file) in
            (
              safe_add_domain_to_socket fs fl i.0 j.0 (trim name) source
                  sensor.buffer_per_domain_max_kbytes found with_socket,
              rw (i.1, j.1, named, known.1) refl,
              add_domain-Sound i.0 j.0 (trim name) source _ found with_socket
                  (lookup-insert_other "source_file" "related_resource" _ _ refl
                    ∙ source_data-source host.files source range_file)
                  added.0,
              λ e. add_domain-nonempty i.0 j.0 (trim name) source _ found with_socket added.1,
            )
      ]
