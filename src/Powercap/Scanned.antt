-- ===== src/Powercap/Scanned.antt =====
-- The loops over the powercap folders end with sound sockets.
use mathlib.Core.Path.{subst}
use mathlib.Core.Bool.{true≢false}
use scaphandre.Base.{
  ◌≡◌, refl, sym, ap, ◌∙◌, inl, inr, Bool, true, false, not, ◌&&◌, ◌||◌, Option, some, List, [],
  ◌∷◌, ◌++◌, Bool-cases, Option-cases, any,
}
use scaphandre.Float.{Float}
use scaphandre.Powercap.{
  PowercapSensor, PowercapHost, re_socket, re_domain, re_socket_mmio, re_domain_mmio,
}
use scaphandre.Powercap.Mmio.{mark_socket-Sound, mark_domain_folder-Sound}
use scaphandre.Powercap.Placed.{nonempty}
use scaphandre.Powercap.Ready.{
  IsReadable, AllReadable, Sound, Steps, add_package-Sound, add_domain_folder-Sound,
}
use scaphandre.Powercap.Scan.{
  add_package, scan_folder, scan_folders, is_package, scan_package, scan_packages, mark_psys,
  scan_psys, scan_all,
}
use scaphandre.Powercap.Sourced.{IsSound}
use scaphandre.Sensor.Measure.{same_text}
use scaphandre.Sensor.Stat.{KernelStats}
use scaphandre.Text.{Text, codes, trim}
use scaphandre.Topology.{Topology, new_topology}

or-later :
    (p q m n : Bool) → ((p || m) ≡ true → n ≡ true) → ((p || q) || m) ≡ true → (q || n) ≡ true
or-later p true m n f e = refl
or-later true false m n f e = f refl
or-later false false m n f e = f e

or-left : (p q : Bool) → p ≡ true → (p || q) ≡ true
or-left p q e = rw e refl

and-right : (p q : Bool) → (p && q) ≡ true → q ≡ true
and-right true q e = e
and-right false q e = absurd (true≢false (sym e))

module _ (fs fl : Float) (sensor : PowercapSensor) (host : PowercapHost)
    (kernel_stats : Option KernelStats) where
  scan_folder-Sound :
      (folder : Text) (t : Topology fs fl)
      → IsReadable host folder
      → Sound sensor host kernel_stats t
      → Steps sensor host kernel_stats
          (scan_folder fs fl sensor host folder t)
          (host.is_match re_domain folder || nonempty t.sockets)
  unfolding scan_folder
  scan_folder-Sound folder t r h = elim (Bool-cases (host.is_match re_domain folder)) [
    | inl domain ↦ rw domain (add_domain_folder-Sound sensor host kernel_stats folder t r domain h)
    | inr no_domain ↦ elim (Bool-cases (host.is_match re_socket_mmio folder)) [
      | inl marks ↦
          rw (no_domain, marks)
            (mark_socket-Sound fs fl sensor host kernel_stats folder t r marks h)
      | inr no_mark ↦ elim (Bool-cases (host.is_match re_domain_mmio folder)) [
        | inl marks ↦
            rw (no_domain, no_mark, marks)
              (mark_domain_folder-Sound fs fl sensor host kernel_stats folder t r marks h)
        | inr no_match ↦ rw (no_domain, no_mark, no_match) (t, refl, h, λ e. e)
      ]
    ]
  ]

  scan_folders-Sound :
      (folders : List Text) (t : Topology fs fl)
      → AllReadable host folders
      → Sound sensor host kernel_stats t
      → Steps sensor host kernel_stats
          (scan_folders fs fl sensor host folders t)
          (any (host.is_match re_domain) folders || nonempty t.sockets)
  unfolding scan_folders
  scan_folders-Sound [] t r h = (t, refl, h, λ e. e)
  scan_folders-Sound (folder ∷ folders) t r h =
      let first = scan_folder-Sound folder t r.0 h in
      let rest = scan_folders-Sound folders first.0 r.1 first.2 in
      (
        rest.0,
        rw first.1 rest.1,
        rest.2,
        λ e. rest.3 (
            or-later (host.is_match re_domain folder) (any (host.is_match re_domain) folders)
              (nonempty t.sockets) (nonempty first.0.sockets) first.3 e),
      )

  is_package-match :
      (folder : Text)
      → is_package fs fl sensor host folder ≡ true
      → host.is_match re_socket folder ≡ true
  unfolding is_package
  is_package-match folder e = elim (Option-cases (host.files (folder ++ codes "/name"))) [
    | inl unnamed ↦ absurd (true≢false (sym (rw (is_package, unnamed) at e)))
    | inr (name, named) ↦
        and-right (not (same_text name (codes "psys"))) (host.is_match re_socket folder)
          (rw (is_package, named) at e)
  ]

  scan_package-Sound :
      (folder : Text) (t : Topology fs fl)
      → IsReadable host folder
      → Sound sensor host kernel_stats t
      → Steps sensor host kernel_stats
          (scan_package fs fl sensor host folder t)
          (is_package fs fl sensor host folder || nonempty t.sockets)
  unfolding scan_package
  scan_package-Sound folder t r h = elim (Bool-cases (is_package fs fl sensor host folder)) [
    | inl taken ↦
        let i = r.socket_number (is_package-match folder taken) in
        let added = add_package-Sound sensor host kernel_stats i.0 t h in
        (add_package fs fl sensor host i.0 t, rw (taken, i.1) refl, added.0, λ e. added.1)
    | inr other ↦ rw other (t, refl, h, λ e. e)
  ]

  scan_packages-Sound :
      (folders : List Text) (t : Topology fs fl)
      → AllReadable host folders
      → Sound sensor host kernel_stats t
      → Steps sensor host kernel_stats
          (scan_packages fs fl sensor host folders t)
          (any (is_package fs fl sensor host) folders || nonempty t.sockets)
  unfolding scan_packages
  scan_packages-Sound [] t r h = (t, refl, h, λ e. e)
  scan_packages-Sound (folder ∷ folders) t r h =
      let first = scan_package-Sound folder t r.0 h in
      let rest = scan_packages-Sound folders first.0 r.1 first.2 in
      (
        rest.0,
        rw first.1 rest.1,
        rest.2,
        λ e. rest.3 (
            or-later (is_package fs fl sensor host folder)
              (any (is_package fs fl sensor host) folders) (nonempty t.sockets)
              (nonempty first.0.sockets) first.3 e),
      )

  mark_psys-keeps :
      (folder : Text) (t : Topology fs fl)
      → ((mark_psys fs fl sensor host folder t).sockets ≡ t.sockets)
        × ((mark_psys fs fl sensor host folder t).proc_tracker ≡ t.proc_tracker)
  unfolding mark_psys
  mark_psys-keeps folder t = elim (Option-cases (host.files (folder ++ codes "/name"))) [
    | inl unnamed ↦ rw (mark_psys, unnamed) (refl, refl)
    | inr (name, named) ↦ elim (Bool-cases (same_text (trim name) (codes "psys"))) [
      | inl psys ↦ rw (mark_psys, named, psys) (refl, refl)
      | inr other ↦ rw (mark_psys, named, other) (refl, refl)
    ]
  ]

  scan_psys-keeps :
      (folders : List Text) (t : Topology fs fl)
      → ((scan_psys fs fl sensor host folders t).sockets ≡ t.sockets)
        × ((scan_psys fs fl sensor host folders t).proc_tracker ≡ t.proc_tracker)
  unfolding scan_psys
  scan_psys-keeps [] t = (refl, refl)
  scan_psys-keeps (folder ∷ folders) t =
      let first = mark_psys-keeps folder t in
      let rest = scan_psys-keeps folders (mark_psys fs fl sensor host folder t) in
      (rest.0 ∙ first.0, rest.1 ∙ first.1)

  -- What is found is as sound after the last loop.
  ended :
      {result : Option (Topology fs fl)} {some_before : Bool} (folders : List Text)
      (t : Topology fs fl)
      → Sound sensor host kernel_stats t
      → (some_before ≡ true → nonempty t.sockets ≡ true)
      → result ≡ some (scan_psys fs fl sensor host folders t)
      → Steps sensor host kernel_stats result some_before
  ended folders t h n e =
      let same = scan_psys-keeps folders t in
      (
        scan_psys fs fl sensor host folders t,
        e,
        (subst (λ ss. IsSound sensor.base_path kernel_stats ss) (sym same.0) h.0, same.1 ∙ h.1),
        λ b. ap nonempty same.0 ∙ n b,
      )

  pub scan_all_sound :
      (folders : List Text)
      → AllReadable host folders
      → Steps sensor host kernel_stats
          (scan_all fs fl sensor host folders)
          (any (host.is_match re_domain) folders || any (is_package fs fl sensor host) folders)
  unfolding scan_all new_topology
  scan_all_sound folders r =
      let scanned =
        scan_folders-Sound folders (new_topology fs fl host.nb_cores []) r
          (record { sourced = tt; distinct = tt }, refl) in
      elim (Bool-cases (any (host.is_match re_domain) folders)) [
        | inl domains ↦
            ended folders scanned.0 scanned.2 (λ e. scanned.3 (rw domains refl))
              (rw (scanned.1, domains) refl)
        | inr no_domain ↦
            let found = scan_packages-Sound folders scanned.0 r scanned.2 in
            ended folders found.0 found.2 (λ e. found.3 (or-left _ _ (rw no_domain at e)))
              (rw (scanned.1, no_domain, found.1) refl)
      ]
