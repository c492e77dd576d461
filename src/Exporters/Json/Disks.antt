-- ===== src/Exporters/Json/Disks.antt =====
-- The report has each disk once.
use mathlib.Core.Path.{subst}
use mathlib.Core.Bool.{true≢false}
use scaphandre.Base.{
  ◌≡◌, refl, sym, ap, ◌∙◌, inl, inr, Bool, true, false, none, some, List, [], ◌∷◌, ◌++◌, arith,
  Bool-cases, bind-some, map_option,
}
use scaphandre.Exporters.Json.{
  DiskReport, is_removable_of, new_disk, edit_disk, edit_first, edited_or_pushed, add_disk_metric,
  add_disk_metrics, gen_disks_report,
}
use scaphandre.Exporters.Metrics.{Metric}
use scaphandre.Exporters.Metrics.Popped.{append_assoc, append_nil}
use scaphandre.Sensor.Measure.{same_text, lookup}
use scaphandre.Text.{Text}
use scaphandre.Topology.Sorted.{has_name}

abbrev pub names_of_disks : List DiskReport → List Text
names_of_disks [] = []
names_of_disks (d ∷ ds) = d.disk_name ∷ names_of_disks ds

-- The metrics have these names of disks, and say whether the disk is removable in a way that is read.
pub data DiskNames : List Metric → List Text → Type 0 where
  no_disk_metrics : DiskNames [] []
  disk_metric :
      (m : Metric) (ms : List Metric) (name : Text) (names : List Text) (removable : Bool)
      → lookup "disk_name" m.attributes ≡ some name
      → is_removable_of m ≡ some removable
      → DiskNames ms names
      → DiskNames (m ∷ ms) (name ∷ names)

-- The second list has the names of the first one, each once, in the order in which they come first.
pub data EachOnce : List Text → List Text → Type 0 where
  no_names : EachOnce [] []
  known_name :
      (names once : List Text) (x : Text)
      → EachOnce names once
      → has_name x once ≡ true
      → EachOnce (names ++ x ∷ []) once
  new_name :
      (names once : List Text) (x : Text)
      → EachOnce names once
      → has_name x once ≡ false
      → EachOnce (names ++ x ∷ []) (once ++ x ∷ [])

same_text→eq : (t u : Text) → same_text t u ≡ true → t ≡ u
unfolding same_text
same_text→eq [] [] h = refl
same_text→eq [] (d ∷ u) h = ground arith
same_text→eq (c ∷ t) [] h = ground arith
same_text→eq (c ∷ t) (d ∷ u) h = ground (arith, same_text→eq t u)

name-edit_disk : (m : Metric) (name : Text) (d : DiskReport) → (edit_disk m name d).disk_name ≡ name
unfolding edit_disk
name-edit_disk m name d = ground arith

names-append :
    (ds : List DiskReport) (d : DiskReport)
    → names_of_disks (ds ++ d ∷ []) ≡ names_of_disks ds ++ d.disk_name ∷ []
names-append [] d = refl
names-append (e ∷ ds) d = ap (λ l. e.disk_name ∷ l) (names-append ds d)

edit_first-known :
    (m : Metric) (name : Text) (ds : List DiskReport)
    → has_name name (names_of_disks ds) ≡ true
    → (edited : List DiskReport) × (edit_first m name ds ≡ some edited)
      × (names_of_disks edited ≡ names_of_disks ds)
unfolding edit_first
edit_first-known m name [] h = ground arith
edit_first-known m name (d ∷ ds) h = elim (Bool-cases (same_text name d.disk_name)) [
  | inl same ↦ (
    edit_disk m name d ∷ ds,
    rw (edit_first, same) refl,
    ap (λ n. n ∷ names_of_disks ds) (name-edit_disk m name d ∙ same_text→eq name d.disk_name same),
  )
  | inr other ↦
      let rest = edit_first-known m name ds (rw other at h) in
      (d ∷ rest.0, rw (edit_first, other, rest.1) refl, ap (λ l. d.disk_name ∷ l) rest.2)
]

edit_first-new :
    (m : Metric) (name : Text) (ds : List DiskReport)
    → has_name name (names_of_disks ds) ≡ false
    → edit_first m name ds ≡ none
unfolding edit_first
edit_first-new m name [] h = refl
edit_first-new m name (d ∷ ds) h = elim (Bool-cases (same_text name d.disk_name)) [
  | inl same ↦ absurd (true≢false (rw same at h))
  | inr other ↦ rw (edit_first, other, edit_first-new m name ds (rw other at h)) refl
]

add_disk_metric-EachOnce :
    (m : Metric) (name : Text) (removable : Bool) (done : List Text) (res : List DiskReport)
    → lookup "disk_name" m.attributes ≡ some name
    → is_removable_of m ≡ some removable
    → EachOnce done (names_of_disks res)
    → (report : List DiskReport) × (add_disk_metric m res ≡ some report)
      × EachOnce (done ++ name ∷ []) (names_of_disks report)
unfolding add_disk_metric edited_or_pushed new_disk
add_disk_metric-EachOnce m name removable done res named readable h =
    elim (Bool-cases (has_name name (names_of_disks res))) [
      | inl known ↦
          let e = edit_first-known m name res known in
          (
            e.0,
            bind-some _ named (ap (edited_or_pushed m name res) e.1),
            subst (EachOnce (done ++ name ∷ [])) (sym e.2)
                (known_name done (names_of_disks res) name h known),
          )
      | inr fresh ↦ (
        _,
        bind-some _ named (
            ap (edited_or_pushed m name res) (edit_first-new m name res fresh)
            ∙ ap (map_option _) (ap (map_option _) readable)),
        rw (names-append res) (new_name done (names_of_disks res) name h fresh),
      )
    ]

add_disk_metrics-EachOnce :
    (ms : List Metric) (names done : List Text) (res : List DiskReport)
    → DiskNames ms names
    → EachOnce done (names_of_disks res)
    → (report : List DiskReport) × (add_disk_metrics ms res ≡ some report)
      × EachOnce (done ++ names) (names_of_disks report)
unfolding add_disk_metrics
add_disk_metrics-EachOnce _ _ done res no_disk_metrics h = (res, refl, rw (append_nil done) h)
add_disk_metrics-EachOnce _ _ done res (disk_metric m ms name names removable named readable k) h =
    let first = add_disk_metric-EachOnce m name removable done res named readable h in
    let rest = add_disk_metrics-EachOnce ms names (done ++ name ∷ []) first.0 k first.2 in
    (rest.0, bind-some _ first.1 rest.1, (rw (append_assoc done (name ∷ []) names) at rest.2))

-- Where each metric names its disk, and says in a way that is read whether the disk is removable, the
-- report of the disks is made without a panic, and it has each of the disks that are named once, in the
-- order in which they come first.
pub gen_disks_report-EachOnce :
    (metrics : List Metric) (names : List Text)
    → DiskNames metrics names
    → (report : List DiskReport) × (gen_disks_report metrics ≡ some report)
      × EachOnce names (names_of_disks report)
unfolding gen_disks_report
gen_disks_report-EachOnce metrics names h = add_disk_metrics-EachOnce metrics names [] [] h no_names
