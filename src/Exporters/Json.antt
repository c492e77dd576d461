-- ===== src/Exporters/Json.antt =====
-- `gen_disks_report` of scaphandre/src/exporters/json.rs: the disks of the report, made out of the
-- metrics of the disks.
pub mod Disks
pub mod Sockets
pub mod OneSocket
use scaphandre.Base.{
  String, Bool, true, false, str_eq, Option, none, some, List, [], ◌∷◌, ◌++◌, if◌then◌else◌, ◌>>=◌,
  unwrap_or, map_option,
}
use scaphandre.Exporters.Metrics.{display_value, Metric}
use scaphandre.Sensor.Measure.{same_text, lookup}
use scaphandre.Text.{Text, codes}

-- `Disk` of the report
pub record DiskReport : Type 0 where
  pub disk_type : Text
  pub disk_mount_point : Text
  pub disk_is_removable : Bool
  pub disk_file_system : Text
  pub disk_total_bytes : Text
  pub disk_available_bytes : Text
  pub disk_name : Text

-- `parse::<bool>()`
unfoldable pub parse_bool : Text → Option Bool
parse_bool t =
    if same_text t (codes "true")
    then some true
    else (if same_text t (codes "false") then some false else none)

-- Whether the disk is removable; `none` is the panic of `unwrap`
unfoldable pub is_removable_of : Metric → Option Bool
is_removable_of m = elim (lookup "disk_is_removable" m.attributes) [
  | none ↦ some false
  | some t ↦ parse_bool t
]

unfoldable pub value_if : String → Metric → Text
value_if name m = if str_eq m.name name then display_value m.metric_value else []

-- The disk of a metric whose disk has no entry yet
unfoldable pub new_disk : Metric → Text → Option DiskReport
new_disk m name =
    map_option
      (λ (removable : Bool). record {
        disk_type = unwrap_or [] (lookup "disk_type" m.attributes);
        disk_mount_point = unwrap_or [] (lookup "disk_mount_point" m.attributes);
        disk_is_removable = removable;
        disk_file_system = unwrap_or [] (lookup "disk_file_system" m.attributes);
        disk_total_bytes = value_if "scaph_host_disk_total_bytes" m;
        disk_available_bytes = value_if "scaph_host_disk_available_bytes" m;
        disk_name = name;
      })
      (is_removable_of m)

unfoldable pub edit_disk : Metric → Text → DiskReport → DiskReport
edit_disk m name d =
    let named = record d { disk_name = name } in
    if str_eq m.name "scaph_host_disk_available_bytes"
    then record named { disk_available_bytes = display_value m.metric_value }
    else (if str_eq m.name "scaph_host_disk_total_bytes"
        then record named { disk_total_bytes = display_value m.metric_value }
        else named)

-- The first entry of the name is changed in place, where there is one.
unfoldable pub edit_first : Metric → Text → List DiskReport → Option (List DiskReport)
edit_first m name [] = none
edit_first m name (d ∷ ds) =
    let rest = edit_first m name ds in
    if same_text name d.disk_name
    then some (edit_disk m name d ∷ ds)
    else map_option (λ (l : List DiskReport). d ∷ l) rest

-- What the entries are after the search: a new one is pushed where none was found.
unfoldable pub edited_or_pushed :
    Metric → Text → List DiskReport → Option (List DiskReport) → Option (List DiskReport)
edited_or_pushed m name res (some edited) = some edited
edited_or_pushed m name res none = map_option (λ (d : DiskReport). res ++ d ∷ []) (new_disk m name)

-- One round of the loop; `none` is a panic
unfoldable pub add_disk_metric : Metric → List DiskReport → Option (List DiskReport)
add_disk_metric m res = lookup "disk_name" m.attributes >>= λ (name : Text).
    edited_or_pushed m name res (edit_first m name res)

unfoldable pub add_disk_metrics : List Metric → List DiskReport → Option (List DiskReport)
add_disk_metrics [] res = some res
add_disk_metrics (m ∷ ms) res = add_disk_metric m res >>= add_disk_metrics ms

-- `gen_disks_report`; `none` is a panic
unfoldable pub gen_disks_report : List Metric → Option (List DiskReport)
gen_disks_report metrics = add_disk_metrics metrics []
