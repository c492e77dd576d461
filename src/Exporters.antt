-- ===== src/Exporters.antt =====
-- The text functions that the exporters share, of scaphandre/src/exporters/utils.rs.
pub mod Escaped
pub mod Guest
pub mod Qemu
pub mod Metrics
pub mod Json
mod Examples
mod MetricsExamples
use scaphandre.Base.{
  ℕ, ◌&&◌, Option, none, some, List, [], ◌∷◌, ◌++◌, ◌==◌, if◌then◌else◌, map_option, get_elem?, pop,
}
use scaphandre.Text.{Text, codes}
use scaphandre.Text.Split.{split, contains, split_by}

abbrev pub quote : ℕ
quote = 34

abbrev pub backslash : ℕ
backslash = 92

abbrev pub line_feed : ℕ
line_feed = 10

-- `str::replace` of one character by a text
unfoldable pub replace_char : ℕ → Text → Text → Text
replace_char c by [] = []
replace_char c by (d ∷ t) =
    let rest = replace_char c by t in if d == c then by ++ rest else d ∷ rest

-- `filter_cmdline`: a backslash in front of each quote, and no line feed
unfoldable pub filter_cmdline : Text → Text
filter_cmdline cmdline =
    replace_char line_feed [] (replace_char quote (backslash ∷ quote ∷ []) cmdline)

-- The labels in the order in which the map is walked, each as `key="value",`
unfoldable pub format_labels : List (Text × Text) → Text
format_labels [] = []
format_labels ((k, v) ∷ labels) =
    k
    ++ (b'=' ∷ quote ∷ [])
    ++ replace_char backslash [] (replace_char quote (codes "_") v)
    ++ (quote ∷ b',' ∷ [])
    ++ format_labels labels

-- `format_prometheus_metric`, with the labels where there are any
unfoldable pub format_prometheus_metric : Text → Text → Option (List (Text × Text)) → Text
format_prometheus_metric key value none = key ++ codes " " ++ value ++ codes "\n"
format_prometheus_metric key value (some labels) =
    pop (key ++ codes "{" ++ format_labels labels) ++ codes "} " ++ value ++ codes "\n"

-- The name in front of the first comma of a piece: none where there is no comma, or nothing before it
unfoldable pub name_of_pieces : List Text → Option Text
name_of_pieces [] = none
name_of_pieces (name ∷ []) = none
name_of_pieces ([] ∷ piece ∷ pieces) = none
name_of_pieces ((c ∷ name) ∷ piece ∷ pieces) = some (c ∷ name)

-- `filter_qemu_cmdline`; the outer `none` is the panic of the index
unfoldable pub filter_qemu_cmdline : Text → Option (Option Text)
filter_qemu_cmdline cmdline =
    if contains (codes "qemu-system") cmdline && contains (codes "guest=") cmdline
    then map_option (λ piece. name_of_pieces (split b',' piece))
        (get_elem? (split_by (codes "guest=") cmdline) 1)
    else some none
