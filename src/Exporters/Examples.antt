-- ===== src/Exporters/Examples.antt =====
-- Tests of the exporters, the ones of the repository among them, and the theorems at concrete inputs.
use mathlib.Core.Option.{some-injective}
use scaphandre.Base.{
  ◌≡◌, refl, sym, ap, true, false, Option, none, some, [], ◌∷◌, ◌++◌, arith, if◌then◌else◌,
  eqb_refl,
}
use scaphandre.Exporters.{
  quote, line_feed, replace_char, filter_cmdline, format_labels, format_prometheus_metric,
  name_of_pieces, filter_qemu_cmdline,
}
use scaphandre.Exporters.Escaped.{unescape, QuotesEscaped, unescape-filter_cmdline}
use scaphandre.Exporters.Guest.{IsGuestName, filter_qemu_cmdline-IsGuestName}
use scaphandre.Exporters.Qemu.Added.{add_all, add_all-sum}
use scaphandre.Exporters.Qemu.Files.{FileSystem, FileLaws}
use scaphandre.Sensor.Measure.{same_text}
use scaphandre.Text.{Text, codes, show}
use scaphandre.Text.Split.{cons_first, split, starts_with, contains, split_from, split_by}

abbrev fedora : Text
fedora = codes "-Sguest=fedora33,debug-threads=on-name/usr/bin/qemu-system-x86_64"

abbrev no_comma : Text
no_comma = codes "-Sguest=fedora33#debug-threads=on-name/usr/bin/qemu-system-x86_64"

abbrev no_name : Text
no_name = codes "-Sguest=,,debug-threads=on-name/usr/bin/qemu-system-x86_64"

fedora_found : filter_qemu_cmdline fedora ≡ some (some (codes "fedora33"))
unfolding filter_qemu_cmdline contains starts_with split_by split_from cons_first split
    name_of_pieces
fedora_found = refl

no_comma_found : filter_qemu_cmdline no_comma ≡ some none
unfolding filter_qemu_cmdline contains starts_with split_by split_from cons_first split
    name_of_pieces
no_comma_found = refl

no_name_found : filter_qemu_cmdline no_name ≡ some none
unfolding filter_qemu_cmdline contains starts_with split_by split_from cons_first split
    name_of_pieces
no_name_found = refl

filter_qemu_cmdline-IsGuestName_example :
    (r : Option Text) × (filter_qemu_cmdline fedora ≡ some r) × IsGuestName fedora r
filter_qemu_cmdline-IsGuestName_example = filter_qemu_cmdline-IsGuestName fedora

-- An opening quote, and a second line
abbrev command : Text
command = codes "sh -c " ++ quote ∷ codes "a\nb"

unescape-filter_cmdline_example :
    QuotesEscaped false (filter_cmdline command)
    × (unescape (filter_cmdline command) ≡ replace_char line_feed [] command)
unescape-filter_cmdline_example = unescape-filter_cmdline command

-- Labels that are there but empty lose the brace.
empty_labels : format_prometheus_metric (codes "m") (codes "1") (some []) ≡ codes "m} 1\n"
unfolding format_prometheus_metric format_labels
empty_labels = refl

-- A file system in which every call succeeds
same_text_refl : (t : Text) → same_text t t ≡ true
unfolding same_text
same_text_refl [] = refl
same_text_refl (c ∷ t) = rw (eqb_refl c) (same_text_refl t)

abbrev memory_files : FileSystem
memory_files = record {
  State = Text → Option Text;
  is_dir = λ path s. false;
  create_dir_all = λ path s. some s;
  read_to_string = λ file s. s file;
  write = λ file content s. (λ other. if same_text file other then some content else s other, true);
}

memory_laws : FileLaws memory_files
memory_laws = record {
  created = λ path s. (s, refl);
  read-created =
      λ path file s s' e. ap (λ (x : Text → Option Text). x file) (sym (some-injective _ _ e));
  read-written = λ file content s. rw (same_text_refl file) refl;
}

add_all-sum_example :
    (s' : Text → Option Text) × (add_all memory_files
        (codes "/vm/intel-rapl:0")
        (7 ∷ 5 ∷ 6 ∷ [])
        (λ file. none)
      ≡ some s')
    × (s' (codes "/vm/intel-rapl:0/energy_uj") ≡ some (show 11))
add_all-sum_example =
    add_all-sum memory_files memory_laws (codes "/vm/intel-rapl:0") 7 (5 ∷ 6 ∷ []) (λ file. none)
      refl (omega arith)
