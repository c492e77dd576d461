-- ===== src/Tracker/Consumers.antt =====
-- `get_top_consumers` and `get_filtered_processes`: the processes by their usage of the CPU. The cast of an
-- `f32` and the total order of `OrderedFloat` are parameters.
use scaphandre.Base.SortBy.{sort_by}
use scaphandre.Base.{
  ℕ, suc, Bool, false, Option, none, some, List, [], ◌∷◌, ◌++◌, ltb, if◌then◌else◌, ◌>>=◌,
  unwrap_or, map_option, length, last, pop,
}
use scaphandre.Float.{Float}
use scaphandre.Text.{Text, codes}
use scaphandre.Tracker.{ProcessTracker, Records}
use scaphandre.Tracker.Alive.{concat, get_process_core_times}
use scaphandre.Tracker.Created.{SystemProcess, System, new_process}
use scaphandre.Tracker.Process.{IProcess, ProcessRecord}

module _ (fs fl : Float) (widen : fs.F → fl.F) (at_least : fl.F → fl.F → Bool)
    (sys : System fs) where
  abbrev pub Consumer : Type 0
  Consumer = IProcess fs × fl.F

  -- `sort_by(|x, y| y.1.cmp(&x.1))`: the greater one first
  abbrev pub above : Consumer → Consumer → Bool
  above x y = at_least x.1 y.1

  -- `get_cpu_usage_percentage`
  unfoldable pub get_cpu_usage_percentage : ℕ → ℕ → fs.F
  get_cpu_usage_percentage pid nb_cores = elim (sys.process pid) [
    | none ↦ fs.of_ℕ 0
    | some p ↦
        fs.div (fs.div (fs.mul sys.global_usage p.cpu_usage) (fs.of_ℕ 100)) (fs.of_ℕ nb_cores)
  ]

  -- Whether the usage of a consumer, as sysinfo has it, is above a value
  unfoldable pub uses_more : fs.F → Consumer → Bool
  uses_more diff x = elim (sys.process x.0.pid) [ none ↦ false | some p ↦ fs.lt diff p.cpu_usage ]

  unfoldable pub count_above : fs.F → List Consumer → ℕ
  count_above diff [] = 0
  count_above diff (x ∷ xs) =
      let rest = count_above diff xs in if uses_more diff x then suc rest else rest

  -- A new consumer is put in its place, and the last one goes where there are too many.
  unfoldable pub place : ℕ → Consumer → List Consumer → List Consumer
  place top c consumers =
      let sorted = sort_by above (consumers ++ c ∷ []) in
      if ltb top (length sorted) then pop sorted else sorted

  -- One round of the loop of `get_top_consumers`; `none` is a panic
  unfoldable pub consider :
      (ℕ → Option (List ℕ)) → ℕ → ℕ → Records fs → List Consumer → Option (List Consumer)
  consider core_times nb_cores top (r ∷ _ ∷ _) consumers =
      let diff = get_cpu_usage_percentage r.process.pid nb_cores in
      if ltb (count_above diff consumers) top
      then elim (sys.process r.process.pid) [
        | none ↦ some consumers
        | some p ↦
            map_option (λ (c : IProcess fs). place top (c, widen diff) consumers)
              (new_process sys p (core_times r.process.pid))
      ]
      else some consumers
  consider core_times nb_cores top _ consumers = some consumers

  unfoldable pub consider_all :
      (ℕ → Option (List ℕ)) → ℕ → ℕ → List (Records fs) → List Consumer → Option (List Consumer)
  consider_all core_times nb_cores top [] consumers = some consumers
  consider_all core_times nb_cores top (v ∷ vs) consumers =
      consider core_times nb_cores top v consumers >>= consider_all core_times nb_cores top vs

  -- `get_top_consumers`, given the times of the processes on the cores; `none` is a panic
  unfoldable pub get_top_consumers :
      Option (ℕ → Option (List ℕ)) → ℕ → ProcessTracker fs → Option (List Consumer)
  get_top_consumers core_times_map top t =
      consider_all (get_process_core_times fs core_times_map) t.nb_cores top t.procs []

  -- `exe`, with the default where sysinfo does not know the process; `none` is the panic of `unwrap`
  unfoldable pub exe_or_default : ℕ → Option Text
  exe_or_default pid = elim (sys.process pid) [ none ↦ some [] | some p ↦ map_option codes p.exe ]

  unfoldable pub cmdline_or_default : ℕ → List Text
  cmdline_or_default pid = unwrap_or [] (map_option SystemProcess.cmd (sys.process pid))

  -- One round of the loop of `get_filtered_processes`; `none` is a panic
  unfoldable pub filter_one :
      (Text → Bool) → ℕ → Records fs → List Consumer → Option (List Consumer)
  filter_one is_match nb_cores (r ∷ s ∷ rs) consumers =
      let diff = get_cpu_usage_percentage r.process.pid nb_cores in
      last (s ∷ rs) >>= λ (p_record : ProcessRecord fs).
      let sorted = sort_by above (consumers ++ (p_record.process, widen diff) ∷ []) in
      let process_cmdline = cmdline_or_default p_record.process.pid in
      map_option
        (λ (process_exe : Text).
          if is_match process_exe
          then sorted
          else (if is_match (concat process_cmdline) then sorted else consumers))
        (exe_or_default p_record.process.pid)
  filter_one is_match nb_cores _ consumers = some consumers

  unfoldable pub filter_all :
      (Text → Bool) → ℕ → List (Records fs) → List Consumer → Option (List Consumer)
  filter_all is_match nb_cores [] consumers = some consumers
  filter_all is_match nb_cores (v ∷ vs) consumers =
      filter_one is_match nb_cores v consumers >>= filter_all is_match nb_cores vs

  -- `get_filtered_processes`; `none` is a panic
  unfoldable pub get_filtered_processes : (Text → Bool) → ProcessTracker fs → Option (List Consumer)
  get_filtered_processes is_match t = filter_all is_match t.nb_cores t.procs []
