-- ===== src/Sensor/Socket/Sources.antt =====
-- When a socket can be measured: it and its domains name the files of their counters, and /proc/stat
-- has a line for each of its cores.
use scaphandre.Sensor.Socket
use scaphandre.Base.{ℕ, ◌≡◌, refl, Option, some, List, [], ◌∷◌, map_option}
use scaphandre.Buffer.{clean_old_stats, push_reading, clean_unless_empty}
use scaphandre.Float.{Float}
use scaphandre.Sensor.Core.{CpuCore, read_stats}
use scaphandre.Sensor.Domain.{Layout, Domain}
use scaphandre.Sensor.Measure.{Record, new_record, SensorData, lookup, Files}
use scaphandre.Sensor.Socket.{read_record, refresh_record, CpuSocket, clean_both, clean_if_any}
use scaphandre.Sensor.Socket.Usage.{no_usage, add_if_some, sum_usage, read_usage, refresh_usage}
use scaphandre.Sensor.Stat.{CpuStat, KernelStats}
use scaphandre.Text.{Text}
use scaphandre.Units.{micro_joule}

-- The sensor data name a source file.
abbrev pub IsSourced : SensorData → Type 0
IsSourced sensor_data = (path : Text) × (lookup "source_file" sensor_data ≡ some path)

abbrev pub AllSourced : {fl : Float} → List (Domain fl) → Type 0
AllSourced [] = Unit
AllSourced (d ∷ ds) = IsSourced d.sensor_data × AllSourced ds

-- The statistics of the cores can be read without a panic.
abbrev pub AllKnown : Option KernelStats → List CpuCore → Type 0
AllKnown kernel_stats [] = Unit
AllKnown kernel_stats (c ∷ cs) =
    ((r : Option CpuStat) × (read_stats kernel_stats c ≡ some r)) × AllKnown kernel_stats cs

pub sum_usage-total :
    (kernel_stats : Option KernelStats) (stats : CpuStat) (cs : List CpuCore)
    → AllKnown kernel_stats cs
    → (r : CpuStat) × (sum_usage kernel_stats stats cs ≡ some r)
unfolding sum_usage
sum_usage-total kernel_stats stats [] k = (stats, refl)
sum_usage-total kernel_stats stats (c ∷ cs) k =
    let rest = sum_usage-total kernel_stats (add_if_some stats k.0.0) cs k.1 in
    (rest.0, rw k.0.1 rest.1)

module _ (fl : Float) where
  pub refresh_usage-total :
      (layout : Layout) (kernel_stats : Option KernelStats) (s : CpuSocket fl)
      → AllKnown kernel_stats s.cpu_cores
      → (s' : CpuSocket fl) × (refresh_usage fl layout kernel_stats s ≡ some s')
        × (s'.domains ≡ s.domains)
        × (s'.sensor_data ≡ s.sensor_data)
  unfolding refresh_usage read_usage
  refresh_usage-total layout kernel_stats s k =
      let r = sum_usage-total kernel_stats no_usage s.cpu_cores k in
      let cleaned =
        clean_unless_empty (clean_old_stats layout.stat_size s.buffer_max_kbytes) s.stat_buffer in
      (record s { stat_buffer = r.0 ∷ cleaned }, rw r.1 refl, refl, refl)

  clean_if_any-keeps :
      (layout : Layout) (pushed : List Record) (s : CpuSocket fl)
      → ((clean_if_any fl layout pushed s).domains ≡ s.domains)
        × ((clean_if_any fl layout pushed s).cpu_cores ≡ s.cpu_cores)
        × ((clean_if_any fl layout pushed s).sensor_data ≡ s.sensor_data)
  unfolding clean_if_any clean_both
  clean_if_any-keeps layout [] s = (refl, refl, refl)
  clean_if_any-keeps layout (r ∷ rs) s = (refl, refl, refl)

  pub refresh_record-total :
      (layout : Layout) (files : Files) (now : ℕ) (s : CpuSocket fl)
      → IsSourced s.sensor_data
      → (s' : CpuSocket fl) × (Socket.refresh_record fl layout files now s ≡ some s')
        × (s'.domains ≡ s.domains)
        × (s'.cpu_cores ≡ s.cpu_cores)
        × (s'.sensor_data ≡ s.sensor_data)
  unfolding Socket.refresh_record Socket.read_record clean_if_any
  refresh_record-total layout files now s h =
      let reading = map_option (λ result. new_record now result micro_joule) (files h.0) in
      let pushed = push_reading reading s.record_buffer in
      let kept = clean_if_any-keeps layout pushed (record s { record_buffer = pushed }) in
      (
        clean_if_any fl layout pushed (record s { record_buffer = pushed }),
        rw h.1 refl,
        kept.0,
        kept.1,
        kept.2,
      )
