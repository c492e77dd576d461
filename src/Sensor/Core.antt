-- ===== src/Sensor/Core.antt =====
-- `CPUCore`: a logical CPU, with the counters that are sampled for it.
pub mod Metrics
use scaphandre.Base.{
  ℕ, String, Bool, str_eq, ◌&&◌, Option, none, some, List, [], ◌∷◌, ltb, leb, ◌==◌, if◌then◌else◌,
  ◌>>=◌, unwrap_or, map_option, length, get_elem?, saturating_sub,
}
use scaphandre.Buffer.{clean_old_records, refresh_buffer}
use scaphandre.Float.{Float}
use scaphandre.Sensor.Domain.{Layout}
use scaphandre.Sensor.Measure.{MultiValuedRecord, new_multi_record, SensorData, last_two}
use scaphandre.Sensor.Stat.{CpuStat, add_u64, sub_u64, get_idle_and_total, KernelStats}
use scaphandre.Text.{Text, trim, show, parse_u64}
use scaphandre.Units.{MeasureUnit, numeric, micro_seconds}

-- What `read_count_and_time` of the perf_event crate returns.
pub record CountAndTime : Type 0 where
  pub count : ℕ
  pub time_enabled : ℕ
  pub time_running : ℕ

-- An entry of the cpuidle directory: whether it is a directory, its name if that is Unicode, and
-- the content of its file `time`, if that can be read.
pub record IdleState : Type 0 where
  pub is_dir : Bool
  pub file_name : Option String
  pub time : Option Text

-- What a sample of a core reads from the host: the entries of its cpuidle directory that can be
-- listed, its model-specific registers, /proc/stat, and the perf counters by their handles.
pub record CoreHost : Type 0 where
  pub idle_states : List IdleState
  pub read_msr : ℕ → Option ℕ
  pub kernel_stats : Option KernelStats
  pub read_counter : ℕ → Option CountAndTime

-- The perf counters are opened by the kernel and known by a handle, where that succeeded.
pub record CpuCore : Type 0 where
  pub id : ℕ
  pub attributes : SensorData
  pub record_buffer : List MultiValuedRecord
  pub buffer_max_kbytes : ℕ
  pub instructions : Option ℕ
  pub cycles : Option ℕ

-- `CPUCore::new`, given the two counters that the kernel opened or refused
unfoldable pub new_core : ℕ → SensorData → Option ℕ → Option ℕ → CpuCore
new_core id attributes instructions cycles = record {
  id = id;
  attributes = attributes;
  record_buffer = [];
  buffer_max_kbytes = 1;
  instructions = instructions;
  cycles = cycles;
}

-- `Clone for CPUCore`: the counters are not cloned
unfoldable pub clone_core : CpuCore → CpuCore
clone_core c = record c { instructions = none; cycles = none }

-- The time spent in one idle state; state0 is the active one, and what cannot be read counts 0.
idle_time : IdleState → ℕ
idle_time e =
    if e.is_dir
    then elim e.file_name [
      | none ↦ 0
      | some name ↦
          if str_eq name "state0" then 0 else unwrap_or 0 (e.time >>= λ t. parse_u64 (trim t))
    ]
    else 0

unfoldable pub total_idle_us : List IdleState → ℕ
unfolding idle_time
total_idle_us [] = 0
total_idle_us (e ∷ es) = add_u64 (idle_time e) (total_idle_us es)

-- The busy time and the total time of a line of /proc/stat.
unfoldable pub busy_and_total : CpuStat → ℕ × ℕ
busy_and_total t =
    let total = (get_idle_and_total t).1 in
    (sub_u64 (sub_u64 total t.idle) (unwrap_or 0 t.iowait), total)

-- core_busy, core_total, node_busy, node_total
abbrev pub CpuTimes : Type 0
CpuTimes = ℕ × ℕ × ℕ × ℕ

unfoldable pub cpu_times : ℕ → Option KernelStats → CpuTimes
unfolding busy_and_total
cpu_times id kernel_stats =
    unwrap_or (0, 0, 0, 0)
      (do
        ks ← kernel_stats
        ct ← get_elem? ks.cpu_time id
        let node = busy_and_total ks.total
        let core = busy_and_total ct
        some (core.0, core.1, node.0, node.1))

-- MSR_IA32_MPERF, MSR_IA32_APERF and MSR_IA32_TSC
abbrev pub msr_mperf : ℕ
msr_mperf = 0xE7

abbrev pub msr_aperf : ℕ
msr_aperf = 0xE8

abbrev pub msr_tsc : ℕ
msr_tsc = 0x10

module _ (fl : Float) where
  open fl use {F, of_ℕ, add, sub, mul, div, lt, parse_f64, show_f64}

  -- A perf counter, corrected for the time in which the kernel had it off the hardware.
  unfoldable pub scaled_count : Option CountAndTime → F
  scaled_count none = of_ℕ 0
  scaled_count (some c) =
      if ltb 0 c.time_running
      then mul (of_ℕ c.count) (div (of_ℕ c.time_enabled) (of_ℕ c.time_running))
      else of_ℕ 0

  -- `read_record`, on Linux
  unfoldable pub read_record : CoreHost → ℕ → CpuCore → MultiValuedRecord
  read_record host now c =
      let times = cpu_times c.id host.kernel_stats in
      new_multi_record now
        (show (total_idle_us host.idle_states)
          ∷ show (unwrap_or 0 (host.read_msr msr_mperf))
          ∷ show (unwrap_or 0 (host.read_msr msr_aperf))
          ∷ show times.0
          ∷ show times.1
          ∷ show times.2
          ∷ show times.3
          ∷ show_f64 (scaled_count (c.instructions >>= host.read_counter))
          ∷ show_f64 (scaled_count (c.cycles >>= host.read_counter))
          ∷ show (unwrap_or 0 (host.read_msr msr_tsc))
          ∷ [])
        (micro_seconds ∷ MeasureUnit.cycles ∷ MeasureUnit.cycles ∷ numeric ∷ numeric ∷ numeric
          ∷ numeric ∷ numeric ∷ numeric ∷ MeasureUnit.cycles ∷ [])

  -- `refresh_record`
  unfoldable pub refresh_record : Layout → CoreHost → ℕ → CpuCore → CpuCore
  refresh_record layout host now c = record c {
    record_buffer =
        refresh_buffer (clean_old_records layout.multi_record_size c.buffer_max_kbytes)
          (some (read_record host now c)) c.record_buffer;
  }

  -- `CPUCoreMetrics`
  pub record CpuCoreMetrics : Type 0 where
    pub cpu_time_percentage : F
    pub aperf : ℕ
    pub mperf : ℕ
    pub tsc : ℕ
    pub inst : F
    pub cyc : F
    pub ipc : F

  -- `values[i].trim().parse::<u64>().unwrap_or(0)`
  abbrev count_at : List Text → ℕ → ℕ
  count_at values i = unwrap_or 0 (get_elem? values i >>= λ t. parse_u64 (trim t))

  -- `values[i].trim().parse::<f64>().unwrap_or(0.0)`
  abbrev float_at : List Text → ℕ → F
  float_at values i = unwrap_or (of_ℕ 0) (get_elem? values i >>= λ t. parse_f64 (trim t))

  abbrev count_delta : List Text → List Text → ℕ → ℕ
  count_delta newest previous i = saturating_sub (count_at newest i) (count_at previous i)

  metrics_between : List Text → List Text → CpuCoreMetrics
  metrics_between newest previous =
      let core_busy_delta = count_delta newest previous 3 in
      let node_busy_delta = count_delta newest previous 5 in
      let inst = sub (float_at newest 7) (float_at previous 7) in
      let cyc = sub (float_at newest 8) (float_at previous 8) in
      record {
        cpu_time_percentage =
            if node_busy_delta == 0
            then of_ℕ 0
            else mul (div (of_ℕ core_busy_delta) (of_ℕ node_busy_delta)) (of_ℕ 100);
        aperf = count_delta newest previous 2;
        mperf = count_delta newest previous 1;
        tsc = count_delta newest previous 9;
        inst = inst;
        cyc = cyc;
        ipc = if lt (of_ℕ 0) cyc then div inst cyc else of_ℕ 0;
      }

  -- `get_core_metrics_delta`
  unfoldable pub get_core_metrics_delta : CpuCore → Option CpuCoreMetrics
  unfolding metrics_between
  get_core_metrics_delta c = do
    (newest, previous) ← last_two c.record_buffer
    if leb 10 (length newest.values) && leb 10 (length previous.values)
        then some (metrics_between newest.values previous.values)
        else none

-- `CPUCore::read_stats`; the outer `none` is the panic of `remove` past the end
unfoldable pub read_stats : Option KernelStats → CpuCore → Option (Option CpuStat)
read_stats none c = some none
read_stats (some ks) c = map_option some (get_elem? ks.cpu_time c.id)
