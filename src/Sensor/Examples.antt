-- ===== src/Sensor/Examples.antt =====
-- Runs of the sensors, and the theorems at concrete inputs, with fractions for `f64`.
use scaphandre.Sensor.Core
use scaphandre.Sensor.Domain
use scaphandre.Sensor.Socket
use scaphandre.Base.{
  ℕ, ◌-◌, ◌^◌, ◌<◌, max, ◌≡◌, refl, true, false, none, some, List, [], ◌∷◌, arith, ◌==◌,
  if◌then◌else◌, ◌>>=◌, unwrap_or,
}
use scaphandre.Float.Fractions.{fractions}
use scaphandre.Sensor.Core.{CoreHost, CpuCore, new_core, CpuCoreMetrics, get_core_metrics_delta}
use scaphandre.Sensor.Core.Metrics.{get_core_metrics_delta-of_samples}
use scaphandre.Sensor.Domain.{
  get_records_diff_power_microwatts, refresh_record, Layout, Domain, new_domain,
}
use scaphandre.Sensor.Domain.Power.{domain_power_of_seen}
use scaphandre.Sensor.Event.{idle_event, CpuStateEvent}
use scaphandre.Sensor.Measure.{
  new_record, new_multi_record, same_text, SensorData, lookup, Files, max_energy_range,
  energy_between, microwatts,
}
use scaphandre.Sensor.Socket.{
  refresh_activation_idle_records, get_idle_power_microwatts, CpuSocket, new_socket,
}
use scaphandre.Sensor.Socket.Background.{
  estimate_after, current_power, idle_estimate, activation_estimate,
  refresh_activation_idle_records_lem,
}
use scaphandre.Sensor.Socket.Power.{idle_estimate_lost}
use scaphandre.Sensor.Socket.Refresh.{socket_power_of_seen}
use scaphandre.Text.{Text, codes, trim, show, parse_nonempty, parse_unsigned}
use scaphandre.Units.{micro_joule, micro_watt}

abbrev layout : Layout
layout = record { record_size = 48; multi_record_size = 64; stat_size = 128 }

abbrev counter_path : Text
counter_path = b'e' ∷ []

abbrev sensor_map : SensorData
sensor_map =
    ("source_file", counter_path) ∷ ("max_energy_range_uj", b'1' ∷ b'0' ∷ b'0' ∷ 10 ∷ []) ∷ []

-- A disk with the counter's file alone, of the given content.
abbrev disk : Text → Files
disk content path = if same_text path counter_path then some content else none

abbrev ninety : Text
ninety = b'9' ∷ b'0' ∷ 10 ∷ []

abbrev twenty : Text
twenty = b'2' ∷ b'0' ∷ 10 ∷ []

abbrev domain : Domain fractions
domain = new_domain fractions 0 (codes "core") counter_path 1 sensor_map

abbrev socket : CpuSocket fractions
socket = new_socket fractions 0 [] [] counter_path 1 sensor_map

-- 31 microjoules in two seconds, of which 30 are seen over a wrap of the counter
wrapped_power : microwatts fractions 30 3000000000 1000000000 ≡ 15
unfolding microwatts
wrapped_power = refl

domain_power_of_seen_example :
    (Domain.refresh_record fractions layout (disk ninety) 1000000000 domain
      >>= Domain.refresh_record fractions layout (disk twenty) 3000000000
      >>= Domain.get_records_diff_power_microwatts fractions)
    ≡ some (
        new_record 3000000000 (show (microwatts fractions 30 3000000000 1000000000 - 0)) micro_watt)
unfolding new_domain lookup same_text max_energy_range trim parse_unsigned parse_nonempty
domain_power_of_seen_example =
    domain_power_of_seen fractions layout domain (disk ninety) (disk twenty) counter_path ninety
      twenty 1000000000 3000000000 90 31 (omega arith) (omega arith) (omega arith) (omega arith)
      (omega arith) (omega arith) refl refl refl refl refl

socket_power_of_seen_example :
    (Socket.refresh_record fractions layout (disk ninety) 1000000000 socket
      >>= Socket.refresh_record fractions layout (disk twenty) 3000000000
      >>= Socket.get_records_diff_power_microwatts fractions 3000000000)
    ≡ some (
        new_record 3000000000
          (show (
            microwatts fractions 30 3000000000 1000000000
            - max
                (idle_estimate fractions 3000000000 socket)
                (activation_estimate fractions 3000000000 socket)))
          micro_watt)
unfolding new_socket lookup same_text max_energy_range trim parse_unsigned parse_nonempty
socket_power_of_seen_example =
    socket_power_of_seen fractions layout socket (disk ninety) (disk twenty) counter_path ninety
      twenty 1000000000 3000000000 90 31 (omega arith) (omega arith) (omega arith) (omega arith)
      (omega arith) (omega arith) (omega arith) (omega arith) (omega arith) (omega arith) refl refl
      refl refl refl

abbrev idle_now : List CpuStateEvent
idle_now = record { socket_id = 0; event_type = idle_event } ∷ []

-- Two records of 30 microjoules in two seconds, and an idle estimate of 15 microwatts.
abbrev resting : CpuSocket fractions
resting = record socket {
  record_buffer =
      new_record 1000000000 ninety micro_joule ∷ new_record 3000000000 twenty micro_joule ∷ [];
  activation_idle_buffer =
      new_multi_record 0 ((b'1' ∷ b'5' ∷ []) ∷ (b'0' ∷ []) ∷ []) (micro_watt ∷ micro_watt ∷ [])
      ∷ [];
}

refresh_activation_idle_records_lem_example :
    let s' = refresh_activation_idle_records fractions 4 idle_now resting in
    (idle_estimate fractions 5 s'
      ≡ estimate_after true (current_power fractions 4 resting) (idle_estimate fractions 4 resting))
    × (activation_estimate fractions 5 s'
        ≡ estimate_after false
            (current_power fractions 4 resting)
            (activation_estimate fractions 4 resting))
refresh_activation_idle_records_lem_example =
    refresh_activation_idle_records_lem fractions 4 5 idle_now resting

-- The same power as at the time of the estimate drops the estimate.
idle_estimate_lost_example :
    idle_estimate fractions 5 (refresh_activation_idle_records fractions 4 idle_now resting) ≡ 0
unfolding trim parse_unsigned parse_nonempty new_socket max_energy_range lookup microwatts
    energy_between get_idle_power_microwatts
idle_estimate_lost_example =
    idle_estimate_lost fractions 4 5 idle_now resting (new_record 3000000000 twenty micro_joule)
      (new_record 1000000000 ninety micro_joule) 20 90 refl refl refl refl (omega arith)

abbrev core : CpuCore
core = new_core 0 [] none none

abbrev host : ℕ → CoreHost
host n = record {
  idle_states = [];
  read_msr = λ r. if r == 0xE8 then some n else none;
  kernel_stats = none;
  read_counter = λ h. none;
}

msr_small : (n : ℕ) → n < 2 ^ 64 → (r : ℕ) → unwrap_or 0 (CoreHost.read_msr (host n) r) < 2 ^ 64
msr_small n h r = ground arith

get_core_metrics_delta-of_samples_example :
    (m : CpuCoreMetrics fractions) × (get_core_metrics_delta fractions (
        Core.refresh_record fractions layout
          (host 70)
          9
          (Core.refresh_record fractions layout (host 40) 8 core))
      ≡ some m)
    × (m.aperf ≡ 30)
    × (m.mperf ≡ 0)
    × (m.tsc ≡ 0)
unfolding new_core
get_core_metrics_delta-of_samples_example =
    get_core_metrics_delta-of_samples fractions layout (host 40) (host 70) 8 9 core (omega arith)
      (omega arith) (omega arith) (omega arith) (msr_small 40 (omega arith))
      (msr_small 70 (omega arith))
