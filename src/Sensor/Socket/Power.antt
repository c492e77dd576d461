-- ===== src/Sensor/Socket/Power.antt =====
-- The power of a socket: from the counter file to the record, and what the background power does to
-- the estimates that it is computed from.
use scaphandre.Base.{ℕ, zero, suc, ◌-◌, ◌^◌, ◌≤◌, max, ◌≡◌, ◌∙◌, true, some, List, arith, any}
use scaphandre.Float.{Float}
use scaphandre.Sensor.Domain.Power.{Gives}
use scaphandre.Sensor.Event.{CpuStateEvent, is_idle}
use scaphandre.Sensor.Measure.{Record, last_two, energy_between, microwatts, diff_power}
use scaphandre.Sensor.Socket.{
  refresh_activation_idle_records, get_idle_power_microwatts, get_activation_power_microwatts,
  get_background_power_microwatts, get_records_diff_power_microwatts, CpuSocket, value_or_zero,
}
use scaphandre.Sensor.Socket.Background.{
  value_or_zero_lt, estimate_after, current_power, idle_estimate, activation_estimate,
  refresh_activation_idle_records_lem,
}
use scaphandre.Text.RoundTrip.{parse-show}

module _ (fl : Float) where
  pub background-eq-max :
      (now : ℕ) (s : CpuSocket fl)
      → value_or_zero (get_background_power_microwatts fl now s)
        ≡ max (idle_estimate fl now s) (activation_estimate fl now s)
  unfolding get_background_power_microwatts
  background-eq-max now s =
      let hi = value_or_zero_lt (get_idle_power_microwatts fl now s) in
      let ha = value_or_zero_lt (get_activation_power_microwatts fl now s) in
      rw (
        parse-show (2 ^ 64) (max (idle_estimate fl now s) (activation_estimate fl now s))
          (omega arith))

  -- The current power, from the two newest records.
  current_power-of_two :
      (now : ℕ) (s : CpuSocket fl) (r p : Record) (x y : ℕ)
      → last_two s.record_buffer ≡ some (r, p)
      → Gives r.value x
      → Gives p.value y
      → current_power fl now s
        ≡ some (
            microwatts fl (energy_between s.rapl_max_uj x y) r.timestamp p.timestamp
            - max (idle_estimate fl now s) (activation_estimate fl now s))
  unfolding get_records_diff_power_microwatts diff_power microwatts
  current_power-of_two now s r p x y two gx gy =
      rw (two, gx, gy)
        (rw (background-eq-max now s) (parse-show (2 ^ 64) _ (omega (arith, fl.to_u64_lt _))))

  -- An idle event in an interval whose power, before the background is taken off, is not above the
  -- socket's idle estimate leaves the estimate at 0, the value that stands for no estimate.
  pub idle_estimate_lost :
      (now later : ℕ) (events : List CpuStateEvent) (s : CpuSocket fl) (r p : Record) (x y : ℕ)
      → last_two s.record_buffer ≡ some (r, p)
      → Gives r.value x
      → Gives p.value y
      → any is_idle events ≡ true
      → microwatts fl (energy_between s.rapl_max_uj x y) r.timestamp p.timestamp
        ≤ idle_estimate fl now s
      → idle_estimate fl later (refresh_activation_idle_records fl now events s) ≡ 0
  idle_estimate_lost now later events s r p x y two gx gy seen low =
      let left =
        microwatts fl (energy_between s.rapl_max_uj x y) r.timestamp p.timestamp
        - max (idle_estimate fl now s) (activation_estimate fl now s) in
      (refresh_activation_idle_records_lem fl now later events s).0
      ∙ rw (seen, current_power-of_two now s r p x y two gx gy)
          (zero_kept left (idle_estimate fl now s) (omega arith))
    where
      zero_kept : (c i : ℕ) → c ≡ 0 → estimate_after true (some c) i ≡ 0
      zero_kept c zero e = e
      zero_kept c (suc i) e = omega arith
