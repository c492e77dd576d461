-- ===== src/Sensor/Core/Metrics.antt =====
-- From two samples of a core to the deltas that are taken from them: every value is found again at
-- its place in the record.
use mathlib.Core.List.{append-nil}
use scaphandre.Base.{
  ℕ, ◌+◌, ◌-◌, ◌*◌, ◌^◌, ◌≤◌, ◌<◌, ◌≡◌, refl, sym, ap, ◌∙◌, some, [], arith, unwrap_or, length,
}
use scaphandre.Buffer.{limit_bytes}
use scaphandre.Buffer.Newest.{refresh_newest, refresh_last}
use scaphandre.Float.{Float}
use scaphandre.Sensor.Core.{
  read_record, refresh_record, CoreHost, CpuCore, msr_mperf, msr_aperf, msr_tsc, CpuCoreMetrics,
  metrics_between, get_core_metrics_delta,
}
use scaphandre.Sensor.Domain.{Layout}
use scaphandre.Sensor.Measure.{last_two-of_ends}
use scaphandre.Text.{trim, show, parse_u64}
use scaphandre.Text.Digits.{show-AllDigits, show-ne-nil, trim-digits}
use scaphandre.Text.RoundTrip.{parse-show}

trim-show : (n : ℕ) → trim (show n) ≡ show n
trim-show n =
    ap trim (sym (append-nil (show n)))
    ∙ trim-digits [] (show n) [] tt (show-AllDigits n) (show-ne-nil n) tt

pub parse-trim-shown : (n : ℕ) → n < 2 ^ 64 → parse_u64 (trim (show n)) ≡ some n
parse-trim-shown n h = rw (trim-show n) (parse-show (2 ^ 64) n h)

-- A register of the host holds 64 bits.
abbrev msr_of : CoreHost → ℕ → ℕ
msr_of host r = unwrap_or 0 (host.read_msr r)

module _ (fl : Float) where
  metrics-of_samples :
      (before after : CoreHost) (t t' : ℕ) (c c' : CpuCore)
      → ((r : ℕ) → msr_of before r < 2 ^ 64)
      → ((r : ℕ) → msr_of after r < 2 ^ 64)
      → let m =
          metrics_between fl
            (read_record fl after t' c').values
            (read_record fl before t c).values in
        (m.aperf ≡ msr_of after msr_aperf - msr_of before msr_aperf)
        × (m.mperf ≡ msr_of after msr_mperf - msr_of before msr_mperf)
        × (m.tsc ≡ msr_of after msr_tsc - msr_of before msr_tsc)
  unfolding read_record metrics_between
  metrics-of_samples before after t t' c c' h h' =
      let p = λ (r : ℕ). parse-trim-shown (msr_of before r) (h r) in
      let q = λ (r : ℕ). parse-trim-shown (msr_of after r) (h' r) in
      (rw (p msr_aperf, q msr_aperf), rw (p msr_mperf, q msr_mperf), rw (p msr_tsc, q msr_tsc))

  -- After two samples of a core, whatever its buffer held before, the deltas of APERF, MPERF and TSC
  -- are those of the registers that the two samples read, and 0 where a register fell. The limit is
  -- one record at least, and the buffer's bytes before are below 2 ^ 24.
  pub get_core_metrics_delta-of_samples :
      (layout : Layout) (before after : CoreHost) (t t' : ℕ) (c : CpuCore)
      → 0 < layout.multi_record_size
      → layout.multi_record_size < 2 ^ 16
      → layout.multi_record_size ≤ limit_bytes c.buffer_max_kbytes
      → layout.multi_record_size * (length c.record_buffer + 1) < 2 ^ 24
      → ((r : ℕ) → msr_of before r < 2 ^ 64)
      → ((r : ℕ) → msr_of after r < 2 ^ 64)
      → (m : CpuCoreMetrics fl) × (get_core_metrics_delta fl
            (refresh_record fl layout after t' (refresh_record fl layout before t c))
          ≡ some m)
        × (m.aperf ≡ msr_of after msr_aperf - msr_of before msr_aperf)
        × (m.mperf ≡ msr_of after msr_mperf - msr_of before msr_mperf)
        × (m.tsc ≡ msr_of after msr_tsc - msr_of before msr_tsc)
  unfolding get_core_metrics_delta refresh_record
  get_core_metrics_delta-of_samples layout before after t t' c positive width room small h h' =
      let c' = refresh_record fl layout before t c in
      let p = read_record fl before t c in
      let r = read_record fl after t' c' in
      let first =
        refresh_last layout.multi_record_size c.buffer_max_kbytes p c.record_buffer positive room
          small in
      let second =
        refresh_newest layout.multi_record_size c.buffer_max_kbytes r p c'.record_buffer positive
          room (omega (arith, first.1)) first.0 in
      let deltas = metrics-of_samples before after t t' c c' h h' in
      (
        metrics_between fl r.values p.values,
        rw (last_two-of_ends _ second.0 second.1) (unfold read_record in refl),
        deltas.0,
        deltas.1,
        deltas.2,
      )
