-- ===== src/Sensor/Domain/Power.antt =====
-- The power of a domain, from its counter file to the record that is exported.
-- The text of a file gives the number n: blanks around its digits do not matter.
use scaphandre.Base.{
  ℕ, ◌+◌, ◌-◌, ◌*◌, ◌%◌, ◌^◌, ◌≤◌, ◌<◌, ◌≡◌, ap, ◌∙◌, some, List, arith, ◌>>=◌, length, last,
  before_last,
}
use scaphandre.Buffer.{limit_bytes, clean_old_records, refresh_buffer}
use scaphandre.Buffer.Newest.{refresh_newest, refresh_last}
use scaphandre.Float.{Float}
use scaphandre.Sensor.Domain.{
  Layout, Domain, read_record, refresh_record, get_records_diff_power_microwatts,
}
use scaphandre.Sensor.Measure.{
  Record, new_record, lookup, Files, last_two-of_ends, energy_between, microwatts, diff_power,
}
use scaphandre.Sensor.Measure.Energy.{seen_energy, energy_between-seen}
use scaphandre.Text.{Text, trim, show, parse_u64}
use scaphandre.Units.{micro_joule, micro_watt}

abbrev pub Gives : Text → ℕ → Type 0
Gives t n = parse_u64 (trim t) ≡ some n

module _ (fl : Float) where
  pub diff_power-of_ends :
      (m b : ℕ) (buffer : List Record) (r p : Record) (x y : ℕ)
      → last buffer ≡ some r
      → before_last buffer ≡ some p
      → Gives r.value x
      → Gives p.value y
      → diff_power fl m b buffer
        ≡ some (
            new_record r.timestamp
              (show (microwatts fl (energy_between m x y) r.timestamp p.timestamp - b))
              micro_watt)
  unfolding diff_power
  diff_power-of_ends m b buffer r p x y l k gx gy = rw (last_two-of_ends buffer l k) (rw (gx, gy))

  -- A file that can be read becomes the newest record.
  refresh_record-reads :
      (layout : Layout) (files : Files) (now : ℕ) (d : Domain fl) (path content : Text)
      → lookup "source_file" d.sensor_data ≡ some path
      → files path ≡ some content
      → refresh_record fl layout files now d
        ≡ some (record d {
          record_buffer =
              refresh_buffer
                (clean_old_records layout.record_size d.buffer_max_kbytes)
                (some (new_record now content micro_joule))
                d.record_buffer;
        })
  unfolding refresh_record read_record
  refresh_record-reads layout files now d path content e f = rw (e, f)

  -- Two refreshes in a row: what the power is computed from afterwards.
  pub refresh_twice :
      (size kbytes m b : ℕ) (buffer : List Record) (r p : Record) (x y : ℕ)
      → 0 < size
      → size < 2 ^ 16
      → size ≤ limit_bytes kbytes
      → size * (length buffer + 1) < 2 ^ 24
      → Gives r.value x
      → Gives p.value y
      → let refresh = refresh_buffer (clean_old_records size kbytes) in
        diff_power fl m b (refresh (some r) (refresh (some p) buffer))
        ≡ some (
            new_record r.timestamp
              (show (microwatts fl (energy_between m x y) r.timestamp p.timestamp - b))
              micro_watt)
  refresh_twice size kbytes m b buffer r p x y positive width room small gx gy =
      let middle = refresh_buffer (clean_old_records size kbytes) (some p) buffer in
      let first = refresh_last size kbytes p buffer positive room small in
      let second =
        refresh_newest size kbytes r p middle positive room (omega (arith, first.1)) first.0 in
      diff_power-of_ends m b _ r p x y second.0 second.1 gx gy

  -- A domain whose counter file counts from 0 to rapl_max_uj and then starts again is refreshed at two
  -- times, and at most rapl_max_uj is used in between. Whatever the domain's buffer held before, neither
  -- refresh panics, and the power reported afterwards, at the time of the second refresh, is that of the
  -- energy used in between, and of one microjoule less where the counter wrapped, less the background
  -- power, and 0 where that is larger. The source file is named and can be read both times, a record
  -- has some bytes, less than 2 ^ 16, the limit is one record at least, and the buffer has less than
  -- 2 ^ 24 bytes with one record more.
  pub domain_power_of_seen :
      (layout : Layout) (d : Domain fl) (earlier later : Files) (path content content' : Text)
      → (previous_time now start used : ℕ) → 0 < layout.record_size
      → layout.record_size < 2 ^ 16
      → layout.record_size ≤ limit_bytes d.buffer_max_kbytes
      → layout.record_size * (length d.record_buffer + 1) < 2 ^ 24
      → used ≤ d.rapl_max_uj
      → d.rapl_max_uj < 2 ^ 64
      → lookup "source_file" d.sensor_data ≡ some path
      → earlier path ≡ some content
      → later path ≡ some content'
      → Gives content (start % (d.rapl_max_uj + 1))
      → Gives content' ((start + used) % (d.rapl_max_uj + 1))
      → (refresh_record fl layout earlier previous_time d
          >>= refresh_record fl layout later now
          >>= get_records_diff_power_microwatts fl)
        ≡ some (
            new_record now
              (show (
                microwatts fl (seen_energy d.rapl_max_uj start used) now previous_time
                - fl.to_u64 d.background_power_uw))
              micro_watt)
  unfolding get_records_diff_power_microwatts
  domain_power_of_seen layout d earlier later path content content' previous_time now start used
        positive width room small in_range max_range e e0 e1 g0 g1 =
      rw (refresh_record-reads layout earlier previous_time d path content e e0) (
        rw
          (refresh_record-reads layout later now
            (refreshed d (new_record previous_time content micro_joule)) path content' e e1)
          (refresh_twice layout.record_size d.buffer_max_kbytes d.rapl_max_uj
              (fl.to_u64 d.background_power_uw) d.record_buffer
              (new_record now content' micro_joule) (new_record previous_time content micro_joule)
              ((start + used) % (d.rapl_max_uj + 1)) (start % (d.rapl_max_uj + 1)) positive width
              room small g1 g0
            ∙ ap
                (λ u. some (
                  new_record now
                    (show (microwatts fl u now previous_time - fl.to_u64 d.background_power_uw))
                    micro_watt))
                (energy_between-seen d.rapl_max_uj start used in_range max_range)))
    where
      refreshed : Domain fl → Record → Domain fl
      refreshed x r = record x {
        record_buffer =
            refresh_buffer (clean_old_records layout.record_size x.buffer_max_kbytes) (some r)
              x.record_buffer;
      }
