-- ===== src/Sensor/Socket/Refresh.antt =====
-- A socket through two refreshes of its energy record.
use scaphandre.Base.{
  ℕ, ◌+◌, ◌-◌, ◌*◌, ◌%◌, ◌^◌, ◌≤◌, ◌<◌, max, ◌≡◌, refl, sym, ap, ap₂, ◌∙◌, some, List, [], ◌∷◌,
  ◌++◌, arith, ◌>>=◌, length, last,
}
use scaphandre.Buffer.{limit_bytes, clean_old_records, clean_unless_empty, refresh_buffer}
use scaphandre.Buffer.Newest.{clean_newest, refresh_buffer-some}
use scaphandre.Float.{Float}
use scaphandre.Sensor.Domain.{Layout}
use scaphandre.Sensor.Domain.Power.{Gives, refresh_twice}
use scaphandre.Sensor.Measure.{Record, new_record, lookup, Files, microwatts}
use scaphandre.Sensor.Measure.Energy.{seen_energy, energy_between-seen}
use scaphandre.Sensor.Socket.{
  read_record, refresh_record, get_records_diff_power_microwatts, CpuSocket, value_or_zero,
  clean_both, clean_if_any, get_idle_power_microwatts, get_activation_power_microwatts,
  get_background_power_microwatts,
}
use scaphandre.Sensor.Socket.Background.{idle_estimate, activation_estimate}
use scaphandre.Sensor.Socket.Power.{background-eq-max}
use scaphandre.Text.{Text, show}
use scaphandre.Units.{micro_joule, micro_watt}

module _ (fl : Float) where
  clean_if_any-push :
      (layout : Layout) (buffer : List Record) (r : Record) (s : CpuSocket fl)
      → clean_if_any fl layout (buffer ++ r ∷ []) s ≡ clean_both fl layout s
  unfolding clean_if_any
  clean_if_any-push layout [] r s = refl
  clean_if_any-push layout (x ∷ xs) r s = refl

  -- The socket after its file was read.
  abbrev refreshed : Layout → Record → CpuSocket fl → CpuSocket fl
  refreshed layout r s = record s {
    record_buffer =
        refresh_buffer (clean_old_records layout.record_size s.buffer_max_kbytes) (some r)
          s.record_buffer;
    activation_idle_buffer =
        clean_unless_empty (clean_old_records layout.multi_record_size s.buffer_max_kbytes)
          s.activation_idle_buffer;
  }

  refresh_record-reads :
      (layout : Layout) (files : Files) (now : ℕ) (s : CpuSocket fl) (path content : Text)
      → lookup "source_file" s.sensor_data ≡ some path
      → files path ≡ some content
      → refresh_record fl layout files now s
        ≡ some (refreshed layout (new_record now content micro_joule) s)
  unfolding refresh_record read_record
  refresh_record-reads layout files now s path content e f =
      let r = new_record now content micro_joule in
      let pushed = s.record_buffer ++ r ∷ [] in
      rw (e, f)
        (ap some (
          clean_if_any-push layout s.record_buffer r (record s { record_buffer = pushed })
          ∙ unfold clean_both in
            ap
              (λ (b : List Record). record s {
                record_buffer = b;
                activation_idle_buffer =
                    clean_unless_empty
                      (clean_old_records layout.multi_record_size s.buffer_max_kbytes)
                      s.activation_idle_buffer;
              })
              (sym (refresh_buffer-some layout.record_size s.buffer_max_kbytes r s.record_buffer))))

  -- The estimates hang on the newest event record alone.
  estimates-of_last :
      (now : ℕ) (s s' : CpuSocket fl)
      → last s'.activation_idle_buffer ≡ last s.activation_idle_buffer
      → (idle_estimate fl now s' ≡ idle_estimate fl now s)
        × (activation_estimate fl now s' ≡ activation_estimate fl now s)
  unfolding get_idle_power_microwatts get_activation_power_microwatts
  estimates-of_last now s s' e = (rw e, rw e)

  -- Two refreshes leave the newest event record, and with it the background power.
  background_twice :
      (layout : Layout) (now : ℕ) (r p : Record) (s : CpuSocket fl)
      → 0 < layout.multi_record_size
      → layout.multi_record_size < 2 ^ 16
      → layout.multi_record_size ≤ limit_bytes s.buffer_max_kbytes
      → layout.multi_record_size * length s.activation_idle_buffer < 2 ^ 24
      → value_or_zero
          (get_background_power_microwatts fl now (refreshed layout r (refreshed layout p s)))
        ≡ max (idle_estimate fl now s) (activation_estimate fl now s)
  background_twice layout now r p s positive width room small =
      let s' = refreshed layout p s in
      let s'' = refreshed layout r s' in
      let first =
        clean_newest layout.multi_record_size s.buffer_max_kbytes s.activation_idle_buffer positive
          room small in
      let second =
        clean_newest layout.multi_record_size s.buffer_max_kbytes s'.activation_idle_buffer positive
          room (omega (arith, first.1)) in
      let e = estimates-of_last now s s'' (second.0 ∙ first.0) in
      background-eq-max fl now s'' ∙ ap₂ max e.0 e.1

  -- A socket whose counter file counts from 0 to rapl_max_uj and then starts again is refreshed at two
  -- times, and at most rapl_max_uj is used in between. Whatever its buffers held before, neither refresh
  -- panics, and the power reported afterwards, at the time of the second refresh, is that of the energy
  -- used in between, and of one microjoule less where the counter wrapped, less the larger of the idle
  -- and the activation estimate before, and 0 where that is larger. The source file is named and can be
  -- read both times, a record of either kind has some bytes, less than 2 ^ 16, and the limit is one
  -- at least, the buffer of event records has less than 2 ^ 24 bytes, and so has that of energies
  -- with one record more.
  pub socket_power_of_seen :
      (layout : Layout) (s : CpuSocket fl) (earlier later : Files) (path content content' : Text)
      → (previous_time now start used : ℕ) → 0 < layout.record_size
      → layout.record_size < 2 ^ 16
      → layout.record_size ≤ limit_bytes s.buffer_max_kbytes
      → layout.record_size * (length s.record_buffer + 1) < 2 ^ 24
      → 0 < layout.multi_record_size
      → layout.multi_record_size < 2 ^ 16
      → layout.multi_record_size ≤ limit_bytes s.buffer_max_kbytes
      → layout.multi_record_size * length s.activation_idle_buffer < 2 ^ 24
      → used ≤ s.rapl_max_uj
      → s.rapl_max_uj < 2 ^ 64
      → lookup "source_file" s.sensor_data ≡ some path
      → earlier path ≡ some content
      → later path ≡ some content'
      → Gives content (start % (s.rapl_max_uj + 1))
      → Gives content' ((start + used) % (s.rapl_max_uj + 1))
      → (refresh_record fl layout earlier previous_time s
          >>= refresh_record fl layout later now
          >>= get_records_diff_power_microwatts fl now)
        ≡ some (
            new_record now
              (show (
                microwatts fl (seen_energy s.rapl_max_uj start used) now previous_time
                - max (idle_estimate fl now s) (activation_estimate fl now s)))
              micro_watt)
  unfolding get_records_diff_power_microwatts
  socket_power_of_seen layout s earlier later path content content' previous_time now start used
        positive width room small positive' width' room' small' in_range max_range e e0 e1 g0 g1 =
      let p = new_record previous_time content micro_joule in
      let r = new_record now content' micro_joule in
      rw (refresh_record-reads layout earlier previous_time s path content e e0) (
        rw (refresh_record-reads layout later now (refreshed layout p s) path content' e e1) (
          rw (background_twice layout now r p s positive' width' room' small') (
            refresh_twice fl layout.record_size s.buffer_max_kbytes s.rapl_max_uj
              (max (idle_estimate fl now s) (activation_estimate fl now s)) s.record_buffer r p
              ((start + used) % (s.rapl_max_uj + 1)) (start % (s.rapl_max_uj + 1)) positive width
              room small g1 g0
            ∙ ap
                (λ u. some (
                  new_record now
                    (show (
                      microwatts fl u now previous_time
                      - max (idle_estimate fl now s) (activation_estimate fl now s)))
                    micro_watt))
                (energy_between-seen s.rapl_max_uj start used in_range max_range))))
