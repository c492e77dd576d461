-- ===== src/Sensor/Socket/Background.antt =====
-- The idle and the activation power of a socket, as the events of the kernel part change them.
use scaphandre.Base.{
  ℕ, zero, suc, ◌^◌, ◌<◌, min, ◌≡◌, refl, ap, ◌∙◌, Bool, true, false, ◌||◌, Option, none, some,
  List, [], ◌∷◌, ◌++◌, arith, if◌then◌else◌, ◌>>=◌, unwrap_or, any, last, last-append,
}
use scaphandre.Buffer.{push_reading}
use scaphandre.Float.{Float}
use scaphandre.Sensor.Event.{CpuStateEvent, is_idle, is_activation}
use scaphandre.Sensor.Measure.{Record, new_record, MultiValuedRecord, new_multi_record}
use scaphandre.Sensor.Socket.{
  refresh_activation_idle_records, get_idle_power_microwatts, get_activation_power_microwatts,
  get_records_diff_power_microwatts, CpuSocket, first_two, lowered, value_or_zero,
  read_activation_idle_record,
}
use scaphandre.Text.{Text, show, parse_u64}
use scaphandre.Text.Digits.{parse_unsigned_lt}
use scaphandre.Text.RoundTrip.{parse-show}
use scaphandre.Units.{micro_watt}

unwrap_or_zero_lt :
    (m : ℕ) (o : Option ℕ) → 0 < m → ((n : ℕ) → o ≡ some n → n < m) → unwrap_or 0 o < m
unwrap_or_zero_lt m none h f = h
unwrap_or_zero_lt m (some n) h f = f n refl

pub value_or_zero_lt : (r : Option Record) → value_or_zero r < 2 ^ 64
value_or_zero_lt none = omega arith
value_or_zero_lt (some r) =
    unwrap_or_zero_lt (2 ^ 64) (parse_u64 r.value) (omega arith)
      (λ n e. parse_unsigned_lt (2 ^ 64) n r.value e)

lowered_lt : (m current estimate : ℕ) → current < m → lowered current estimate < m
unfolding lowered
lowered_lt m current estimate h = ground arith

-- What an event, or its absence, makes of an estimate, given the current power if that is known.
abbrev pub estimate_after : Bool → Option ℕ → ℕ → ℕ
estimate_after false current estimate = estimate
estimate_after true none estimate = estimate
estimate_after true (some current) zero = current
estimate_after true (some current) (suc estimate) = min current (suc estimate)

lowered-eq-estimate_after :
    (current estimate : ℕ) → lowered current estimate ≡ estimate_after true (some current) estimate
unfolding lowered
lowered-eq-estimate_after current zero = refl
lowered-eq-estimate_after current (suc estimate) = ground arith

module _ (fl : Float) where
  -- The power that the socket reports now, less its background power.
  abbrev pub current_power : ℕ → CpuSocket fl → Option ℕ
  current_power now s = get_records_diff_power_microwatts fl now s >>= λ r. parse_u64 r.value

  abbrev pub idle_estimate : ℕ → CpuSocket fl → ℕ
  idle_estimate now s = value_or_zero (get_idle_power_microwatts fl now s)

  abbrev pub activation_estimate : ℕ → CpuSocket fl → ℕ
  activation_estimate now s = value_or_zero (get_activation_power_microwatts fl now s)

  -- The estimates after an event record was pushed.
  pushed_estimates :
      (now later i a : ℕ) (s : CpuSocket fl)
      → i < 2 ^ 64
      → a < 2 ^ 64
      → let r = new_multi_record now (show i ∷ show a ∷ []) (micro_watt ∷ micro_watt ∷ []) in
        let s' = record s { activation_idle_buffer = s.activation_idle_buffer ++ r ∷ [] } in
        (idle_estimate later s' ≡ i) × (activation_estimate later s' ≡ a)
  unfolding get_idle_power_microwatts get_activation_power_microwatts
  pushed_estimates now later i a s hi ha =
      let r = new_multi_record now (show i ∷ show a ∷ []) (micro_watt ∷ micro_watt ∷ []) in
      let e = last-append s.activation_idle_buffer r in
      (rw (e, parse-show (2 ^ 64) i hi), rw (e, parse-show (2 ^ 64) a ha))

  -- The clock does not change an estimate.
  estimates_later :
      (now later : ℕ) (s : CpuSocket fl)
      → (idle_estimate later s ≡ idle_estimate now s)
        × (activation_estimate later s ≡ activation_estimate now s)
  unfolding get_idle_power_microwatts get_activation_power_microwatts
  estimates_later now later s = of_last (last s.activation_idle_buffer)
    where
      of_values :
          (vs : Option (Text × Text))
          → (value_or_zero (vs >>= λ v. some (new_record later v.0 micro_watt))
              ≡ value_or_zero (vs >>= λ v. some (new_record now v.0 micro_watt)))
            × (value_or_zero (vs >>= λ v. some (new_record later v.1 micro_watt))
                ≡ value_or_zero (vs >>= λ v. some (new_record now v.1 micro_watt)))
      of_values none = (refl, refl)
      of_values (some v) = (refl, refl)

      of_last :
          (r : Option MultiValuedRecord)
          → (value_or_zero
                (r >>= λ x. first_two x.values >>= λ v. some (new_record later v.0 micro_watt))
              ≡ value_or_zero
                  (r >>= λ x. first_two x.values >>= λ v. some (new_record now v.0 micro_watt)))
            × (value_or_zero
                  (r >>= λ x. first_two x.values >>= λ v. some (new_record later v.1 micro_watt))
                ≡ value_or_zero
                    (r >>= λ x. first_two x.values >>= λ v. some (new_record now v.1 micro_watt)))
      of_last none = (refl, refl)
      of_last (some x) = of_values (first_two x.values)

  -- The record of an event, by what it depends on.
  abbrev event_record : ℕ → Bool → Bool → ℕ → ℕ → Option ℕ → Option MultiValuedRecord
  event_record now b c i a current =
      if b || c
      then (current >>= λ n. some (
          new_multi_record now
            (show (if b then lowered n i else i) ∷ show (if c then lowered n a else a) ∷ [])
            (micro_watt ∷ micro_watt ∷ [])))
      else none

  parsed_first {ℓ} :
      {A : Type ℓ} (o : Option Record) (g : ℕ → Option A)
      → (o >>= λ r. parse_u64 r.value >>= g) ≡ ((o >>= λ r. parse_u64 r.value) >>= g)
  parsed_first none g = refl
  parsed_first (some r) g = refl

  read-eq-event_record :
      (now : ℕ) (events : List CpuStateEvent) (s : CpuSocket fl)
      → read_activation_idle_record fl now events s
        ≡ event_record now
            (any is_idle events)
            (any is_activation events)
            (idle_estimate now s)
            (activation_estimate now s)
            (current_power now s)
  unfolding read_activation_idle_record
  read-eq-event_record now events s =
      ap (λ o. if any is_idle events || any is_activation events then o else none)
        (parsed_first (get_records_diff_power_microwatts fl now s) _)

  estimates_of :
      (now later : ℕ) (b c : Bool) (i a : ℕ) (current : Option ℕ) (s : CpuSocket fl)
      → idle_estimate later s ≡ i
      → activation_estimate later s ≡ a
      → i < 2 ^ 64
      → a < 2 ^ 64
      → ((n : ℕ) → current ≡ some n → n < 2 ^ 64)
      → let s' = record s {
        activation_idle_buffer =
            push_reading (event_record now b c i a current) s.activation_idle_buffer;
      } in
        (idle_estimate later s' ≡ estimate_after b current i)
        × (activation_estimate later s' ≡ estimate_after c current a)
  estimates_of now later true true i a none s ei ea hi ha h = (ei, ea)
  estimates_of now later true false i a none s ei ea hi ha h = (ei, ea)
  estimates_of now later false true i a none s ei ea hi ha h = (ei, ea)
  estimates_of now later false false i a none s ei ea hi ha h = (ei, ea)
  estimates_of now later false false i a (some n) s ei ea hi ha h = (ei, ea)
  estimates_of now later true true i a (some n) s ei ea hi ha h =
      let r =
        pushed_estimates now later (lowered n i) (lowered n a) s (lowered_lt _ n i (h n refl))
          (lowered_lt _ n a (h n refl)) in
      (r.0 ∙ lowered-eq-estimate_after n i, r.1 ∙ lowered-eq-estimate_after n a)
  estimates_of now later true false i a (some n) s ei ea hi ha h =
      let r = pushed_estimates now later (lowered n i) a s (lowered_lt _ n i (h n refl)) ha in
      (r.0 ∙ lowered-eq-estimate_after n i, r.1)
  estimates_of now later false true i a (some n) s ei ea hi ha h =
      let r = pushed_estimates now later i (lowered n a) s hi (lowered_lt _ n a (h n refl)) in
      (r.0, r.1 ∙ lowered-eq-estimate_after n a)

  current_power_lt :
      (now : ℕ) (s : CpuSocket fl) (n : ℕ) → current_power now s ≡ some n → n < 2 ^ 64
  current_power_lt now s n = of_record (get_records_diff_power_microwatts fl now s)
    where
      of_record : (o : Option Record) → (o >>= λ r. parse_u64 r.value) ≡ some n → n < 2 ^ 64
      of_record none e = cc
      of_record (some r) e = parse_unsigned_lt (2 ^ 64) n r.value e

  -- Whatever events were drained for a socket, its idle estimate afterwards is the one before, unless
  -- there is an idle event and the current power is known: then it is the current power where the
  -- estimate was 0, and else the lower of the two. Likewise for the activation estimate and the
  -- activation events; both are computed from the state before.
  pub refresh_activation_idle_records_lem :
      (now later : ℕ) (events : List CpuStateEvent) (s : CpuSocket fl)
      → let s' = refresh_activation_idle_records fl now events s in
        let current = current_power now s in
        (idle_estimate later s' ≡ estimate_after (any is_idle events) current (idle_estimate now s))
        × (activation_estimate later s'
            ≡ estimate_after (any is_activation events) current (activation_estimate now s))
  unfolding refresh_activation_idle_records
  refresh_activation_idle_records_lem now later events s =
      let same = estimates_later now later s in
      rw (read-eq-event_record now events s) (
        estimates_of now later (any is_idle events) (any is_activation events) (idle_estimate now s)
          (activation_estimate now s) (current_power now s) s same.0 same.1 (value_or_zero_lt _)
          (value_or_zero_lt _) (current_power_lt now s))
