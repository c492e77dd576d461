-- ===== src/Sensor/Measure/Energy.antt =====
-- The energy between two readings of a counter that wraps behind its greatest value.
use native.Mathlib.Nat.{mod-lt, mod-eq_of_lt, mod-add-mod, mod-eq-sub-mod}
use scaphandre.Base.{ℕ, ◌+◌, ◌-◌, ◌%◌, ◌^◌, ◌≤◌, ◌<◌, ◌≡◌, ◌∙◌, arith, ltb, if◌then◌else◌}
use scaphandre.Sensor.Measure.{energy_between}

-- A sum below twice the modulus.
mod_of_sum :
    (m r d : ℕ) → r < m → d < m → (r + d) % m ≡ (if ltb (r + d) m then r + d else r + d - m)
mod_of_sum m r d hr hd = ground (arith, below, above)
  where
    below : r + d < m → (r + d) % m ≡ r + d
    below h = mod-eq_of_lt h

    above : m ≤ r + d → (r + d) % m ≡ r + d - m
    above h = mod-eq-sub-mod h ∙ mod-eq_of_lt (omega arith)

-- What is seen of the energy that was used since a counter stood at `start`, where it counts from 0 to
-- its greatest value and then starts again: all of it, and one less over a wrap.
abbrev pub seen_energy : ℕ → ℕ → ℕ → ℕ
seen_energy rapl_max_uj start used =
    if ltb (start % (rapl_max_uj + 1) + used) (rapl_max_uj + 1) then used else used - 1

energy_between_wrapped :
    (m r d : ℕ)
    → r < m + 1
    → d < m + 1
    → m < 2 ^ 64
    → energy_between m ((r + d) % (m + 1)) r ≡ (if ltb (r + d) (m + 1) then d else d - 1)
unfolding energy_between
energy_between_wrapped m r d hr hd hm = rw (mod_of_sum (m + 1) r d hr hd) (ground arith)

-- Between a reading of such a counter and one taken before it has come round to it, the code computes
-- the energy that is seen.
pub energy_between-seen :
    (rapl_max_uj start used : ℕ)
    → used ≤ rapl_max_uj
    → rapl_max_uj < 2 ^ 64
    → energy_between rapl_max_uj ((start + used) % (rapl_max_uj + 1)) (start % (rapl_max_uj + 1))
      ≡ seen_energy rapl_max_uj start used
energy_between-seen m start used h w =
    rw (← mod-add-mod start (m + 1) used)
      (energy_between_wrapped m (start % (m + 1)) used (mod-lt start (omega arith)) (omega arith) w)
