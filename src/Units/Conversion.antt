-- ===== src/Units/Conversion.antt =====
-- `Unit::to` against a description of the units: a dimension, and a power of 1000 below the largest.
use scaphandre.Base.{ℕ, ◌-◌, ◌≡◌, refl, Option, none, some, arith, ltb, ◌==◌, if◌then◌else◌}
use scaphandre.Float.{Float}
use scaphandre.Units.{
  MeasureUnit, joule, milli_joule, micro_joule, mega_watt, kilo_watt, watt, milli_watt, micro_watt,
  position, energy_order, power_order, get_mult, scaled, or_else, to,
}

pub data Dimension : Type 0 where
  energy power : Dimension

-- The powers of 1000 from the largest unit of the dimension that is listed.
abbrev rank : MeasureUnit → Option (Dimension × ℕ)
rank joule = some (energy, 0)
rank milli_joule = some (energy, 1)
rank micro_joule = some (energy, 2)
rank mega_watt = some (power, 0)
rank kilo_watt = some (power, 1)
rank watt = some (power, 2)
rank milli_watt = some (power, 3)
rank micro_watt = some (power, 4)
rank _ = none

abbrev energy_rank : Option (Dimension × ℕ) → Option ℕ
energy_rank none = none
energy_rank (some (energy, n)) = some n
energy_rank (some (power, n)) = none

abbrev power_rank : Option (Dimension × ℕ) → Option ℕ
power_rank none = none
power_rank (some (energy, n)) = none
power_rank (some (power, n)) = some n

position-energy_order : (u : MeasureUnit) → position u energy_order ≡ energy_rank (rank u)
unfolding position
position-energy_order joule = refl
position-energy_order _ = refl

position-power_order : (u : MeasureUnit) → position u power_order ≡ power_rank (rank u)
unfolding position
position-power_order joule = refl
position-power_order _ = refl

module _ (fl : Float) where
  open fl use {F, of_ℕ, mul, div, powf}

  -- One unit of the rank s, in units of the rank d.
  abbrev factor : ℕ → ℕ → F
  factor s d =
      if s == d
      then of_ℕ 1
      else if ltb s d
      then mul (of_ℕ 1) (powf (of_ℕ 1000) (of_ℕ (d - s)))
      else div (of_ℕ 1) (powf (of_ℕ 1000) (of_ℕ (s - d)))

  abbrev converted : F → Option (Dimension × ℕ) → Option (Dimension × ℕ) → Option F
  converted m (some (energy, s)) (some (energy, d)) = some (mul m (factor s d))
  converted m (some (power, s)) (some (power, d)) = some (mul m (factor s d))
  converted m _ _ = none

  get_mult-eq-factor : (s d : ℕ) → get_mult fl s d ≡ factor s d
  unfolding get_mult
  get_mult-eq-factor s d = ground arith

  to_ranks :
      (m : F) (s d : Option (Dimension × ℕ))
      → or_else fl
          (scaled fl m (energy_rank s) (energy_rank d))
          (scaled fl m (power_rank s) (power_rank d))
        ≡ converted m s d
  to_ranks m none none = refl
  to_ranks m none (some (energy, d)) = refl
  to_ranks m none (some (power, d)) = refl
  to_ranks m (some (energy, s)) none = refl
  to_ranks m (some (power, s)) none = refl
  to_ranks m (some (energy, s)) (some (power, d)) = refl
  to_ranks m (some (power, s)) (some (energy, d)) = refl
  to_ranks m (some (energy, s)) (some (energy, d)) = rw (get_mult-eq-factor s d)
  to_ranks m (some (power, s)) (some (power, d)) = rw (get_mult-eq-factor s d)

  -- The conversion of a measure panics exactly where the two units are not both units of energy or
  -- both units of power in the list; else it multiplies by 1000 to the number of steps from the
  -- source unit down to the destination unit, or divides where the destination is the larger.
  pub to-by_rank : (m : F) (s d : MeasureUnit) → to fl m s d ≡ converted m (rank s) (rank d)
  unfolding to
  to-by_rank m s d =
      rw (position-energy_order s, position-energy_order d)
        (rw (position-power_order s, position-power_order d) (to_ranks m (rank s) (rank d)))
