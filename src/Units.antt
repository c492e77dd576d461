-- ===== src/Units.antt =====
-- scaphandre/src/sensors/units.rs: the units of a measure, and the conversions between the units
-- of energy and between those of power.
pub mod Conversion
mod Examples
use scaphandre.Base.{
  ℕ, suc, ◌-◌, String, Bool, str_eq, Option, none, some, List, [], ◌∷◌, ltb, if◌then◌else◌,
  map_option,
}
use scaphandre.Float.{Float}

-- `Unit`
pub data MeasureUnit : Type 0 where
  numeric joule milli_joule micro_joule mega_watt kilo_watt watt milli_watt micro_watt : MeasureUnit
  percentage bytes kilo_bytes mega_bytes giga_bytes mega_hertz micro_seconds cycles : MeasureUnit

-- `{self:?}`: the derived Debug form
unfoldable pub debug_name : MeasureUnit → String
debug_name numeric = "Numeric"
debug_name joule = "Joule"
debug_name milli_joule = "MilliJoule"
debug_name micro_joule = "MicroJoule"
debug_name mega_watt = "MegaWatt"
debug_name kilo_watt = "KiloWatt"
debug_name watt = "Watt"
debug_name milli_watt = "MilliWatt"
debug_name micro_watt = "MicroWatt"
debug_name percentage = "Percentage"
debug_name bytes = "Bytes"
debug_name kilo_bytes = "KiloBytes"
debug_name mega_bytes = "MegaBytes"
debug_name giga_bytes = "GigaBytes"
debug_name mega_hertz = "MegaHertz"
debug_name micro_seconds = "MicroSeconds"
debug_name cycles = "Cycles"

-- `impl Display`
unfoldable pub display : MeasureUnit → String
display joule = "Joules"
display milli_joule = "MilliJoules"
display micro_joule = "MicroJoules"
display milli_watt = "MilliWatts"
display micro_watt = "MicroWatts"
display watt = "Watts"
display kilo_watt = "KiloWatts"
display mega_watt = "MegaWatts"
display percentage = "Percentage"
display bytes = "Bytes"
display kilo_bytes = "KiloBytes"
display mega_bytes = "MegaBytes"
display giga_bytes = "GigaBytes"
display mega_hertz = "MegaHertz"
display micro_seconds = "MicroSeconds"
display cycles = "Cycles"
display numeric = ""

-- `impl PartialEq`: the Debug forms are compared
unfoldable pub same_unit : MeasureUnit → MeasureUnit → Bool
unfolding debug_name
same_unit a b = str_eq (debug_name a) (debug_name b)

-- `order.iter().position(|x| x == unit)`
unfoldable pub position : MeasureUnit → List MeasureUnit → Option ℕ
unfolding same_unit
position u [] = none
position u (x ∷ xs) = if same_unit x u then some 0 else map_option suc (position u xs)

abbrev energy_order : List MeasureUnit
energy_order = joule ∷ milli_joule ∷ micro_joule ∷ []

abbrev power_order : List MeasureUnit
power_order = mega_watt ∷ kilo_watt ∷ watt ∷ milli_watt ∷ micro_watt ∷ []

module _ (fl : Float) where
  open fl use {F, of_ℕ, mul, div, powf}

  -- `Unit::get_mult`
  unfoldable pub get_mult : ℕ → ℕ → F
  get_mult pos_source pos_dest =
      if ltb pos_source pos_dest
      then mul (of_ℕ 1) (powf (of_ℕ 1000) (of_ℕ (pos_dest - pos_source)))
      else if ltb pos_dest pos_source
      then div (of_ℕ 1) (powf (of_ℕ 1000) (of_ℕ (pos_source - pos_dest)))
      else of_ℕ 1

  abbrev scaled : F → Option ℕ → Option ℕ → Option F
  scaled measure none d = none
  scaled measure (some s) none = none
  scaled measure (some s) (some d) = some (mul measure (get_mult s d))

  abbrev or_else : Option F → Option F → Option F
  or_else none y = y
  or_else (some x) y = some x

  -- `Unit::to`; `none` is the panic of the last branch
  unfoldable pub to : F → MeasureUnit → MeasureUnit → Option F
  to measure source_unit dest_unit =
      or_else (scaled measure (position source_unit energy_order) (position dest_unit energy_order))
        (scaled measure (position source_unit power_order) (position dest_unit power_order))
