-- ===== src/Sensor/Measure.antt =====
-- `Record`, `MultiValuedRecord`, the maps of sensor data, and what the measuring code does with two
-- readings of a counter. A timestamp, a `Duration`, is its number of nanoseconds.
pub mod Energy
pub mod Keys
use scaphandre.Base.{
  ℕ, ◌-◌, String, ◌≡◌, Bool, true, false, str_eq, ◌&&◌, Option, none, some, List, [], ◌∷◌, leb,
  ◌==◌, if◌then◌else◌, ◌>>=◌, unwrap_or, last, before_last, u64_mod, saturating_sub, saturating_add,
}
use scaphandre.Float.{Float}
use scaphandre.Text.{Text, trim, show, parse_u64}
use scaphandre.Units.{MeasureUnit, micro_watt}

pub record Record : Type 0 where
  pub timestamp : ℕ
  pub value : Text
  pub unit : MeasureUnit

-- `Record::new`
abbrev pub new_record : ℕ → Text → MeasureUnit → Record
new_record timestamp value unit = record { timestamp = timestamp; value = value; unit = unit }

pub record MultiValuedRecord : Type 0 where
  pub timestamp : ℕ
  pub values : List Text
  pub units : List MeasureUnit

-- `MultiValuedRecord::new`
abbrev pub new_multi_record : ℕ → List Text → List MeasureUnit → MultiValuedRecord
new_multi_record timestamp values units = record {
  timestamp = timestamp;
  values = values;
  units = units;
}

-- `==` of two strings
unfoldable pub same_text : Text → Text → Bool
same_text [] [] = true
same_text [] (d ∷ u) = false
same_text (c ∷ t) [] = false
same_text (c ∷ t) (d ∷ u) = c == d && same_text t u

-- `HashMap<String, String>`: the code looks keys up and inserts them.
abbrev pub SensorData : Type 0
SensorData = List (String × Text)

unfoldable pub lookup : String → SensorData → Option Text
lookup k [] = none
lookup k ((j, v) ∷ m) = if str_eq j k then some v else lookup k m

unfoldable pub insert : String → Text → SensorData → SensorData
insert k v [] = (k, v) ∷ []
insert k v ((j, w) ∷ m) = if str_eq j k then (k, v) ∷ m else (j, w) ∷ insert k v m

-- `fs::read_to_string` while an operation runs: the content of the file at a path, or an error.
abbrev pub Files : Type 0
Files = Text → Option Text

-- `if buffer.len() > 1`, with the two reads behind it: the last element and the one before.
abbrev pub last_two {ℓ} : {A : Type ℓ} → List A → Option (A × A)
last_two [] = none
last_two (x ∷ []) = none
last_two (x ∷ y ∷ []) = some (y, x)
last_two (x ∷ y ∷ z ∷ xs) = last_two (y ∷ z ∷ xs)

pub last_two-of_ends {ℓ} :
    {A : Type ℓ} (xs : List A) {x y : A}
    → last xs ≡ some y
    → before_last xs ≡ some x
    → last_two xs ≡ some (y, x)
last_two-of_ends [] l b = cc
last_two-of_ends (x ∷ []) l b = cc
last_two-of_ends (x ∷ y ∷ []) l b = cc
last_two-of_ends (x ∷ y ∷ z ∷ xs) l b = last_two-of_ends (y ∷ z ∷ xs) l b

-- `sensor_data.get("max_energy_range_uj")`, read as `u64`, with `u64::MAX` where there is none
unfoldable pub max_energy_range : SensorData → ℕ
max_energy_range sensor_data =
    unwrap_or (u64_mod - 1) (lookup "max_energy_range_uj" sensor_data >>= λ v. parse_u64 (trim v))

-- The energy between two readings of a counter of the greatest value `rapl_max_uj`
unfoldable pub energy_between : ℕ → ℕ → ℕ → ℕ
energy_between rapl_max_uj last_microjoules previous_microjoules =
    if leb previous_microjoules last_microjoules
    then saturating_sub last_microjoules previous_microjoules
    else saturating_add u64_mod (saturating_sub rapl_max_uj previous_microjoules) last_microjoules

module _ (fl : Float) where
  open fl use {of_ℕ, as_secs_f64, sub, div, to_u64}

  -- `(microjoules as f64 / time_diff) as u64`
  unfoldable pub microwatts : ℕ → ℕ → ℕ → ℕ
  microwatts microjoules last_time previous_time =
      to_u64 (div (of_ℕ microjoules) (sub (as_secs_f64 last_time) (as_secs_f64 previous_time)))

  -- The power between the last two records of a buffer whose counter has the greatest value
  -- `rapl_max_uj`, less the background power
  unfoldable pub diff_power : ℕ → ℕ → List Record → Option Record
  diff_power rapl_max_uj background buffer = do
    (last_record, previous_record) ← last_two buffer
    last_microjoules ← parse_u64 (trim last_record.value)
    previous_microjoules ← parse_u64 (trim previous_record.value)
    some (
        new_record last_record.timestamp
          (show (
            saturating_sub
              (microwatts (energy_between rapl_max_uj last_microjoules previous_microjoules)
                last_record.timestamp previous_record.timestamp)
              background))
          micro_watt)
