-- ===== src/Sensor/Measure/Keys.antt =====
-- Lookups in the maps of sensor data.
use text.Mathlib.TextEquality.{eq_iff}
use scaphandre.Base.{String, ◌≡◌, refl, false, str_eq, [], ◌∷◌, arith}
use scaphandre.Sensor.Measure.{SensorData, lookup, insert}
use scaphandre.Text.{Text}

-- An entry of another key is not in the way.
pub lookup-insert_other :
    (j k : String) (v : Text) (m : SensorData)
    → str_eq k j ≡ false
    → lookup j (insert k v m) ≡ lookup j m
unfolding lookup insert
lookup-insert_other j k v [] ne = rw ne refl
lookup-insert_other j k v ((i, w) ∷ m) ne = grind (arith, eq_iff, lookup-insert_other j k v m ne)
