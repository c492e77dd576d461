-- ===== src/Exporters/Metrics.antt =====
-- `MetricGenerator` of scaphandre/src/exporters/mod.rs, built without the feature for containers: the
-- metrics that the exporters send, made out of the topology.
pub mod Sockets
pub mod Processes
pub mod Labels
pub mod Popped
pub mod Host
pub mod Own
pub mod All
pub mod Complete
pub mod Total
use scaphandre.Base.{
  ℕ, zero, suc, String, Bool, Option, none, some, List, [], ◌∷◌, ◌++◌, length, last, pop,
}
use scaphandre.Float.{Float}
use scaphandre.Sensor.Measure.{Record, SensorData}
use scaphandre.Text.{Text, show}
use scaphandre.Topology.{Topology}

-- `MetricValueType`
pub data MetricValueType : Type 0 where
  text_value : Text → MetricValueType
  int_unsigned : ℕ → MetricValueType

-- `Display for MetricValueType`
unfoldable pub display_value : MetricValueType → Text
display_value (text_value t) = t
display_value (int_unsigned n) = show n

-- `Metric`; the time to live is a whole number of seconds in all metrics
pub record Metric : Type 0 where
  pub name : String
  pub metric_type : String
  pub ttl : ℕ
  pub hostname : Text
  pub state : String
  pub tags : List String
  pub attributes : SensorData
  pub description : Text
  pub metric_value : MetricValueType
  pub timestamp : ℕ

-- A metric, with what is the same in all of them
abbrev pub metric_of : Text → String → String → ℕ → SensorData → Text → MetricValueType → Metric
metric_of hostname name metric_type timestamp attributes description metric_value = record {
  name = name;
  metric_type = metric_type;
  ttl = 60;
  hostname = hostname;
  state = "ok";
  tags = "scaphandre" ∷ [];
  attributes = attributes;
  description = description;
  metric_value = metric_value;
  timestamp = timestamp;
}

-- `if let Some(record)`: a metric with its time and its value
unfoldable pub metric_if : Option Record → Text → String → String → SensorData → Text → List Metric
metric_if none hostname name metric_type attributes description = []
metric_if (some r) hostname name metric_type attributes description =
    metric_of hostname name metric_type r.timestamp attributes description (text_value r.value) ∷ []

-- The loop of `pop_metrics`: the last metric is taken and pushed while there is one. What is popped, and
-- what is left after the rounds
unfoldable pub pop_each : ℕ → List Metric → List Metric → List Metric × List Metric
pop_each zero metrics res = (res, metrics)
pop_each (suc rounds) metrics res = elim (last metrics) [
  | none ↦ (res, metrics)
  | some m ↦ pop_each rounds (pop metrics) (res ++ m ∷ [])
]

-- `MetricGenerator`
pub record MetricGenerator (fs fl : Float) : Type 0 where
  pub data_pushed : List Metric
  pub topology : Topology fs fl
  pub hostname : Text
  pub qemu : Bool

module _ (fs fl : Float) where
  -- `new`
  unfoldable pub new_generator : Topology fs fl → Text → Bool → MetricGenerator fs fl
  new_generator topology hostname qemu = record {
    data_pushed = [];
    topology = topology;
    hostname = hostname;
    qemu = qemu;
  }

  -- Metrics are pushed at the end, one after the other.
  abbrev pub push_all : List Metric → MetricGenerator fs fl → MetricGenerator fs fl
  push_all metrics g = record g { data_pushed = g.data_pushed ++ metrics }

  -- `pop_metrics`: what it returns, and the generator that is left
  unfoldable pub pop_metrics : MetricGenerator fs fl → List Metric × MetricGenerator fs fl
  pop_metrics g =
      let popped = pop_each (length g.data_pushed) g.data_pushed [] in
      (popped.0, record g { data_pushed = popped.1 })
