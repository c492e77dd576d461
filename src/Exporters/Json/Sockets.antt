-- ===== src/Exporters/Json/Sockets.antt =====
-- The sockets of the report, in `retrieve_metrics` of scaphandre/src/exporters/json.rs. The first
-- parameter stands for `f32`, and the cast of an `f64` to it is one too.
-- `Domain` and `Socket` of the report
use scaphandre.Base.{
  ℕ, String, Bool, false, str_eq, Option, none, some, List, [], ◌∷◌, ◌++◌, ◌==◌, if◌then◌else◌,
  ◌>>=◌, map_option, u16_mod,
}
use scaphandre.Exporters.Metrics.{display_value, Metric}
use scaphandre.Float.{Float}
use scaphandre.Sensor.Domain.{Domain}
use scaphandre.Sensor.Measure.{same_text, lookup}
use scaphandre.Sensor.Socket.{CpuSocket}
use scaphandre.Text.{Text, codes, parse_unsigned}

pub record DomainReport (fs fl : Float) : Type 0 where
  pub name : Text
  pub consumption : fs.F
  pub timestamp : fl.F
  pub background : Option fs.F

pub record SocketReport (fs fl : Float) : Type 0 where
  pub id : ℕ
  pub consumption : fs.F
  pub domains : List (DomainReport fs fl)
  pub timestamp : fl.F
  pub activation : Option fs.F
  pub background : Option fs.F

-- The number of the socket among the labels; `none` is the panic of `unwrap`
unfoldable pub label_id : Metric → Option ℕ
label_id m = lookup "socket_id" m.attributes >>= parse_unsigned u16_mod

unfoldable pub of_socket : String → ℕ → Metric → Option Bool
of_socket name id m =
    if str_eq m.name name then map_option (λ (n : ℕ). n == id) (label_id m) else some false

-- `find` and `filter` with a test that may panic
unfoldable pub find_metric : (Metric → Option Bool) → List Metric → Option (Option Metric)
find_metric test [] = some none
find_metric test (m ∷ ms) =
    test m >>= λ (found : Bool). if found then some (some m) else find_metric test ms

unfoldable pub filter_metrics : (Metric → Option Bool) → List Metric → Option (List Metric)
filter_metrics test [] = some []
filter_metrics test (m ∷ ms) = do
  found ← test m
  rest ← filter_metrics test ms
  some (if found then m ∷ rest else rest)

-- The first metric of the power of a socket
unfoldable pub first_socket_power : List Metric → Option Metric
first_socket_power [] = none
first_socket_power (m ∷ ms) =
    if str_eq m.name "scaph_socket_power_microwatts" then some m else first_socket_power ms

module _ (fs fl : Float) (narrow : fl.F → fs.F) where
  abbrev number_of : Metric → Option fs.F
  number_of m = fs.parse_f64 (display_value m.metric_value)

  -- A value of the socket that is left out where it is not a number
  unfoldable pub value_of_socket : String → ℕ → List Metric → Option (Option fs.F)
  value_of_socket name id metrics =
      map_option (λ (m : Option Metric). m >>= number_of) (find_metric (of_socket name id) metrics)

  unfoldable pub background_of : Text → List (Domain fl) → Option fs.F
  background_of name [] = none
  background_of name (d ∷ ds) =
      if same_text d.name name then some (narrow d.background_power_uw) else background_of name ds

  -- The domains of a socket
  unfoldable pub domain_reports :
      List (Domain fl) → List Metric → Option (List (DomainReport fs fl))
  domain_reports ds [] = some []
  domain_reports ds (m ∷ ms) = do
    domain_name ← lookup "domain_name" m.attributes
    consumption ← number_of m
    rest ← domain_reports ds ms
    some (
        record {
          name = domain_name;
          consumption = consumption;
          timestamp = fl.as_secs_f64 m.timestamp;
          background = background_of domain_name ds;
        }
        ∷ rest)

  -- The entry for the idle power, where there is a metric of it
  unfoldable pub idle_report : Option Metric → Option (List (DomainReport fs fl))
  idle_report none = some []
  idle_report (some m) =
      map_option
        (λ (consumption : fs.F).
          record {
            name = codes "idle";
            consumption = consumption;
            timestamp = fl.as_secs_f64 m.timestamp;
            background = none;
          }
          ∷ [])
        (number_of m)

  -- The report of the socket of the metric; `none` is a panic
  unfoldable pub report_of : Metric → List Metric → CpuSocket fl → Option (SocketReport fs fl)
  report_of metric metrics s = do
    socket_power ← number_of metric
    of_domains ← filter_metrics (of_socket "scaph_domain_power_microwatts" s.id) metrics
    domains ← domain_reports s.domains of_domains
    idle_metric ← find_metric (of_socket "scaph_socket_idle_power_microwatts" s.id) metrics
    of_idle ← idle_report idle_metric
    activation ← value_of_socket "scaph_socket_activation_power_microwatts" s.id metrics
    background ← value_of_socket "scaph_socket_background_power_microwatts" s.id metrics
    some record {
      id = s.id;
      consumption = socket_power;
      domains = domains ++ of_idle;
      timestamp = fl.as_secs_f64 metric.timestamp;
      activation = activation;
      background = background;
    }

  -- One socket: it has a report where the first power is its own.
  unfoldable pub socket_report :
      Option Metric → List Metric → CpuSocket fl → Option (List (SocketReport fs fl))
  socket_report none metrics s = some []
  socket_report (some metric) metrics s = label_id metric >>= λ (id : ℕ).
      if s.id == id
      then map_option (λ (r : SocketReport fs fl). r ∷ []) (report_of metric metrics s)
      else some []

  unfoldable pub socket_reports :
      Option Metric → List Metric → List (CpuSocket fl) → Option (List (SocketReport fs fl))
  socket_reports found metrics [] = some []
  socket_reports found metrics (s ∷ ss) = do
    first ← socket_report found metrics s
    rest ← socket_reports found metrics ss
    some (first ++ rest)

  -- The sockets of the report; `none` is a panic
  unfoldable pub all_sockets :
      List Metric → List (CpuSocket fl) → Option (List (SocketReport fs fl))
  all_sockets metrics ss = socket_reports (first_socket_power metrics) metrics ss
