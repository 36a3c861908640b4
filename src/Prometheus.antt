-- ===== src/Prometheus.antt =====
-- internal/prometheus/client.go: the queries for a VM's or a container's samples, and what is
-- computed of them. The HTTP client, the JSON decoder and the encoding of an URL are parameters.
use ovro.Prometheus.Queries.{
  memory_resident_query, container_memory_query, cpu_usage_query, container_cpu_query,
}
use ovro.Calculator.Percentile.{compute_percentile}
use ovro.Types.{Labels}
use ovro.Floats.{Floats}
use ovro.Prelude.{
  ◌==◌, not, length, ok, none, map, [], ◌∷◌, ◌<>◌, some, if◌then◌else◌, err, ℕ, Result, Option,
  List, String,
}
use ovro.Prelude.Int.{ℤ, pos}
pub mod Queries
pub mod Setup
pub mod Samples

-- The elements of a pair of `values`, as `interface{}`: only texts are told apart.
pub data Scalar : Type 0 where
  text : String → Scalar
  other : Scalar

pub record Series : Type 0 where
  pub metric : Labels
  pub values : List (List Scalar)

-- The part of the decoded response that the code reads.
pub record PrometheusResponse : Type 0 where
  pub result : List Series

pub record PrometheusAnswer : Type 0 where
  pub status : ℕ
  pub body : String
  pub decoded : Result PrometheusResponse

-- A client of a server: a GET of an URL with a bearer token, empty for none.
pub record Client (W : Type 0) : Type 0 where
  pub base_url : String
  pub bearer_token : String
  pub get : String → String → W → Result PrometheusAnswer
  -- `url.Values{"query": …}.Encode()`.
  pub encode_query : String → String

pub record VmMetricSample (F : Type 0) : Type 0 where
  pub vm_name : String
  pub namespace : String
  pub values : List F

pub record VmMetrics (F : Type 0) : Type 0 where
  pub cpu_samples : List F
  pub memory_samples : List F

-- `prometheus.VMUtilization`.
pub record Utilization (F : Type 0) : Type 0 where
  pub cpu_p95_percent : F
  pub memory_p95_percent : F
  pub cpu_max_percent : F
  pub memory_max_percent : F
  pub data_points : ℤ

-- `m[key]` of a map of texts.
abbrev pub text_of : Option String → String
text_of none = ""
text_of (some s) = s

module _ (Fl : Floats) where
  open Fl use {F}

  -- `v[1].(string)` and `ParseFloat`; a value of another shape is left out.
  unfoldable pub parse_value : List Scalar → Option F
  parse_value (time ∷ text value ∷ rest) = Fl.parse_float value
  parse_value _ = none

  unfoldable pub parse_values : List (List Scalar) → List F
  unfolding parse_value
  parse_values [] = []
  parse_values (v ∷ vs) =
      let rest = parse_values vs in elim (parse_value v) [ none ↦ rest | some x ↦ x ∷ rest ]

  unfoldable pub parse_series : Series → VmMetricSample F
  unfolding parse_values
  parse_series s = record {
    vm_name = text_of (s.metric "name");
    namespace = text_of (s.metric "namespace");
    values = parse_values s.values;
  }

  -- `samples[0].Values`, or none.
  abbrev pub first_values : List (VmMetricSample F) → List F
  first_values [] = []
  first_values (s ∷ samples) = s.values

  module _ (show : ℤ → String) {W : Type 0} (c : Client W) where
    unfoldable pub query_range : String → W → Result (List (VmMetricSample F))
    unfolding parse_series
    query_range query w =
        elim (c.get (c.base_url <> "/api/v1/query?" <> c.encode_query query) c.bearer_token w) [
          | err e ↦ err ("executing query: " <> e)
          | ok answer ↦
              if not (answer.status == 200)
              then err
                  ("prometheus returned status " <> show (pos answer.status) <> ": " <> answer.body)
              else elim answer.decoded [
                | err e ↦ err ("decoding response: " <> e)
                | ok response ↦ ok (map parse_series response.result)
              ]
        ]

    -- Two queries, the second only if the first succeeds.
    unfoldable pub query_both : String → String → String → String → W → Result (VmMetrics F)
    unfolding query_range
    query_both cpu_query cpu_error memory_query memory_error w = elim (query_range cpu_query w) [
      | err e ↦ err (cpu_error <> e)
      | ok cpu ↦ elim (query_range memory_query w) [
        | err e ↦ err (memory_error <> e)
        | ok memory ↦
            ok (record { cpu_samples = first_values cpu; memory_samples = first_values memory })
      ]
    ]

    unfoldable pub get_vm_metrics : String → String → ℤ → W → Result (VmMetrics F)
    unfolding query_both
    get_vm_metrics vm_name namespace lookback_days w =
        let lookback = show lookback_days <> "d" in
        query_both (cpu_usage_query vm_name namespace lookback) "querying CPU metrics: "
          (memory_resident_query vm_name namespace lookback) "querying memory metrics: " w

    unfoldable pub get_container_metrics : String → String → ℤ → W → Result (VmMetrics F)
    unfolding query_both
    get_container_metrics container namespace lookback_days w =
        let lookback = show lookback_days <> "d" in
        query_both (container_cpu_query container namespace lookback)
          "querying container CPU metrics: " (container_memory_query container namespace lookback)
          "querying container memory metrics: " w

  -- A total that is not positive leaves the samples as they are.
  unfoldable pub to_percent : List F → F → List F
  to_percent samples total =
      if Fl.at_most total (Fl.of_int (pos 0))
      then samples
      else map (λ v. Fl.mul (Fl.div v total) (Fl.of_int (pos 100))) samples

  -- The loop over the values after the first.
  unfoldable pub max_from : F → List F → F
  max_from max [] = max
  max_from max (v ∷ values) = max_from (if Fl.less max v then v else max) values

  unfoldable pub max_value : List F → F
  unfolding max_from
  max_value [] = Fl.of_int (pos 0)
  max_value (v ∷ values) = max_from v values

  -- The summary of two lists of percentages; `none` is a panic of `ComputePercentile`.
  unfoldable pub summarise : List F → List F → ℕ → Option (Utilization F)
  unfolding max_value
  summarise cpu memory data_points = elim (compute_percentile Fl cpu (pos 95)) [
    | none ↦ none
    | some cpu_p95 ↦ elim (compute_percentile Fl memory (pos 95)) [
      | none ↦ none
      | some memory_p95 ↦ some (record {
        cpu_p95_percent = cpu_p95;
        memory_p95_percent = memory_p95;
        cpu_max_percent = max_value cpu;
        memory_max_percent = max_value memory;
        data_points = pos data_points;
      })
    ]
  ]

  module _ (show : ℤ → String) {W : Type 0} (c : Client W) where
    unfoldable pub get_vm_utilization :
        String → String → ℤ → ℤ → ℤ → W → Option (Result (Utilization F))
    unfolding get_vm_metrics to_percent summarise
    get_vm_utilization vm_name namespace lookback_days cpu_cores memory_bytes w =
        elim (get_vm_metrics show c vm_name namespace lookback_days w) [
          | err e ↦ some (err ("fetching VM metrics: " <> e))
          | ok m ↦
              elim (summarise (to_percent m.cpu_samples (Fl.of_int cpu_cores))
                (to_percent m.memory_samples (Fl.of_int memory_bytes)) (length m.cpu_samples)) [
                  | none ↦ none
                  | some u ↦ some (ok u)
                ]
        ]

    unfoldable pub get_container_utilization :
        String → String → ℤ → W → Option (Result (Utilization F))
    unfolding get_container_metrics summarise
    get_container_utilization container namespace lookback_days w =
        elim (get_container_metrics show c container namespace lookback_days w) [
          | err e ↦ some (err ("fetching container metrics: " <> e))
          | ok m ↦ elim (summarise m.cpu_samples m.memory_samples (length m.cpu_samples)) [
            | none ↦ none
            | some u ↦ some (ok u)
          ]
        ]
