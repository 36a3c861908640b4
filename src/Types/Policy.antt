-- ===== src/Types/Policy.antt =====
-- The policy: rightsizingpolicy_types.go, and the defaults of defaults.go.
use ovro.Prelude.{String, Bool, false}
use ovro.Prelude.Int.{ℤ, pos}
use ovro.Types.{Quantity, gi}

pub record AlgorithmSpec : Type 0 where
  pub percentile : ℤ
  pub headroom_percent : ℤ

pub record ThresholdsSpec : Type 0 where
  pub min_cpu_savings : ℤ
  pub min_memory_savings : Quantity
  pub upsize_utilization_percent : ℤ

pub record AutoModeSpec : Type 0 where
  pub enabled : Bool
  pub schedule : String

pub record MetricsStorageSpec : Type 0 where
  pub retention_days : ℤ
  pub storage_size : Quantity

pub record PolicySpec : Type 0 where
  pub lookback_days : ℤ
  pub algorithm : AlgorithmSpec
  pub thresholds : ThresholdsSpec
  pub revert_retention_days : ℤ
  pub auto_mode : AutoModeSpec
  pub reconcile_interval_minutes : ℤ
  pub metrics_storage : MetricsStorageSpec

-- The texts "1Gi" and "50Gi" of the source are `gi` of their numbers.
abbrev pub default_policy_spec : PolicySpec
default_policy_spec = record {
  lookback_days = pos 30;
  algorithm = record { percentile = pos 95; headroom_percent = pos 20 };
  thresholds = record {
    min_cpu_savings = pos 1;
    min_memory_savings = gi (pos 1);
    upsize_utilization_percent = pos 90;
  };
  revert_retention_days = pos 30;
  auto_mode = record { enabled = false; schedule = "0 2 * * *" };
  reconcile_interval_minutes = pos 60;
  metrics_storage = record { retention_days = pos 90; storage_size = gi (pos 50) };
}
