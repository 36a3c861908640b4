-- ===== src/Server/PolicyApi.antt =====
-- handlers.go: `handleGetPolicy` and `handleUpdatePolicy` with its checks.
pub mod Valid
use ovro.Prelude.{String, ◌||◌, Option, none, some, ok, err, if◌then◌else◌}
use ovro.Prelude.Int.{pos, ltb_ℤ, leb_ℤ}
use ovro.Types.Policy.{PolicySpec, default_policy_spec}
use ovro.Platform.{found, not_found, unavailable, Platform}
use ovro.Server.{Response, http_error, write_json, policy}

-- The first check that fails, as the message of the response.
unfoldable pub policy_error : PolicySpec → Option String
policy_error p =
    if leb_ℤ p.lookback_days (pos 0) || ltb_ℤ (pos 365) p.lookback_days
    then some "lookbackDays must be between 1 and 365"
    else if ltb_ℤ p.algorithm.percentile (pos 1) || ltb_ℤ (pos 100) p.algorithm.percentile
    then some "percentile must be between 1 and 100"
    else if ltb_ℤ p.algorithm.headroom_percent (pos 0)
    then some "headroomPercent must be non-negative"
    else if ltb_ℤ p.thresholds.min_cpu_savings (pos 0)
    then some "minCpuSavings must be non-negative"
    else if ltb_ℤ p.thresholds.upsize_utilization_percent (pos 1)
        || ltb_ℤ (pos 100) p.thresholds.upsize_utilization_percent
    then some "upsizeUtilizationPercent must be between 1 and 100"
    else if leb_ℤ p.reconcile_interval_minutes (pos 0)
    then some "reconcileIntervalMinutes must be greater than 0"
    else if leb_ℤ p.revert_retention_days (pos 0)
    then some "revertRetentionDays must be greater than 0"
    else none

module _ {F : Type 0} (P : Platform F) where
  -- Any error of the read gives the defaults.
  unfoldable pub handle_get_policy : P.World → Response F
  handle_get_policy w = elim (P.get_policy w) [
    | found p ↦ write_json (policy p)
    | not_found ↦ write_json (policy default_policy_spec)
    | unavailable e ↦ write_json (policy default_policy_spec)
  ]

  -- The write of a policy that has passed the checks.
  unfoldable pub store_policy : PolicySpec → P.World → Response F × P.World
  store_policy p w = elim (P.get_policy w) [
    | not_found ↦ (http_error 404 "policy not found", w)
    | unavailable e ↦ (http_error 404 "policy not found", w)
    | found old ↦
        let (r, w') = P.update_policy p w in
        elim r [
          | err e ↦ (http_error 500 "internal server error", w')
          | ok stored ↦ (write_json (policy stored), w')
        ]
  ]

  unfoldable pub handle_update_policy : Option PolicySpec → P.World → Response F × P.World
  unfolding policy_error store_policy
  handle_update_policy body w = elim body [
    | none ↦ (http_error 400 "invalid request body", w)
    | some p ↦ elim (policy_error p) [
      | some text ↦ (http_error 400 text, w)
      | none ↦ store_policy p w
    ]
  ]
