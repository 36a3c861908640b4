-- ===== src/Server/PolicyApi/Valid.antt =====
-- What the checks of a policy accept.
use ovro.Prelude.Int.{◌≤ℤ◌, pos}
use ovro.Server.PolicyApi.{store_policy, handle_update_policy, policy_error}
use ovro.Types.Policy.{PolicySpec}
use ovro.Platform.{Platform}
use ovro.Prelude.{inr, inl, Option-cases, ◌<◌, arith, some, none, ◌≡◌, refl}

-- The documented ranges of a policy's fields.
pub record IsValidPolicy (p : PolicySpec) : Type 0 where
  pub lookback_from : pos 1 ≤ℤ p.lookback_days
  pub lookback_to : p.lookback_days ≤ℤ pos 365
  pub percentile_from : pos 1 ≤ℤ p.algorithm.percentile
  pub percentile_to : p.algorithm.percentile ≤ℤ pos 100
  pub headroom_from : pos 0 ≤ℤ p.algorithm.headroom_percent
  pub savings_from : pos 0 ≤ℤ p.thresholds.min_cpu_savings
  pub threshold_from : pos 1 ≤ℤ p.thresholds.upsize_utilization_percent
  pub threshold_to : p.thresholds.upsize_utilization_percent ≤ℤ pos 100
  pub interval_from : pos 1 ≤ℤ p.reconcile_interval_minutes
  pub retention_from : pos 1 ≤ℤ p.revert_retention_days

pub policy_error_valid : (p : PolicySpec) → policy_error p ≡ none → IsValidPolicy p
unfolding policy_error
policy_error_valid p h = ground arith

pub valid-policy_error : (p : PolicySpec) → IsValidPolicy p → policy_error p ≡ none
unfolding policy_error
valid-policy_error p v = ground arith

module _ {F : Type 0} (P : Platform F) where
  -- An update that is answered with a success is that of a policy with every field in its range, and
  -- the world is then the one that its write leaves.
  pub handle_update_policy_success :
      (p : PolicySpec) (w : P.World)
      → (handle_update_policy P (some p) w).0.code < 300
      → IsValidPolicy p × ((handle_update_policy P (some p) w).1 ≡ (P.update_policy p w).1)
  unfolding handle_update_policy store_policy
  handle_update_policy_success p w h = elim (Option-cases (policy_error p)) [
    | inl e ↦ (policy_error_valid p e, ground arith)
    | inr (text, e) ↦ absurd (ground arith)
  ]

  -- A policy with a field out of its range is refused with 400 and changes nothing.
  pub handle_update_policy_refusal :
      (p : PolicySpec) (w : P.World)
      → ¬ IsValidPolicy p
      → ((handle_update_policy P (some p) w).0.code ≡ 400)
        × ((handle_update_policy P (some p) w).1 ≡ w)
  unfolding handle_update_policy
  handle_update_policy_refusal p w n = elim (Option-cases (policy_error p)) [
    | inl e ↦ absurd (n (policy_error_valid p e))
    | inr (text, e) ↦ rw (e, handle_update_policy) (refl, refl)
  ]
