-- ===== src/Tests/Handlers.antt =====
-- Requests to the API server, and reconciliations.
use ovro.Server.Outcomes.Owned.{handle_apply-IsAsked, IsAsked}
use ovro.Server.Middleware.Paths.{
  console_path, IsRead, extract_namespace_from_path_lem, under, lacks,
}
use ovro.Server.Outcomes.Once.{owner_approve_once}
use ovro.Server.Outcomes.{handle_apply_success, IsHandled}
use ovro.Controller.Restart.Safety.{reconcile_restart-IsDue, IsDue}
use ovro.Server.Lifecycle.Applying.{handle_apply-Evolves}
use ovro.Prelude.Int.{pos, ℤ}
use ovro.Tests.{
  mail, shrink_web, manager, exclude_it, server, at_once, web, plain_jwt, with_waiting,
  with_pending, with_due,
}
use ovro.Server.Apply.{handle_apply}
use ovro.Owner.{resolve_owner}
use ovro.Controller.Restart.{reconcile_restart}
use ovro.Platform.Memory.{Cluster, memory, memory-IsLawful}
use ovro.Server.PolicyApi.{handle_update_policy}
use ovro.Server.Decide.{handle_reject, handle_owner_reject, handle_owner_approve}
use ovro.Server.{UserInfo, Response}
use ovro.Types.{pending, Time, RecommendationStatus, Recommendation}
use ovro.Types.Policy.{default_policy_spec, PolicySpec}
use ovro.Server.PolicyApi.Valid.{
  handle_update_policy_success, handle_update_policy_refusal, IsValidPolicy,
}
use ovro.Lifecycle.{Evolves}
use ovro.Prelude.{[], ◌∷◌, ◌≤◌, ◌≢◌, ◌≡◌, some, arith, refl}

abbrev applied : Response ℤ × Cluster ℤ
applied = handle_apply memory plain_jwt server "shop" "web" (some at_once) with_pending

abbrev approved : Response ℤ × Cluster ℤ
approved = handle_owner_approve memory "ann" "shop" "web" (some at_once) with_waiting

abbrev policy_out_of_range : PolicySpec
policy_out_of_range = record default_policy_spec { lookback_days = pos 400 }

handle_apply-Evolves_example :
    Evolves
      (memory.now with_pending)
      3
      4
      (memory-IsLawful.objects with_pending)
      (memory-IsLawful.objects applied.1)
unfolding memory-IsLawful
handle_apply-Evolves_example =
    handle_apply-Evolves memory memory-IsLawful plain_jwt server "shop" "web" (some at_once)
      with_pending (λ n w. refl, tt)

handle_apply_success_example :
    (rec : Recommendation ℤ) × (u : RecommendationStatus) × (memory-IsLawful.objects with_pending
        web
      ≡ some rec)
    × (rec.status.state ≡ pending)
    × (memory-IsLawful.objects applied.1 web ≡ some (record rec { status = u }))
    × IsHandled rec u
unfolding memory-IsLawful handle_apply resolve_owner ovro.Token.generate_token
handle_apply_success_example =
    handle_apply_success memory memory-IsLawful plain_jwt server "shop" "web" (some at_once)
      with_pending (λ n w. refl, tt) (omega arith)

owner_approve_once_example :
    ((handle_owner_approve memory "bob" "shop" "web" (some at_once) approved.1).1 ≡ approved.1)
    × (400 ≤ (handle_owner_approve memory "bob" "shop" "web" (some at_once) approved.1).0.code)
    × ((handle_owner_reject memory server "bob" "shop" "web" (some exclude_it) approved.1).1
        ≡ approved.1)
    × (400
        ≤ (handle_owner_reject memory server "bob" "shop" "web"
            (some exclude_it)
            approved.1).0.code)
unfolding handle_owner_approve
owner_approve_once_example =
    owner_approve_once memory memory-IsLawful server "ann" "bob" "shop" "web" (some at_once)
      (some at_once) (some exclude_it) with_waiting approved.1 (omega arith) refl

restarts_it : (reconcile_restart memory web with_due).1 ≢ with_due
unfolding reconcile_restart
restarts_it e = cc

reconcile_restart-IsDue_example :
    (rec : Recommendation ℤ) × (scheduled : Time) × IsDue memory web with_due rec scheduled
reconcile_restart-IsDue_example = reconcile_restart-IsDue memory web with_due restarts_it

handle_update_policy_success_example :
    IsValidPolicy default_policy_spec
    × ((handle_update_policy (memory {F = ℤ}) (some default_policy_spec) with_pending).1
        ≡ (memory.update_policy default_policy_spec with_pending).1)
unfolding handle_update_policy
handle_update_policy_success_example =
    handle_update_policy_success memory default_policy_spec with_pending (omega arith)

refuses_it : ¬ IsValidPolicy policy_out_of_range
refuses_it v = ground (arith, v.lookback_to)

handle_update_policy_refusal_example :
    ((handle_update_policy memory (some policy_out_of_range) with_pending).0.code ≡ 400)
    × ((handle_update_policy memory (some policy_out_of_range) with_pending).1 ≡ with_pending)
handle_update_policy_refusal_example =
    handle_update_policy_refusal memory policy_out_of_range with_pending refuses_it

abbrev reject_it : UserInfo → Cluster ℤ → Response ℤ × Cluster ℤ
reject_it user = handle_reject memory user "shop" "web" (some (record { reason = "too early" }))

extract_namespace_from_path_lem_example :
    IsRead (console_path "shop" "web") "shop"
    × IsRead (console_path "shop" (under "web" "apply")) "shop"
unfolding lacks
extract_namespace_from_path_lem_example =
    extract_namespace_from_path_lem "shop" "web" "apply" refl refl

handle_apply-IsAsked_example :
    IsAsked memory memory-IsLawful plain_jwt manager "shop" "web" "ann" shrink_web with_pending
      (memory-IsLawful.objects applied.1)
      web
unfolding memory-IsLawful resolve_owner
handle_apply-IsAsked_example =
    handle_apply-IsAsked memory memory-IsLawful plain_jwt server manager (mail ∷ []) "shop" "web"
      "ann" at_once shrink_web with_pending web refl refl refl refl (λ n w. refl, tt) refl refl refl
      (λ e. cc)
