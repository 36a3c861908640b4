-- ===== src/Tests/Approvals.antt =====
-- An approval that nobody gave, and one with a time for the restart.
use ovro.Controller.Expiry.Revoked.{check_approval-IsRevoked}
use ovro.Server.{key}
use ovro.Platform.{VirtualMachine}
use ovro.Controller.Excluded.{reconcile-IsSpared, IsSpared}
use ovro.Controller.Reminder.{check_approval-once}
use ovro.Types.Policy.{default_policy_spec}
use ovro.Tests.Proxy.{one_jwt-IsLawfulJwt, one_jwt}
use ovro.Controller.Demo.{demo_result, demo_utilization}
use ovro.Controller.Expiry.{
  refreshed, lapsed, update_recommendation-lapsed, lapsed_world, asked_again,
}
use ovro.Prelude.Int.{pos, ℤ}
use ovro.Tests.{
  shrink_web, no_metrics_query, cluster, reconciler, plain_jwt, manager, web, show, with_waiting,
  waiting_web, coarse, web_vm,
}
use ovro.Token.{validate_token, generate_token}
use ovro.Controller.Reconcile.{
  reconcile, requeue_after, send_reminder, remind_owner, expire_approval, update_recommendation,
  check_age, check_approval,
}
use ovro.Controller.{done, SizedVm}
use ovro.Platform.Memory.{same_name, memory, memory-IsLawful, Cluster}
use ovro.Controller.Recommend.{with_findings, Analysis}
use ovro.Types.{annotation_exclude, Recommendation}
use ovro.Prelude.{
  Error, str_eq, if◌then◌else◌, arith, ap, ◌⊎◌, true, err, ◌≢◌, ◌≡◌, is_some, false, none, some,
  Bool,
}
use mathlib.Core.Path.{refl}

-- Nine days and 15 days after the owner was asked.
abbrev after_nine_days : Cluster ℤ
after_nine_days = record with_waiting { clock = 777600000000020 }

abbrev after_15_days : Cluster ℤ
after_15_days = record with_waiting { clock = 1296000000000020 }

abbrev sized_web : SizedVm
sized_web = record { vm = web_vm; cpu_cores = pos 8; memory_gib = pos 16 }

abbrev idle_web : Analysis ℤ
idle_web = record {
  utilization = demo_utilization coarse (pos 8) (pos 16) "web";
  result = demo_result coarse (pos 8) (pos 16) "web";
}

abbrev asked_web : Recommendation ℤ
asked_web =
    asked_again coarse show memory plain_jwt memory-IsLawful reconciler default_policy_spec idle_web
      1296000000000020 waiting_web

update_recommendation-lapsed_example :
    ((update_recommendation coarse show memory plain_jwt reconciler default_policy_spec sized_web
        idle_web waiting_web after_15_days).0
      ≡ done (requeue_after default_policy_spec))
    × (memory-IsLawful.objects
          (update_recommendation coarse show memory plain_jwt reconciler default_policy_spec
            sized_web idle_web waiting_web after_15_days).1
          web
        ≡ some asked_web)
unfolding memory-IsLawful with_findings
update_recommendation-lapsed_example =
    update_recommendation-lapsed coarse show memory plain_jwt memory-IsLawful reconciler
      default_policy_spec sized_web idle_web waiting_web (lapsed memory waiting_web)
      (refreshed coarse show memory plain_jwt memory-IsLawful reconciler default_policy_spec
        idle_web waiting_web)
      asked_web 20 after_15_days refl refl refl (omega arith) refl refl refl refl

-- The request is recorded 0.4 s after the token was generated, and stored in whole seconds.
abbrev dated_web : Recommendation ℤ
dated_web = record waiting_web { status = record (waiting_web.status) { notified_at = some 0 } }

abbrev with_dated : Cluster ℤ
with_dated = record (cluster (some dated_web)) { clock = 1296000000000020 }

check_approval-IsRevoked_example :
    (e : Error) × (validate_token one_jwt manager "token for ann" 1296000000000020 ≡ err e)
unfolding memory-IsLawful generate_token check_approval check_age expire_approval
check_approval-IsRevoked_example =
    check_approval-IsRevoked memory memory-IsLawful reconciler tt one_jwt one_jwt-IsLawfulJwt
      manager dated_web (lapsed memory dated_web) 0 0 400000000 1296000000000020 "shop" "web" "ann"
      "token for ann" with_dated refl refl refl refl (omega arith) refl refl refl (omega arith)

abbrev reminded_web : Recommendation ℤ
reminded_web = record waiting_web {
  status = record (waiting_web.status) { reminder_sent_at = some 777600000000020 };
}

abbrev is_reminded : Cluster ℤ → Bool
is_reminded c = elim (c.items web) [ none ↦ false | some r ↦ is_some r.status.reminder_sent_at ]

reminds_it : (check_approval memory reconciler waiting_web after_nine_days).1 ≢ after_nine_days
unfolding check_approval check_age remind_owner send_reminder
reminds_it e = let h : true ≡ false = ap is_reminded e in cc

check_approval-once_example :
    ((check_approval memory reconciler reminded_web after_15_days).1 ≡ after_15_days)
    ⊎ ((check_approval memory reconciler reminded_web after_15_days).1
        ≡ lapsed_world memory reminded_web after_15_days)
unfolding memory-IsLawful check_approval check_age remind_owner send_reminder
check_approval-once_example =
    check_approval-once memory reconciler memory-IsLawful tt waiting_web reminded_web
      after_nine_days after_15_days refl refl refl reminds_it

abbrev excluded_vm : VirtualMachine
excluded_vm = record web_vm {
  annotations = λ name. if str_eq name annotation_exclude then some "true" else none;
}

-- The VM is excluded while its recommendation is pending.
abbrev with_excluded : Cluster ℤ
with_excluded = record (cluster none) {
  items = λ k.
      if same_name k (key "shop" "vm-web")
      then some (record shrink_web { meta = key "shop" "vm-web" })
      else none;
  vms = λ k. if same_name k web then some excluded_vm else none;
}

reconcile-IsSpared_example :
    IsSpared coarse show memory plain_jwt memory-IsLawful reconciler "web" "shop" with_excluded
      (reconcile coarse show memory plain_jwt reconciler no_metrics_query web with_excluded).1
      (key "shop" "vm-web")
reconcile-IsSpared_example =
    reconcile-IsSpared coarse show memory plain_jwt memory-IsLawful reconciler no_metrics_query web
      excluded_vm with_excluded (key "shop" "vm-web") refl refl
