-- ===== src/Tests/Chains.antt =====
-- Approvals with a time for the restart, the page before them, and the overview.
use ovro.Controller.Restart.Due.{after_restart}
use ovro.Server.Overview.Bag.{handle_overview_lem, overview_of}
use ovro.Server.Decide.{with_awaiting, approved_status, handle_owner_approve}
use ovro.Proxy.Restarted.{handle_post_approve_restarted}
use ovro.Token.RoundTrip.{decoded}
use ovro.Server.{save_status, choose_restart, overview, write_json}
use ovro.Proxy.Cluster.{field, serve, in_cluster}
use ovro.Controller.{done}
use ovro.Controller.Restart.{reconcile_restart}
use ovro.Tests.{
  ann_claims, with_waiting, with_pending, web, manager, admin, plain_jwt, waiting_web, shrink_web,
  server, page_backend,
}
use ovro.Prelude.Int.{pos, ℤ}
use ovro.Token.{verification_key, validate_token}
use ovro.Proxy.Scheduled.{handle_post_approve_scheduled, approved_for, schedule_form}
use ovro.Server.Overview.{handle_overview}
use ovro.Server.Access.{can_user_access_namespace}
use ovro.Platform.{Platform}
use ovro.Platform.Memory.{memory, memory-IsLawful, Cluster}
use ovro.Proxy.{
  forward, result_page, normalize_time, backend_request, handle_post_approve, Page, Form, Backend,
}
use ovro.Types.{Recommendation, applied}
use ovro.Prelude.{arith, ◌<>◌, none, str_eq, [], ◌≡◌, ◌∷◌, some, ok, if◌then◌else◌, List}
use mathlib.Core.Path.{refl}
use mathlib.Core.Quot

abbrev local_backend : Backend ℤ (Cluster ℤ)
local_backend = record page_backend {
  parse_local = λ s. if str_eq s "2026-01-01T00:00" then some 5000 else none;
}

abbrev scheduled_web : Recommendation ℤ
scheduled_web = record waiting_web { status = approved_for "ann" 1000 5000 waiting_web.status }

abbrev scheduled_form : Form
scheduled_form = schedule_form "token for ann" "2026-01-01T00:00"

abbrev approved : Page ℤ × Cluster ℤ
approved =
    handle_post_approve memory plain_jwt manager (in_cluster memory server local_backend)
      (some scheduled_form) with_waiting

handle_post_approve_scheduled_example :
    (approved.0
      ≡ result_page "Recommendation Approved" (
          "The rightsizing recommendation has been approved and will be applied."
          <> " The VM restart is scheduled for " <> "2026-01-01T00:00:00Z" <> "."))
    × (memory-IsLawful.objects approved.1 web ≡ some scheduled_web)
unfolding memory-IsLawful validate_token verification_key
handle_post_approve_scheduled_example =
    handle_post_approve_scheduled memory plain_jwt manager server local_backend memory-IsLawful
      (decoded ann_claims) "token for ann" "2026-01-01T00:00" 5000 waiting_web scheduled_web
      with_waiting refl refl refl refl refl refl refl refl refl refl refl

-- The same cluster at the time of the restart.
abbrev at_restart : Cluster ℤ
at_restart = record (approved.1) { clock = 6000 }

handle_post_approve_restarted_example :
    ((reconcile_restart memory web at_restart).0 ≡ done (pos 0))
    × (memory-IsLawful.objects (reconcile_restart memory web at_restart).1 web
        ≡ some (record waiting_web {
          status = record (waiting_web.status) {
            state = applied;
            applied_at = some 6000;
            scheduled_restart_at = none;
            approved_by = "ann";
            approved_at = some 1000;
            approval_token = "";
          };
        }))
unfolding memory-IsLawful handle_post_approve validate_token verification_key backend_request
    normalize_time forward serve field handle_owner_approve with_awaiting approved_status
    choose_restart save_status
handle_post_approve_restarted_example =
    handle_post_approve_restarted memory plain_jwt manager server local_backend memory-IsLawful
      (decoded ann_claims) "token for ann" "2026-01-01T00:00" 5000 waiting_web scheduled_web
      scheduled_web (after_restart memory memory-IsLawful scheduled_web at_restart) with_waiting
      at_restart refl refl refl refl refl refl refl refl refl refl refl refl refl (omega arith) refl
      refl

abbrev two_items : List (Recommendation ℤ)
two_items = shrink_web ∷ waiting_web ∷ []

abbrev listing : Platform ℤ
listing = record memory { list_recs = λ ns c. ok two_items }

handle_overview_lem_example :
    handle_overview listing server (some admin) with_pending
    ≡ write_json (overview (overview_of listing 0 (Quot.mk two_items)))
unfolding can_user_access_namespace
handle_overview_lem_example = handle_overview_lem listing server (some admin) with_pending
