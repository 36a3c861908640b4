-- ===== src/Server/Decide.antt =====
-- handlers.go: the decisions on a waiting recommendation, `handleReject` for the console and
-- `handleOwnerApprove` and `handleOwnerReject` for the approval proxy.
use ovro.Prelude.{String, Option, none, some, str_eq, if◌then◌else◌}
use ovro.Types.{
  Time, Recommendation, RecommendationStatus, pending, applied, applied_pending_restart,
  is_awaiting_approval, annotation_exclude,
}
use ovro.Platform.{found, not_found, unavailable, annotation, Platform}
use ovro.Server.{
  Server, UserInfo, ApplyRequest, Response, http_error, key, save_status, choose_restart,
}

pub record RejectRequest : Type 0 where
  pub reason : String

pub record OwnerRejectRequest : Type 0 where
  pub reason : String
  pub action : String

-- The status after a rejection, the same in both handlers. The reminder's time is not reset.
abbrev pub rejected_status : String → Time → String → RecommendationStatus → RecommendationStatus
rejected_status who now reason s = record s {
  state = pending;
  rejected_by = who;
  rejected_at = some now;
  rejection_reason = reason;
  owner = "";
  approval_token = "";
  notified_at = none;
}

module _ {F : Type 0} (P : Platform F) where
  -- Both rejections and the approval begin alike: find the recommendation, and go on if it waits.
  unfoldable pub with_awaiting :
      String → String → P.World → (Recommendation F → Response F × P.World) → Response F × P.World
  with_awaiting namespace name w next = elim (P.get_rec (key namespace name) w) [
    | not_found ↦ (http_error 404 "recommendation not found", w)
    | unavailable e ↦ (http_error 404 "recommendation not found", w)
    | found rec ↦
        if is_awaiting_approval rec.status.state
        then next rec
        else (http_error 409 "recommendation is not awaiting approval", w)
  ]

  -- The middleware has put the user into the request's context.
  unfoldable pub handle_reject :
      UserInfo → String → String → Option RejectRequest → P.World → Response F × P.World
  unfolding with_awaiting save_status
  handle_reject user namespace name body w = elim body [
    | none ↦ (http_error 400 "invalid request body", w)
    | some req ↦ with_awaiting namespace name w λ rec.
        save_status P
          (record rec {
            status = rejected_status user.username (P.timestamp w) req.reason rec.status;
          })
          w
  ]

  -- The status of an approved recommendation, `none` where the restart time does not parse.
  unfoldable pub approved_status :
      Recommendation F → String → ApplyRequest → Time → Option RecommendationStatus
  unfolding choose_restart
  approved_status rec owner req now =
      let decided = record rec.status {
        approved_by = owner;
        approved_at = some now;
        approval_token = "";
      } in
      if rec.spec.hotplug_capable
      then some (record decided { state = applied; applied_at = some now })
      else choose_restart P req now (record decided { state = applied_pending_restart })

  -- `owner` is the request's header `X-Approval-Owner`.
  unfoldable pub handle_owner_approve :
      String → String → String → Option ApplyRequest → P.World → Response F × P.World
  unfolding with_awaiting approved_status save_status
  handle_owner_approve owner namespace name body w = elim body [
    | none ↦ (http_error 400 "invalid request body", w)
    | some req ↦ with_awaiting namespace name w λ rec.
        elim (approved_status rec owner req (P.timestamp w)) [
          | none ↦ (http_error 400 "invalid scheduledAt format", w)
          | some status ↦ save_status P (record rec { status = status }) w
        ]
  ]

  -- The exclusion that an owner may ask for with the rejection. Its error is ignored.
  unfoldable pub exclude_vm : Server P.World → Recommendation F → P.World → P.World
  exclude_vm s rec w =
      let vm = rec.spec.virtual_machine_ref in
      if s.dynamic_client
      then (P.patch_vm (key vm.namespace vm.name) (annotation annotation_exclude (some "true")) w).1
      else w

  unfoldable pub handle_owner_reject :
      Server P.World
      → String
      → String
      → String
      → Option OwnerRejectRequest
      → P.World
      → Response F × P.World
  unfolding with_awaiting exclude_vm save_status
  handle_owner_reject s owner namespace name body w = elim body [
    | none ↦ (http_error 400 "invalid request body", w)
    | some req ↦ with_awaiting namespace name w λ rec.
        let now = P.timestamp w in
        let w' = if str_eq req.action "exclude" then exclude_vm s rec w else w in
        save_status P (record rec { status = rejected_status owner now req.reason rec.status }) w'
  ]
