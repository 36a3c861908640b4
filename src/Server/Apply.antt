-- ===== src/Server/Apply.antt =====
-- handlers.go: `handleApply`, which routes a pending recommendation to its owner or applies it, and
-- `handleRevert`.
use ovro.Prelude.{String, Option, none, some, List, ok, err, str_eq, if◌then◌else◌, not}
use ovro.Types.{
  Time, Recommendation, RecommendationStatus, applied, applied_pending_restart, reverted,
  is_pending, is_applied, is_applied_pending_restart,
}
use ovro.Prelude.{◌||◌}
use ovro.Platform.{found, not_found, unavailable, Platform}
use ovro.Notifier.{Forwarder, send_all}
use ovro.Token.{Jwt, TokenManager, generate_token}
use ovro.Owner.{resolve_owner}
use ovro.Server.{
  about_vm_of, Server, ApplyRequest, Response, http_error, routed, max_age, approval_url, awaiting,
  owner_or_empty, key, notification_of, save_status, choose_restart,
}

-- The owner of a demonstration, and the two messages of a routed recommendation.
abbrev pub demo_owner : String
demo_owner = "demo-user@example.com"

abbrev pub demo_message : String
demo_message = "Demo mode: use the approval URL to approve or reject."

abbrev pub owner_message : String
owner_message = "Notification sent to owner. Awaiting approval."

module _ {F : Type 0} (P : Platform F) where
  -- What is left to do once the status is stored: the demonstration notifies nobody.
  unfoldable pub notify_owner :
      Option (List (Forwarder P.World)) → Recommendation F → String → String → P.World → P.World
  notify_owner none rec owner url w = w
  notify_owner (some forwarders) rec owner url w =
      (send_all forwarders (notification_of P rec owner url) w).1

  -- The status that a direct application stores; `none` where the restart time does not parse.
  unfoldable pub applied_status :
      Recommendation F → ApplyRequest → Time → Option RecommendationStatus
  unfolding choose_restart
  applied_status rec req now =
      let current = rec.spec.current in
      let kept = record rec.status {
        revert_config = some (record { cpu = current.cpu; memory = current.memory });
      } in
      if rec.spec.hotplug_capable
      then some (record kept { state = applied; applied_at = some now })
      else choose_restart P req now (record kept { state = applied_pending_restart })

  unfoldable pub apply_directly : ApplyRequest → Recommendation F → P.World → Response F × P.World
  unfolding applied_status save_status
  apply_directly req rec w = elim (applied_status rec req (P.timestamp w)) [
    | none ↦ (http_error 400 "invalid scheduledAt format (use RFC3339)", w)
    | some status ↦ save_status P (record rec { status = status }) w
  ]

module _ {F : Type 0} (P : Platform F) (J : Jwt) where
  -- Both approval branches: sign a token, store the waiting status, notify, answer 202.
  unfoldable pub request_approval :
      Server P.World
      → TokenManager
      → Option (List (Forwarder P.World))
      → String
      → String
      → String
      → String
      → Recommendation F
      → P.World
      → Response F × P.World
  unfolding notify_owner
  request_approval s tm forwarders text namespace name owner rec w =
      elim (generate_token J tm namespace name owner max_age (P.now w)) [
        | err e ↦ (http_error 500 "failed to generate approval token", w)
        | ok token ↦
            let waiting = awaiting owner token (P.timestamp w) rec.spec.current rec.status in
            let (r, w') = P.update_status (record rec { status = waiting }) w in
            let url = approval_url s.approval_route_host token in
            elim r [
              | err e ↦ (http_error 500 "internal server error", w')
              | ok saved ↦ (
                record { code = 202; body = routed owner text url },
                notify_owner P forwarders (about_vm_of rec saved) owner url w',
              )
            ]
      ]

  -- The owner branch: taken with a resolver, a token manager, a notifier and an owner.
  unfoldable pub route_to_owner :
      Server P.World
      → TokenManager
      → String
      → String
      → ApplyRequest
      → Recommendation F
      → P.World
      → Response F × P.World
  unfolding request_approval apply_directly
  route_to_owner s tm namespace name req rec w =
      let vm = rec.spec.virtual_machine_ref in
      let owner = owner_or_empty (resolve_owner P vm.name vm.namespace w) in
      elim s.notifier [
        | none ↦ apply_directly P req rec w
        | some forwarders ↦
            if not s.owner_resolver || str_eq owner ""
            then apply_directly P req rec w
            else request_approval s tm (some forwarders) owner_message namespace name owner rec w
      ]

  unfoldable pub apply_pending :
      Server P.World
      → String
      → String
      → ApplyRequest
      → Recommendation F
      → P.World
      → Response F × P.World
  unfolding route_to_owner
  apply_pending s namespace name req rec w = elim s.token_manager [
    | none ↦ apply_directly P req rec w
    | some tm ↦
        if s.demo_mode
        then request_approval s tm none demo_message namespace name demo_owner rec w
        else route_to_owner s tm namespace name req rec w
  ]

  unfoldable pub handle_apply :
      Server P.World → String → String → Option ApplyRequest → P.World → Response F × P.World
  unfolding apply_pending
  handle_apply s namespace name body w = elim body [
    | none ↦ (http_error 400 "invalid request body", w)
    | some req ↦ elim (P.get_rec (key namespace name) w) [
      | not_found ↦ (http_error 404 "recommendation not found", w)
      | unavailable e ↦ (http_error 404 "recommendation not found", w)
      | found rec ↦
          if is_pending rec.status.state
          then apply_pending s namespace name req rec w
          else (http_error 409 "recommendation is not in pending state", w)
    ]
  ]

module _ {F : Type 0} (P : Platform F) where
  unfoldable pub handle_revert : String → String → P.World → Response F × P.World
  unfolding save_status
  handle_revert namespace name w = elim (P.get_rec (key namespace name) w) [
    | not_found ↦ (http_error 404 "recommendation not found", w)
    | unavailable e ↦ (http_error 404 "recommendation not found", w)
    | found rec ↦
        if is_applied rec.status.state || is_applied_pending_restart rec.status.state
        then elim rec.status.revert_config [
          | none ↦ (http_error 409 "no revert config available", w)
          | some config ↦
              save_status P (record rec { status = record (rec.status) { state = reverted } }) w
        ]
        else (http_error 409 "recommendation cannot be reverted in current state", w)
  ]
