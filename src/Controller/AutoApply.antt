-- ===== src/Controller/AutoApply.antt =====
-- rightsizingrecommendation_controller.go: `autoApply`, with `PatchVMResources` of applier.go.
use ovro.Owner.{resolve_owner}
use ovro.Notifier.{send_all, Forwarder}
use ovro.Server.{about_vm_of, approval_url, awaiting, notification_of, max_age, owner_or_empty, key}
use ovro.Prelude.Int.{ℤ}
use ovro.Controller.{is_hotplug_capable}
use ovro.Types.{
  applied_pending_restart, failed, applied, RecommendationStatus, Quantity, Time, Recommendation,
}
use ovro.Token.{generate_token, TokenManager, Jwt}
use ovro.Platform.{Fetched, resources, VirtualMachine, Platform}
use ovro.Prelude.{
  str_eq, ◌||◌, ok, false, true, not, err, ◌<>◌, some, List, none, if◌then◌else◌, Option, Error,
  Bool, String,
}

-- The fields of the reconciler that are set from outside; a nil pointer is `none` or `false`.
pub record Reconciler (W : Type 0) : Type 0 where
  pub demo_mode : Bool
  pub applier : Bool
  pub owner_resolver : Bool
  pub token_manager : Option TokenManager
  pub notifier : Option (List (Forwarder W))
  pub approval_route_host : String

module _ {F : Type 0} (P : Platform F) where
  -- applier.go: `GetVM`.
  abbrev pub applier_get_vm : String → String → P.World → Fetched VirtualMachine
  applier_get_vm name namespace w = P.get_vm (key namespace name) w

  -- applier.go: `PatchVMResources`.
  unfoldable pub patch_vm_resources :
      String → String → ℤ → Quantity → P.World → Option Error × P.World
  patch_vm_resources name namespace cpu_cores memory w =
      let (e, w') = P.patch_vm (key namespace name) (resources cpu_cores memory) w in
      elim e [
        | none ↦ (none, w')
        | some text ↦ (some ("patching VM " <> namespace <> "/" <> name <> ": " <> text), w')
      ]

  -- The patch, if there is an applier.
  unfoldable pub patch_recommended :
      Reconciler P.World → Recommendation F → P.World → Option Error × P.World
  unfolding patch_vm_resources
  patch_recommended r rec w =
      let vm = rec.spec.virtual_machine_ref in
      let size = rec.spec.recommended in
      let patched = patch_vm_resources vm.name vm.namespace size.cpu.cores size.memory w in
      if r.applier then patched else (none, w)

  -- The status that is kept to revert to, and the three ends of a direct application.
  abbrev pub with_revert_config : Recommendation F → RecommendationStatus
  with_revert_config rec =
      let current = rec.spec.current in
      record rec.status {
        revert_config = some (record { cpu = current.cpu; memory = current.memory });
      }

  abbrev pub failed_status : Error → RecommendationStatus → RecommendationStatus
  failed_status e s = record s { state = failed; message = "auto-apply failed: " <> e }

  abbrev pub auto_applied_status : Bool → Time → RecommendationStatus → RecommendationStatus
  auto_applied_status true now s = record s { state = applied; applied_at = some now }
  auto_applied_status false now s = record s { state = applied_pending_restart }

  unfoldable pub auto_apply_directly :
      Reconciler P.World → Recommendation F → VirtualMachine → P.World → P.World
  unfolding patch_recommended is_hotplug_capable
  auto_apply_directly r rec vm w =
      let now = P.timestamp w in
      let kept = with_revert_config rec in
      let (e, w') = patch_recommended r rec w in
      elim e [
        | some text ↦ (P.update_status (record rec { status = failed_status text kept }) w').1
        | none ↦
            (P.update_status
              (record rec { status = auto_applied_status (is_hotplug_capable vm) now kept }) w').1
      ]

  -- Notify the owner, if there is a dispatcher and a host for the link.
  unfoldable pub auto_notify :
      Reconciler P.World → Recommendation F → String → String → P.World → P.World
  auto_notify r rec owner token w = elim r.notifier [
    | none ↦ w
    | some forwarders ↦
        let url = approval_url r.approval_route_host token in
        let sent = (send_all forwarders (notification_of P rec owner url) w).1 in
        if str_eq r.approval_route_host "" then w else sent
  ]

  module _ (J : Jwt) where
    unfoldable pub auto_route :
        Reconciler P.World → TokenManager → Recommendation F → String → P.World → P.World
    unfolding auto_notify
    auto_route r tm rec owner w =
        let vm = rec.spec.virtual_machine_ref in
        elim (generate_token J tm vm.namespace rec.meta.name owner max_age (P.now w)) [
          | err e ↦ w
          | ok token ↦
              let waiting = awaiting owner token (P.timestamp w) rec.spec.current rec.status in
              let (stored, w') = P.update_status (record rec { status = waiting }) w in
              elim stored [
                | err e ↦ w'
                | ok saved ↦ auto_notify r (about_vm_of rec saved) owner token w'
              ]
        ]

    -- The owner goes first; without one, or without a resolver or token manager, apply directly.
    unfoldable pub auto_apply :
        Reconciler P.World → Recommendation F → VirtualMachine → P.World → P.World
    unfolding auto_route auto_apply_directly
    auto_apply r rec vm w =
        let ref = rec.spec.virtual_machine_ref in
        let owner = owner_or_empty (resolve_owner P ref.name ref.namespace w) in
        elim r.token_manager [
          | none ↦ auto_apply_directly r rec vm w
          | some tm ↦
              if not r.owner_resolver || str_eq owner ""
              then auto_apply_directly r rec vm w
              else auto_route r tm rec owner w
        ]
