-- ===== src/Controller/Lifecycle.antt =====
-- The reconcilers follow the lifecycle: this file has the restart controller and the automatic
-- application, the child `Reconciling` the recommendation controller.
use ovro.Server.Lifecycle.{ne-empty}
use ovro.Controller.{is_hotplug_capable}
use ovro.Owner.{resolve_owner}
use ovro.Lifecycle.Invariant.{Evolves-of_eq, Evolves-trans, Evolves-refl}
use ovro.Notifier.{send_all}
use ovro.Server.{awaiting, max_age, owner_or_empty, key}
use ovro.Token.{generate_token, TokenManager, Jwt}
use ovro.Lifecycle.{route, restarted, apply_later, restart_failed, fail, apply, Transition, Evolves}
use ovro.Lifecycle.Writes.{
  get_rec-IsCurrent, send_filtered-objects, update_status-Evolves, Fetched-cases, IsCurrent,
}
use ovro.Server.Lifecycle.Applying.{AreQuiet}
use ovro.Controller.Restart.{
  restarted_status, restart_at, restart_vm, restart_now, reconcile_restart,
}
use ovro.Controller.AutoApply.{
  with_revert_config, auto_applied_status, auto_route, auto_notify, auto_apply, patch_recommended,
  auto_apply_directly, Reconciler,
}
use ovro.Types.{
  is_applied_pending_restart, pending, applied_pending_restart, Time, RecommendationStatus,
  NamespacedName, Recommendation,
}
use ovro.Platform.Laws.{IsLawful}
use ovro.Platform.{restart, resources, VirtualMachine, Platform}
pub mod Reconciling
pub mod Writing
use ovro.Prelude.{
  ℕ, suc, none, Option, ◌||◌, ltb, false, [], true, not, ◌<>◌, sym, str_eq, Result-cases, ◌≢◌, some,
  Bool-cases, inr, inl, subst, Option-cases, arith, ◌≡◌, String, Bool,
}

module _ {F : Type 0} (P : Platform F) (L : IsLawful P) where
  open L use {objects}

  -- A write of a status in a later world whose recommendations are the same.
  pub later_status-Evolves :
      {now : Time} {j : ℕ} (rec : Recommendation F) (u : RecommendationStatus) (w w' : P.World)
      → objects w' ≡ objects w
      → IsCurrent P L rec w
      → Transition now rec.status j u
      → Evolves now j
          (suc j)
          (objects w)
          (objects (P.update_status (record rec { status = u }) w').1)
  later_status-Evolves {now} {j} rec u w w' same c t =
      subst
        (λ o. Evolves now j (suc j) o (objects (P.update_status (record rec { status = u }) w').1))
        same
        (update_status-Evolves P L rec u w' (subst (λ o. o rec.meta ≡ some rec) (sym same) c) t)

  restart_vm-objects :
      (name namespace : String) (w : P.World)
      → objects (restart_vm P name namespace w).1 ≡ objects w
  unfolding restart_vm
  restart_vm-objects name namespace w =
      ground (arith, L.patch_vm-objects (key namespace name) restart w)

  restart_now-Evolves :
      {now : Time} (rec : Recommendation F) (w : P.World)
      → IsCurrent P L rec w
      → rec.status.state ≡ applied_pending_restart
      → Evolves now 3 4 (objects w) (objects (restart_now P rec w).1)
  unfolding restart_now
  restart_now-Evolves rec w c a =
      let vm = rec.spec.virtual_machine_ref in
      let same = restart_vm-objects vm.name vm.namespace w in
      let w' = (restart_vm P vm.name vm.namespace w).1 in
      elim (Option-cases (restart_vm P vm.name vm.namespace w).0) [
        | inr (text, e) ↦
            rw (e, restart_now)
              (later_status-Evolves rec _ w w' same c
                (restart_failed ("restart failed: " <> text) a))
        | inl e ↦
            let u = restarted_status P (P.timestamp w') rec.status in
            let step = later_status-Evolves rec u w w' same c (restarted (P.timestamp w') a) in
            elim (Result-cases (P.update_status (record rec { status = u }) w').0) [
              | inl (saved, f) ↦ rw (e, restart_now) (rw f step)
              | inr (text, f) ↦ rw (e, restart_now) (rw f step)
            ]
      ]

  restart_at-Evolves :
      {now : Time} (scheduled : Option Time) (rec : Recommendation F) (w : P.World)
      → IsCurrent P L rec w
      → rec.status.state ≡ applied_pending_restart
      → Evolves now 3 4 (objects w) (objects (restart_at P scheduled rec w).1)
  unfolding restart_at
  restart_at-Evolves none rec w c a = Evolves-refl (objects w)
  restart_at-Evolves (some t) rec w c a = elim (Bool-cases (ltb (P.now w) t)) [
    | inl f ↦ rw f (Evolves-refl (objects w))
    | inr f ↦ rw f (restart_now-Evolves rec w c a)
  ]

  -- On a platform that meets the assumptions of `IsLawful`, a reconciliation of the restart
  -- controller, on every branch, takes every stored recommendation along at most one decision of
  -- its lifecycle.
  pub reconcile_restart-Evolves :
      {now : Time} (request : NamespacedName) (w : P.World)
      → Evolves now 3 4 (objects w) (objects (reconcile_restart P request w).1)
  unfolding reconcile_restart
  reconcile_restart-Evolves request w = elim (Fetched-cases (P.get_rec request w)) [
    | inr (inl e) ↦ rw (e, reconcile_restart) (Evolves-refl (objects w))
    | inr (inr (text, e)) ↦ rw (e, reconcile_restart) (Evolves-refl (objects w))
    | inl (rec, e) ↦ elim (Bool-cases (is_applied_pending_restart rec.status.state)) [
      | inr a ↦ rw (e, reconcile_restart) (rw a (Evolves-refl (objects w)))
      | inl a ↦
          rw (e, reconcile_restart)
            (rw a (
              restart_at-Evolves rec.status.scheduled_restart_at rec w
                (get_rec-IsCurrent P L _ w rec e) (ground arith)))
    ]
  ]

  patch_recommended-objects :
      (r : Reconciler P.World) (rec : Recommendation F) (w : P.World)
      → objects (patch_recommended P r rec w).1 ≡ objects w
  unfolding patch_recommended
  patch_recommended-objects r rec w = ground (
    arith,
    L.patch_vm-objects
        (key rec.spec.virtual_machine_ref.namespace rec.spec.virtual_machine_ref.name)
        (resources rec.spec.recommended.cpu.cores rec.spec.recommended.memory) w,
  )

  auto_applied-Transition :
      {now : Time} (rec : Recommendation F) (hotplug : Bool) (t : Time)
      → rec.status.state ≡ pending
      → Transition now rec.status 3 (auto_applied_status P hotplug t (with_revert_config P rec))
  auto_applied-Transition rec true now a = apply now rec.spec.current a
  auto_applied-Transition rec false now a =
      apply_later rec.status.scheduled_restart_at rec.status.applied_at rec.spec.current a

  auto_apply_directly-Evolves :
      {now : Time} (r : Reconciler P.World) (rec : Recommendation F) (vm : VirtualMachine)
      (w : P.World)
      → IsCurrent P L rec w
      → rec.status.state ≡ pending
      → Evolves now 3 4 (objects w) (objects (auto_apply_directly P r rec vm w))
  unfolding auto_apply_directly
  auto_apply_directly-Evolves r rec vm w c a =
      let same = patch_recommended-objects r rec w in
      elim (Option-cases (patch_recommended P r rec w).0) [
        | inr (text, e) ↦
            rw (e, auto_apply_directly)
              (later_status-Evolves rec _ w _ same c
                (fail rec.spec.current ("auto-apply failed: " <> text) a))
        | inl e ↦
            rw (e, auto_apply_directly)
              (later_status-Evolves rec _ w _ same c
                (auto_applied-Transition rec (is_hotplug_capable vm) (P.timestamp w) a))
      ]

  module _ (r : Reconciler P.World) (q : AreQuiet P L r.notifier) where
    auto_notify-objects :
        (rec : Recommendation F) (owner token : String) (w : P.World)
        → objects (auto_notify P r rec owner token w) ≡ objects w
    unfolding auto_notify send_all
    auto_notify-objects rec owner token w = elim (Option-cases r.notifier) [
      | inl e ↦ rw (e, auto_notify)
      | inr (forwarders, e) ↦ elim (Bool-cases (str_eq r.approval_route_host "")) [
        | inl f ↦ rw (e, auto_notify) (rw f)
        | inr f ↦
            rw (e, auto_notify)
              (rw f (send_filtered-objects P L forwarders _ [] w (subst (AreQuiet P L) e q)))
      ]
    ]

    auto_route-Evolves :
        {now : Time} (J : Jwt) (tm : TokenManager) (rec : Recommendation F) (owner : String)
        (w : P.World)
        → IsCurrent P L rec w
        → rec.status.state ≡ pending
        → owner ≢ ""
        → Evolves now 3 4 (objects w) (objects (auto_route P J r tm rec owner w))
    unfolding auto_route
    auto_route-Evolves J tm rec owner w c a n =
        let ns = rec.spec.virtual_machine_ref.namespace in
        elim (Result-cases (generate_token J tm ns rec.meta.name owner max_age (P.now w))) [
          | inr (e, f) ↦ rw (f, auto_route) (Evolves-refl (objects w))
          | inl (token, f) ↦
              let waiting = awaiting owner token (P.timestamp w) rec.spec.current rec.status in
              let step =
                update_status-Evolves P L rec waiting w c
                  (route owner token (P.timestamp w) rec.spec.current a n) in
              elim (Result-cases (P.update_status (record rec { status = waiting }) w).0) [
                | inr (e, g) ↦ rw (f, auto_route) (rw g step)
                | inl (saved, g) ↦
                    rw (f, auto_route)
                      (rw g (
                        Evolves-trans (omega arith) (omega arith) step
                          (Evolves-of_eq (auto_notify-objects _ owner token _))))
              ]
        ]

    -- The automatic application of a pending recommendation.
    pub auto_apply-Evolves :
        {now : Time} (J : Jwt) (rec : Recommendation F) (vm : VirtualMachine) (w : P.World)
        → IsCurrent P L rec w
        → rec.status.state ≡ pending
        → Evolves now 3 4 (objects w) (objects (auto_apply P J r rec vm w))
    unfolding auto_apply
    auto_apply-Evolves J rec vm w c a = elim (Option-cases r.token_manager) [
      | inl e ↦ rw (e, auto_apply) (auto_apply_directly-Evolves r rec vm w c a)
      | inr (tm, e) ↦
          let ref = rec.spec.virtual_machine_ref in
          let owner = owner_or_empty (resolve_owner P ref.name ref.namespace w) in
          elim (Bool-cases (not r.owner_resolver || str_eq owner "")) [
            | inl f ↦ rw (e, auto_apply) (rw f (auto_apply_directly-Evolves r rec vm w c a))
            | inr f ↦
                rw (e, auto_apply)
                  (rw f (auto_route-Evolves J tm rec owner w c a (ne-empty owner (ground arith))))
          ]
    ]
