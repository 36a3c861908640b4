-- ===== src/Server/Lifecycle.antt =====
-- The handlers follow the lifecycle: whatever a request is, and wherever a call fails, the stored
-- recommendations change only by its moves. `handleApply` stands in the child `Applying`.
pub mod Applying
use ovro.Server.Decide.{
  RejectRequest, OwnerRejectRequest, with_awaiting, handle_reject, handle_owner_reject,
  handle_owner_approve, exclude_vm, approved_status,
}
use ovro.Types.{
  pending, awaiting_approval, RecommendationStatus, Time, is_pending, is_awaiting_approval,
  Recommendation, RecommendationState, is_applied_pending_restart, is_applied, reverted,
}
use ovro.Lifecycle.Invariant.{Evolves-refl}
use ovro.Server.{save_status, UserInfo, Server, Response, ApplyRequest, choose_restart, key}
use ovro.Lifecycle.Writes.{IsCurrent, get_rec-IsCurrent, save_status-Evolves, Fetched-cases}
use ovro.Lifecycle.{
  decline, approve_later, apply_later, approve, apply, Transition, revert, Evolves,
}
use ovro.Server.Apply.{applied_status, handle_revert}
use ovro.Platform.Laws.{IsLawful}
use ovro.Platform.{Platform}
use ovro.Prelude.{
  [], sym, subst, none, eq_iff, Option, some, arith, ◌≢◌, true, false, ◌≡◌, str_eq, Option-cases,
  ◌||◌, Bool-cases, inr, inl, String,
}

pub is_pending_eq : (s : RecommendationState) → is_pending s ≡ true → s ≡ pending
is_pending_eq s h = ground arith

pub is_awaiting_approval_eq :
    (s : RecommendationState) → is_awaiting_approval s ≡ true → s ≡ awaiting_approval
is_awaiting_approval_eq s h = ground arith

pub ne-empty : (s : String) → str_eq s "" ≡ false → s ≢ ""
ne-empty s h e = ground (arith, eq_iff s "")

module _ {F : Type 0} (P : Platform F) (L : IsLawful P) where
  open L use {objects}

  -- On a platform that meets the assumptions of `IsLawful`, a request to revert, on every branch,
  -- takes every stored recommendation through at most one decision of its lifecycle, in which only
  -- an applied one with a configuration to revert to becomes reverted.
  pub handle_revert-Evolves :
      (namespace name : String) (w : P.World)
      → Evolves (P.now w) 3 4 (objects w) (objects (handle_revert P namespace name w).1)
  unfolding handle_revert
  handle_revert-Evolves namespace name w = elim (Fetched-cases (P.get_rec (key namespace name) w)) [
    | inr (inl e) ↦ rw (e, handle_revert) (Evolves-refl (objects w))
    | inr (inr (text, e)) ↦ rw (e, handle_revert) (Evolves-refl (objects w))
    | inl (rec, e) ↦
        elim (Bool-cases
          (is_applied rec.status.state || is_applied_pending_restart rec.status.state)) [
            | inr a ↦ rw (e, handle_revert) (rw a (Evolves-refl (objects w)))
            | inl a ↦ elim (Option-cases rec.status.revert_config) [
              | inl f ↦ rw (e, handle_revert) (rw (a, f) (Evolves-refl (objects w)))
              | inr (c, f) ↦
                  rw (e, handle_revert)
                    (rw (a, f)
                      (save_status-Evolves P L rec (record (rec.status) { state = reverted }) w
                        (get_rec-IsCurrent P L _ w rec e) (revert a (rw f))))
            ]
          ]
  ]

  -- The restart option settles the two times of a status that waits for its restart.
  choose_restart_cases :
      (req : ApplyRequest) (now : Time) (s u : RecommendationStatus)
      → choose_restart P req now s ≡ some u
      → (x y : Option Time) × (u ≡ record s { scheduled_restart_at = x; applied_at = y })
  unfolding choose_restart
  choose_restart_cases req now s u h = elim (Bool-cases (str_eq req.restart_option "schedule")) [
    | inl a ↦ elim (Option-cases (P.parse_rfc3339 req.scheduled_at)) [
      | inl f ↦ (none, none, ground arith)
      | inr (t, f) ↦ (some t, s.applied_at, ground arith)
    ]
    | inr a ↦ elim (Bool-cases (str_eq req.restart_option "now")) [
      | inl b ↦ (s.scheduled_restart_at, some now, ground arith)
      | inr b ↦ (s.scheduled_restart_at, s.applied_at, ground arith)
    ]
  ]

  approved_status-Transition :
      {clock : Time} (rec : Recommendation F) (owner : String) (req : ApplyRequest) (now : Time)
      (u : RecommendationStatus)
      → rec.status.state ≡ awaiting_approval
      → approved_status P rec owner req now ≡ some u
      → Transition clock rec.status 3 u
  unfolding approved_status
  approved_status-Transition {clock} rec owner req now u a h =
      elim (Bool-cases rec.spec.hotplug_capable) [
        | inl p ↦ subst (Transition clock rec.status 3) (ground arith) (approve owner now a)
        | inr p ↦
            let (x, y, e) = choose_restart_cases req now _ u (rw p at h) in
            subst (Transition clock rec.status 3) (sym e) (approve_later owner now x y a)
      ]

  pub applied_status-Transition :
      {clock : Time} (rec : Recommendation F) (req : ApplyRequest) (now : Time)
      (u : RecommendationStatus)
      → rec.status.state ≡ pending
      → applied_status P rec req now ≡ some u
      → Transition clock rec.status 3 u
  unfolding applied_status
  applied_status-Transition {clock} rec req now u a h = elim (Bool-cases rec.spec.hotplug_capable) [
    | inl p ↦ subst (Transition clock rec.status 3) (ground arith) (apply now rec.spec.current a)
    | inr p ↦
        let (x, y, e) = choose_restart_cases req now _ u (rw p at h) in
        subst (Transition clock rec.status 3) (sym e) (apply_later x y rec.spec.current a)
  ]

  with_awaiting-Evolves :
      (namespace name : String) (w : P.World) (next : Recommendation F → Response F × P.World)
      → ((rec : Recommendation F)
          → IsCurrent P L rec w
          → rec.status.state ≡ awaiting_approval
          → Evolves (P.now w) 3 4 (objects w) (objects (next rec).1))
      → Evolves (P.now w) 3 4 (objects w) (objects (with_awaiting P namespace name w next).1)
  unfolding with_awaiting
  with_awaiting-Evolves namespace name w next h =
      elim (Fetched-cases (P.get_rec (key namespace name) w)) [
        | inr (inl e) ↦ rw (e, with_awaiting) (Evolves-refl (objects w))
        | inr (inr (text, e)) ↦ rw (e, with_awaiting) (Evolves-refl (objects w))
        | inl (rec, e) ↦ elim (Bool-cases (is_awaiting_approval rec.status.state)) [
          | inr a ↦ rw (e, with_awaiting) (rw a (Evolves-refl (objects w)))
          | inl a ↦
              rw (e, with_awaiting)
                (rw a (
                  h rec (get_rec-IsCurrent P L _ w rec e)
                    (is_awaiting_approval_eq rec.status.state a)))
        ]
      ]

  -- On a platform that meets the assumptions of `IsLawful`, a rejection by an administrator, on
  -- every branch, takes every stored recommendation through at most one decision of its lifecycle,
  -- in which only a waiting one is declined.
  pub handle_reject-Evolves :
      (user : UserInfo) (namespace name : String) (body : Option RejectRequest) (w : P.World)
      → Evolves (P.now w) 3 4 (objects w) (objects (handle_reject P user namespace name body w).1)
  unfolding handle_reject
  handle_reject-Evolves user namespace name none w = Evolves-refl (objects w)
  handle_reject-Evolves user namespace name (some req) w =
      with_awaiting-Evolves namespace name w _ λ rec c a.
        save_status-Evolves P L rec _ w c (decline user.username req.reason (P.timestamp w) a)

  -- On a platform that meets the assumptions of `IsLawful`, an approval by the owner, on every
  -- branch, takes every stored recommendation through at most one decision of its lifecycle, in
  -- which only a waiting one is approved.
  pub handle_owner_approve-Evolves :
      (owner namespace name : String) (body : Option ApplyRequest) (w : P.World)
      → Evolves
          (P.now w)
          3
          4
          (objects w)
          (objects (handle_owner_approve P owner namespace name body w).1)
  unfolding handle_owner_approve
  handle_owner_approve-Evolves owner namespace name none w = Evolves-refl (objects w)
  handle_owner_approve-Evolves owner namespace name (some req) w =
      with_awaiting-Evolves namespace name w _ λ rec c a.
        elim (Option-cases (approved_status P rec owner req (P.timestamp w))) [
          | inl e ↦ rw e (Evolves-refl (objects w))
          | inr (u, e) ↦ rw e (
              save_status-Evolves P L rec u w c
                (approved_status-Transition rec owner req (P.timestamp w) u a e))
        ]

  -- The owner's rejection, with or without the exclusion.
  exclude_vm-objects :
      (s : Server P.World) (rec : Recommendation F) (w : P.World)
      → objects (exclude_vm P s rec w) ≡ objects w
  unfolding exclude_vm
  exclude_vm-objects s rec w = elim (Bool-cases s.dynamic_client) [
    | inl e ↦ rw e (L.patch_vm-objects _ _ w)
    | inr e ↦ rw e
  ]

  save_status_later-Evolves :
      (rec : Recommendation F) (u : RecommendationStatus) (w w' : P.World)
      → objects w' ≡ objects w
      → IsCurrent P L rec w
      → Transition (P.now w) rec.status 3 u
      → Evolves (P.now w) 3 4 (objects w) (objects (save_status P (record rec { status = u }) w').1)
  save_status_later-Evolves rec u w w' same c t =
      subst
        (λ o. Evolves (P.now w) 3 4 o (objects (save_status P (record rec { status = u }) w').1))
        same (save_status-Evolves P L rec u w' (subst (λ o. o rec.meta ≡ some rec) (sym same) c) t)

  -- On a platform that meets the assumptions of `IsLawful`, a rejection by the owner, with or
  -- without the exclusion of the VM and on every branch, takes every stored recommendation through
  -- at most one decision of its lifecycle.
  pub handle_owner_reject-Evolves :
      (s : Server P.World) (owner namespace name : String) (body : Option OwnerRejectRequest)
      (w : P.World)
      → Evolves
          (P.now w)
          3
          4
          (objects w)
          (objects (handle_owner_reject P s owner namespace name body w).1)
  unfolding handle_owner_reject
  handle_owner_reject-Evolves s owner namespace name none w = Evolves-refl (objects w)
  handle_owner_reject-Evolves s owner namespace name (some req) w =
      with_awaiting-Evolves namespace name w _ λ rec c a.
        let decided = decline owner req.reason (P.timestamp w) a in
        elim (Bool-cases (str_eq req.action "exclude")) [
          | inl e ↦
              rw e (save_status_later-Evolves rec _ w _ (exclude_vm-objects s rec w) c decided)
          | inr e ↦ rw e (save_status-Evolves P L rec _ w c decided)
        ]
