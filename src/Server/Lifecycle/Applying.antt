-- ===== src/Server/Lifecycle/Applying.antt =====
-- `handleApply` follows the lifecycle.
use ovro.Owner.{resolve_owner}
use ovro.Server.Lifecycle.{ne-empty, is_pending_eq, applied_status-Transition}
use ovro.Lifecycle.Invariant.{Evolves-of_eq, Evolves-trans, Evolves-refl}
use ovro.Lifecycle.{route, Evolves}
use ovro.Lifecycle.Writes.{
  update_status-Evolves, get_rec-IsCurrent, save_status-Evolves, Fetched-cases,
  send_filtered-objects, IsQuiet, IsCurrent,
}
use ovro.Types.{is_pending, pending, Recommendation}
use ovro.Notifier.{send_all, Forwarder}
use ovro.Server.{awaiting, owner_or_empty, max_age, key, Server, ApplyRequest}
use ovro.Server.Apply.{
  owner_message, demo_owner, demo_message, applied_status, route_to_owner, request_approval,
  notify_owner, handle_apply, apply_pending, apply_directly,
}
use ovro.Token.{generate_token, TokenManager, Jwt}
use ovro.Platform.Laws.{IsLawful}
use ovro.Platform.{Platform}
use ovro.Prelude.{
  arith, subst, str_eq, ◌||◌, not, none, Bool-cases, inr, inl, Result-cases, ◌≢◌, [], Option-cases,
  ◌≡◌, All, some, String, List, Option, refl,
}

module _ {F : Type 0} (P : Platform F) (L : IsLawful P) where
  open L use {objects}

  apply_directly-Evolves :
      (req : ApplyRequest) (rec : Recommendation F) (w : P.World)
      → IsCurrent P L rec w
      → rec.status.state ≡ pending
      → Evolves (P.now w) 3 4 (objects w) (objects (apply_directly P req rec w).1)
  unfolding apply_directly
  apply_directly-Evolves req rec w c a =
      elim (Option-cases (applied_status P rec req (P.timestamp w))) [
        | inl e ↦ rw (e, apply_directly) (Evolves-refl (objects w))
        | inr (u, e) ↦
            rw (e, apply_directly)
              (save_status-Evolves P L rec u w c
                (applied_status-Transition P L rec req (P.timestamp w) u a e))
      ]

  -- The forwarders of a server leave the recommendations alone.
  abbrev pub AreQuiet : Option (List (Forwarder P.World)) → Type 0
  AreQuiet none = Unit
  AreQuiet (some forwarders) = All (IsQuiet P L) forwarders

  module _ (J : Jwt) where
    pub notify_owner-objects :
        (forwarders : Option (List (Forwarder P.World))) (rec : Recommendation F)
        (owner url : String) (w : P.World)
        → AreQuiet forwarders
        → objects (notify_owner P forwarders rec owner url w) ≡ objects w
    unfolding notify_owner send_all
    notify_owner-objects none rec owner url w q = refl
    notify_owner-objects (some forwarders) rec owner url w q =
        send_filtered-objects P L forwarders _ [] w q

    request_approval-Evolves :
        (s : Server P.World) (tm : TokenManager) (forwarders : Option (List (Forwarder P.World)))
        (text namespace name owner : String) (rec : Recommendation F) (w : P.World)
        → AreQuiet forwarders
        → IsCurrent P L rec w
        → rec.status.state ≡ pending
        → owner ≢ ""
        → Evolves
            (P.now w)
            3
            4
            (objects w)
            (objects (request_approval P J s tm forwarders text namespace name owner rec w).1)
    unfolding request_approval
    request_approval-Evolves s tm forwarders text namespace name owner rec w q c a n =
        elim (Result-cases (generate_token J tm namespace name owner max_age (P.now w))) [
          | inr (e, f) ↦ rw (f, request_approval) (Evolves-refl (objects w))
          | inl (token, f) ↦
              let waiting = awaiting owner token (P.timestamp w) rec.spec.current rec.status in
              let step =
                update_status-Evolves P L rec waiting w c
                  (route owner token (P.timestamp w) rec.spec.current a n) in
              elim (Result-cases (P.update_status (record rec { status = waiting }) w).0) [
                | inr (e, g) ↦ rw (f, request_approval) (rw g step)
                | inl (saved, g) ↦
                    rw (f, request_approval)
                      (rw g (
                        Evolves-trans (omega arith) (omega arith) step
                          (Evolves-of_eq (notify_owner-objects forwarders _ owner _ _ q))))
              ]
        ]

    route_to_owner-Evolves :
        (s : Server P.World) (tm : TokenManager) (namespace name : String) (req : ApplyRequest)
        (rec : Recommendation F) (w : P.World)
        → AreQuiet s.notifier
        → IsCurrent P L rec w
        → rec.status.state ≡ pending
        → Evolves
            (P.now w)
            3
            4
            (objects w)
            (objects (route_to_owner P J s tm namespace name req rec w).1)
    unfolding route_to_owner
    route_to_owner-Evolves s tm namespace name req rec w q c a = elim (Option-cases s.notifier) [
      | inl e ↦ rw (e, route_to_owner) (apply_directly-Evolves req rec w c a)
      | inr (forwarders, e) ↦
          let owner = owner_or_empty (
            resolve_owner P rec.spec.virtual_machine_ref.name rec.spec.virtual_machine_ref.namespace
              w) in
          elim (Bool-cases (not s.owner_resolver || str_eq owner "")) [
            | inl f ↦ rw (e, route_to_owner) (rw f (apply_directly-Evolves req rec w c a))
            | inr f ↦
                rw (e, route_to_owner)
                  (rw f (
                    request_approval-Evolves s tm (some forwarders) owner_message namespace name
                      owner rec w (subst AreQuiet e q) c a (ne-empty owner (ground arith))))
          ]
    ]

    apply_pending-Evolves :
        (s : Server P.World) (namespace name : String) (req : ApplyRequest) (rec : Recommendation F)
        (w : P.World)
        → AreQuiet s.notifier
        → IsCurrent P L rec w
        → rec.status.state ≡ pending
        → Evolves
            (P.now w)
            3
            4
            (objects w)
            (objects (apply_pending P J s namespace name req rec w).1)
    unfolding apply_pending
    apply_pending-Evolves s namespace name req rec w q c a = elim (Option-cases s.token_manager) [
      | inl e ↦ rw (e, apply_pending) (apply_directly-Evolves req rec w c a)
      | inr (tm, e) ↦ elim (Bool-cases s.demo_mode) [
        | inl f ↦
            rw (e, apply_pending)
              (rw f (
                request_approval-Evolves s tm none demo_message namespace name demo_owner rec w tt c
                  a (ne-empty demo_owner refl)))
        | inr f ↦
            rw (e, apply_pending)
              (rw f (route_to_owner-Evolves s tm namespace name req rec w q c a))
      ]
    ]

    -- On a platform that meets the assumptions of `IsLawful`, and with forwarders that leave the
    -- recommendations alone: a request to apply, on every branch, leaves every stored
    -- recommendation as it is or takes it through a single decision of its lifecycle, so that only
    -- a pending one is routed to an owner, applied or failed, and one that waits for its owner is
    -- not routed to another.
    pub handle_apply-Evolves :
        (s : Server P.World) (namespace name : String) (body : Option ApplyRequest) (w : P.World)
        → AreQuiet s.notifier
        → Evolves (P.now w) 3 4 (objects w) (objects (handle_apply P J s namespace name body w).1)
    unfolding handle_apply
    handle_apply-Evolves s namespace name none w q = Evolves-refl (objects w)
    handle_apply-Evolves s namespace name (some req) w q =
        elim (Fetched-cases (P.get_rec (key namespace name) w)) [
          | inr (inl e) ↦ rw (e, handle_apply) (Evolves-refl (objects w))
          | inr (inr (text, e)) ↦ rw (e, handle_apply) (Evolves-refl (objects w))
          | inl (rec, e) ↦ elim (Bool-cases (is_pending rec.status.state)) [
            | inr a ↦ rw (e, handle_apply) (rw a (Evolves-refl (objects w)))
            | inl a ↦
                rw (e, handle_apply)
                  (rw a (
                    apply_pending-Evolves s namespace name req rec w q
                      (get_rec-IsCurrent P L _ w rec e) (is_pending_eq rec.status.state a)))
          ]
        ]
