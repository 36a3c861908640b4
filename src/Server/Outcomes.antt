-- ===== src/Server/Outcomes.antt =====
-- What an answer of the handlers tells of the store: a success has stored what it says, a refusal has
-- changed nothing.
use ovro.Server.Lifecycle.{is_pending_eq}
use ovro.Owner.{resolve_owner}
use ovro.Notifier.{Forwarder}
use ovro.Server.Lifecycle.Applying.{notify_owner-objects, AreQuiet}
use ovro.Token.{generate_token, TokenManager, Jwt}
use ovro.Lifecycle.Writes.{get_rec-IsCurrent, Fetched-cases, IsCurrent}
use ovro.Controller.Recommend.{is_kept}
use ovro.Server.Apply.{
  owner_message, demo_owner, demo_message, route_to_owner, request_approval, handle_apply,
  apply_pending, apply_directly, applied_status,
}
use ovro.Server.{
  awaiting, max_age, owner_or_empty, key, Server, choose_restart, ApplyRequest, save_status,
  Response,
}
use ovro.Platform.Laws.{Objects, IsLawful}
use ovro.Types.{is_pending, pending, Time, RecommendationStatus, Recommendation}
use ovro.Platform.{Platform}
use ovro.Prelude.{
  sym, subst, str_eq, ◌||◌, not, none, List, Bool-cases, Option, String, ap, ◌∙◌, inr, inl, arith,
  Result-cases, true, some, Option-cases, ◌≡◌, ◌<◌, refl,
}
pub mod Once
pub mod Owned

-- The status after a successful application: applied or waiting, and with the way back recorded.
pub record IsHandled {F : Type 0} (rec : Recommendation F) (u : RecommendationStatus) : Type 0 where
  pub settled : is_kept u.state ≡ true
  pub revertible : u.revert_config ≡ some rec.spec.current

module _ {F : Type 0} (P : Platform F) (L : IsLawful P) where
  open L use {objects}

  -- A successful end of a request about a recommendation that was handled.
  abbrev pub Succeeds : Recommendation F → Response F × P.World → Type 0
  Succeeds rec s =
      s.0.code < 300
      → (u : RecommendationStatus) × (objects s.1 rec.meta ≡ some (record rec { status = u }))
        × IsHandled rec u

  -- A status that was saved is the stored one, if the answer is a success.
  pub save_status_stored :
      (rec : Recommendation F) (u : RecommendationStatus) (w : P.World)
      → IsCurrent P L rec w
      → (save_status P (record rec { status = u }) w).0.code < 300
      → objects (save_status P (record rec { status = u }) w).1 rec.meta
        ≡ some (record rec { status = u })
  unfolding save_status
  save_status_stored rec u w c h =
      elim (Result-cases (P.update_status (record rec { status = u }) w).0) [
        | inr (e, f) ↦ absurd (ground arith)
        | inl (saved, f) ↦
            let (same, stored) = L.update_status_ok (record rec { status = u }) saved rec w c f in
            rw (f, save_status) (stored ∙ ap some same)
      ]

  applied_status-IsHandled :
      (rec : Recommendation F) (req : ApplyRequest) (now : Time) (u : RecommendationStatus)
      → applied_status P rec req now ≡ some u
      → IsHandled rec u
  unfolding applied_status choose_restart
  applied_status-IsHandled rec req now u e = record {
    settled = ground arith;
    revertible = ground arith;
  }

  apply_directly-Succeeds :
      (req : ApplyRequest) (rec : Recommendation F) (w : P.World)
      → IsCurrent P L rec w
      → Succeeds rec (apply_directly P req rec w)
  unfolding apply_directly
  apply_directly-Succeeds req rec w c h =
      elim (Option-cases (applied_status P rec req (P.timestamp w))) [
        | inl e ↦ absurd (ground arith)
        | inr (u, e) ↦ (
          u,
          rw (e, apply_directly) (save_status_stored rec u w c (rw (e, apply_directly) at h)),
          applied_status-IsHandled rec req (P.timestamp w) u e,
        )
      ]

  module _ (J : Jwt) where
    request_approval-Succeeds :
        (s : Server P.World) (tm : TokenManager) (forwarders : Option (List (Forwarder P.World)))
        (text namespace name owner : String) (rec : Recommendation F) (w : P.World)
        → AreQuiet P L forwarders
        → IsCurrent P L rec w
        → Succeeds rec (request_approval P J s tm forwarders text namespace name owner rec w)
    unfolding request_approval
    request_approval-Succeeds s tm forwarders text namespace name owner rec w q c h =
        elim (Result-cases (generate_token J tm namespace name owner max_age (P.now w))) [
          | inr (e, f) ↦ absurd (ground arith)
          | inl (token, f) ↦
              let waiting = awaiting owner token (P.timestamp w) rec.spec.current rec.status in
              elim (Result-cases (P.update_status (record rec { status = waiting }) w).0) [
                | inr (e, g) ↦ absurd (ground arith)
                | inl (saved, g) ↦
                    let (same, stored) =
                      L.update_status_ok (record rec { status = waiting }) saved rec w c g in
                    (
                      waiting,
                      rw (f, request_approval)
                          (rw g (
                            ap (λ (o : Objects F). o rec.meta)
                              (notify_owner-objects P L J forwarders _ owner _ _ q)
                            ∙ (stored ∙ ap some same))),
                      record { settled = refl; revertible = refl },
                    )
              ]
        ]

    route_to_owner-Succeeds :
        (s : Server P.World) (tm : TokenManager) (namespace name : String) (req : ApplyRequest)
        (rec : Recommendation F) (w : P.World)
        → AreQuiet P L s.notifier
        → IsCurrent P L rec w
        → Succeeds rec (route_to_owner P J s tm namespace name req rec w)
    unfolding route_to_owner
    route_to_owner-Succeeds s tm namespace name req rec w q c = elim (Option-cases s.notifier) [
      | inl e ↦ rw (e, route_to_owner) (apply_directly-Succeeds req rec w c)
      | inr (forwarders, e) ↦
          let owner = owner_or_empty (
            resolve_owner P rec.spec.virtual_machine_ref.name rec.spec.virtual_machine_ref.namespace
              w) in
          elim (Bool-cases (not s.owner_resolver || str_eq owner "")) [
            | inl f ↦ rw (e, route_to_owner) (rw f (apply_directly-Succeeds req rec w c))
            | inr f ↦
                rw (e, route_to_owner)
                  (rw f (
                    request_approval-Succeeds s tm (some forwarders) owner_message namespace name
                      owner rec w (subst (AreQuiet P L) e q) c))
          ]
    ]

    apply_pending-Succeeds :
        (s : Server P.World) (namespace name : String) (req : ApplyRequest) (rec : Recommendation F)
        (w : P.World)
        → AreQuiet P L s.notifier
        → IsCurrent P L rec w
        → Succeeds rec (apply_pending P J s namespace name req rec w)
    unfolding apply_pending
    apply_pending-Succeeds s namespace name req rec w q c = elim (Option-cases s.token_manager) [
      | inl e ↦ rw (e, apply_pending) (apply_directly-Succeeds req rec w c)
      | inr (tm, e) ↦ elim (Bool-cases s.demo_mode) [
        | inl f ↦
            rw (e, apply_pending)
              (rw f (
                request_approval-Succeeds s tm none demo_message namespace name demo_owner rec w tt
                  c))
        | inr f ↦
            rw (e, apply_pending) (rw f (route_to_owner-Succeeds s tm namespace name req rec w q c))
      ]
    ]

    -- On a platform that meets the assumptions of `IsLawful`, and with forwarders that leave the
    -- recommendations alone: a request to apply that is answered with a code below 300 found a
    -- pending recommendation under its name, and has left there the same recommendation with a
    -- new status: waiting, applied or applied until the restart, with its current size as the
    -- configuration to revert to.
    pub handle_apply_success :
        (s : Server P.World) (namespace name : String) (body : Option ApplyRequest) (w : P.World)
        → AreQuiet P L s.notifier
        → (handle_apply P J s namespace name body w).0.code < 300
        → (rec : Recommendation F) × (u : RecommendationStatus) × (objects w (key namespace name)
            ≡ some rec)
          × (rec.status.state ≡ pending)
          × (objects (handle_apply P J s namespace name body w).1 (key namespace name)
              ≡ some (record rec { status = u }))
          × IsHandled rec u
    unfolding handle_apply
    handle_apply_success s namespace name none w q h = absurd (ground arith)
    handle_apply_success s namespace name (some req) w q h =
        elim (Fetched-cases (P.get_rec (key namespace name) w)) [
          | inr (inl e) ↦ absurd (ground arith)
          | inr (inr (text, e)) ↦ absurd (ground arith)
          | inl (rec, e) ↦ elim (Bool-cases (is_pending rec.status.state)) [
            | inr a ↦ absurd (ground arith)
            | inl a ↦
                let (stored, meta) = L.get_rec_found (key namespace name) w rec e in
                let (u, after, handled) =
                  apply_pending-Succeeds s namespace name req rec w q
                    (get_rec-IsCurrent P L _ w rec e) (rw a at (rw (e, handle_apply) at h)) in
                (
                  rec,
                  u,
                  stored,
                  is_pending_eq rec.status.state a,
                  rw (e, handle_apply)
                      (rw a (
                        ap (objects (apply_pending P J s namespace name req rec w).1) (sym meta)
                        ∙ after)),
                  handled,
                )
          ]
        ]
