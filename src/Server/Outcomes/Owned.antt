-- ===== src/Server/Outcomes/Owned.antt =====
-- A request to apply a recommendation whose VM has an owner.
use ovro.Owner.{resolve_owner}
use ovro.Types.{is_pending, NamespacedName, Recommendation, awaiting_approval}
use ovro.Notifier.{Forwarder}
use ovro.Lifecycle.Writes.{get_rec-IsCurrent, IsCurrent}
use ovro.Server.Lifecycle.Applying.{notify_owner-objects, AreQuiet}
use ovro.Server.{awaiting, key, max_age, ApplyRequest, Server}
use ovro.Server.Apply.{owner_message, request_approval, route_to_owner, apply_pending, handle_apply}
use ovro.Token.{generate_token, TokenManager, Jwt}
use ovro.Platform.Laws.{Objects, IsLawful}
use ovro.Platform.{found, Platform}
use ovro.Prelude.{
  eq_iff, arith, str_eq, inr, Bool-cases, inl, ◌≢◌, ok, true, some, false, ◌≡◌, ◌⊎◌, sym, subst,
  Result-cases, List, String, refl,
}

module _ {F : Type 0} (P : Platform F) (L : IsLawful P) (J : Jwt) where
  open L use {objects}

  -- What is held under a key stays, or it was the recommendation, and now waits for the owner with
  -- a token that was signed for this owner.
  abbrev pub IsAsked :
      TokenManager
      → String
      → String
      → String
      → Recommendation F
      → P.World
      → Objects F
      → NamespacedName
      → Type 0
  IsAsked tm namespace name owner rec w after k =
      (after k ≡ objects w k)
      ⊎ ((k ≡ rec.meta)
          × ((token : String) × (generate_token J tm namespace name owner max_age (P.now w)
                ≡ ok token)
              × (after k
                  ≡ some (record rec {
                    status = record (rec.status) {
                      state = awaiting_approval;
                      owner = owner;
                      approval_token = token;
                      notified_at = some (P.timestamp w);
                      revert_config = some rec.spec.current;
                    };
                  }))))

  request_approval-IsAsked :
      (s : Server P.World) (tm : TokenManager) (forwarders : List (Forwarder P.World))
      (text namespace name owner : String) (rec : Recommendation F) (w : P.World)
      (k : NamespacedName)
      → AreQuiet P L (some forwarders)
      → IsCurrent P L rec w
      → IsAsked tm namespace name owner rec w
          (objects (request_approval P J s tm (some forwarders) text namespace name owner rec w).1)
          k
  unfolding request_approval
  request_approval-IsAsked s tm forwarders text namespace name owner rec w k q c =
      elim (Result-cases (generate_token J tm namespace name owner max_age (P.now w))) [
        | inr (e, f) ↦ inl (rw (f, request_approval) refl)
        | inl (token, f) ↦
            let waiting = awaiting owner token (P.timestamp w) rec.spec.current rec.status in
            let written = P.update_status (record rec { status = waiting }) w in
            let run : objects
                  (request_approval P J s tm (some forwarders) text namespace name owner rec w).1
                ≡ objects written.1 =
              elim (Result-cases written.0) [
                | inr (e, g) ↦ rw (f, request_approval) (rw g refl)
                | inl (saved, g) ↦
                    rw (f, request_approval)
                      (rw g (notify_owner-objects P L J (some forwarders) _ owner _ _ q))
              ] in
            subst (λ o. IsAsked tm namespace name owner rec w o k) (sym run)
              (elim (L.update_status-Writes (record rec { status = waiting }) rec w c k) [
                | inl same ↦ inl same
                | inr (own, at) ↦ inr (own, (token, f, at))
              ])
      ]

  apply_pending_owned :
      (s : Server P.World) (tm : TokenManager) (forwarders : List (Forwarder P.World))
      (namespace name owner : String) (req : ApplyRequest) (rec : Recommendation F) (w : P.World)
      → s.token_manager ≡ some tm
      → s.demo_mode ≡ false
      → s.owner_resolver ≡ true
      → s.notifier ≡ some forwarders
      → resolve_owner P rec.spec.virtual_machine_ref.name rec.spec.virtual_machine_ref.namespace w
        ≡ ok owner
      → owner ≢ ""
      → apply_pending P J s namespace name req rec w
        ≡ request_approval P J s tm (some forwarders) owner_message namespace name owner rec w
  unfolding apply_pending route_to_owner
  apply_pending_owned s tm forwarders namespace name owner req rec w t d o n r ne =
      elim (Bool-cases (str_eq owner "")) [
        | inl e ↦ absurd (ground (arith, eq_iff owner ""))
        | inr e ↦ rw (t, apply_pending) (rw d (rw (n, route_to_owner) (rw o (rw r (rw e refl)))))
      ]

  -- On a platform that meets the assumptions of `IsLawful`, on a server with a resolver, a token
  -- manager and a notifier whose forwarders leave the recommendations alone, and outside a
  -- demonstration: a request to apply a pending recommendation of a VM whose owner was found never
  -- applies anything. Every recommendation stays as it is, but for the requested one, which may now
  -- wait for that owner, with a token signed for this owner, the instant of the request and the
  -- current size as the configuration to revert to, and is otherwise what it was.
  pub handle_apply-IsAsked :
      (s : Server P.World) (tm : TokenManager) (forwarders : List (Forwarder P.World))
      (namespace name owner : String) (req : ApplyRequest) (rec : Recommendation F) (w : P.World)
      (k : NamespacedName)
      → s.token_manager ≡ some tm
      → s.demo_mode ≡ false
      → s.owner_resolver ≡ true
      → s.notifier ≡ some forwarders
      → AreQuiet P L (some forwarders)
      → P.get_rec (key namespace name) w ≡ found rec
      → is_pending rec.status.state ≡ true
      → resolve_owner P rec.spec.virtual_machine_ref.name rec.spec.virtual_machine_ref.namespace w
        ≡ ok owner
      → owner ≢ ""
      → IsAsked tm namespace name owner rec w
          (objects (handle_apply P J s namespace name (some req) w).1)
          k
  unfolding handle_apply
  handle_apply-IsAsked s tm forwarders namespace name owner req rec w k t d o n q f a r ne =
      let run = apply_pending_owned s tm forwarders namespace name owner req rec w t d o n r ne in
      rw (f, handle_apply)
        (rw a (
          subst (λ x. IsAsked tm namespace name owner rec w (objects x.1) k) (sym run)
            (request_approval-IsAsked s tm forwarders owner_message namespace name owner rec w k q
              (get_rec-IsCurrent P L _ w rec f))))
