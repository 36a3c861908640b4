-- ===== src/Proxy/Decisions.antt =====
-- What a submitted form can do.
use ovro.Server.Lifecycle.{handle_owner_reject-Evolves, handle_owner_approve-Evolves}
use ovro.Lifecycle.Invariant.{Evolves-refl}
use ovro.Lifecycle.{Evolves}
use ovro.Proxy.Cluster.{in_cluster, field, serve}
use ovro.Server.{Server}
use ovro.Platform.Laws.{IsLawful}
use ovro.Proxy.{
  owner_reject, owner_approve, Payload, Endpoint, forward, backend_request, Form,
  handle_post_approve, Backend,
}
use ovro.Token.{validate_token, ApprovalClaims, TokenManager, Jwt}
use ovro.Platform.{Platform}
use ovro.Prelude.{
  none, arith, Option-cases, Result-cases, inr, inl, true, str_eq, is_some, Bool-cases, some, ok,
  ◌≡◌, String, ◌≢◌, Option, refl,
}

module _ {F : Type 0} (P : Platform F) (J : Jwt) (tm : TokenManager) where
  -- A form whose token is valid for the claims, and whose action is known.
  pub record IsAuthorized (B : Backend F P.World) (w : P.World) (form : Form)
      (claims : ApprovalClaims) : Type 0 where
    pub valid : validate_token J tm form.token (P.now w) ≡ ok claims
    pub known : is_some (backend_request P J tm B claims form) ≡ true

  -- A submitted form changes the world, over any backend, only if it parses, carries a valid token
  -- and names a known action.
  pub handle_post_approve-IsAuthorized :
      (B : Backend F P.World) (body : Option Form) (w : P.World)
      → (handle_post_approve P J tm B body w).1 ≢ w
      → (form : Form) × (claims : ApprovalClaims) × (body ≡ some form)
        × IsAuthorized B w form claims
  unfolding handle_post_approve
  handle_post_approve-IsAuthorized B none w acts = absurd (acts refl)
  handle_post_approve-IsAuthorized B (some form) w acts = elim (Bool-cases (str_eq form.token "")) [
    | inl e ↦ absurd (acts (rw (e, handle_post_approve) refl))
    | inr e ↦ elim (Result-cases (validate_token J tm form.token (P.now w))) [
      | inr (text, v) ↦ absurd (acts (rw (e, handle_post_approve) (rw v refl)))
      | inl (claims, v) ↦ elim (Option-cases (backend_request P J tm B claims form)) [
        | inl r ↦ absurd (acts (rw (e, handle_post_approve) (rw v (rw r refl))))
        | inr (request, r) ↦ (form, claims, refl, record { valid = v; known = ground arith })
      ]
    ]
  ]

  module _ (L : IsLawful P) (s : Server P.World) (B : Backend F P.World) where
    open L use {objects}

    serve-Evolves :
        (endpoint : Endpoint) (payload : Payload) (owner : String) (w : P.World)
        → Evolves (P.now w) 3 4 (objects w) (objects (serve P s endpoint payload owner w).1)
    unfolding serve
    serve-Evolves (owner_approve namespace name) payload owner w =
        handle_owner_approve-Evolves P L owner namespace name _ w
    serve-Evolves (owner_reject namespace name) payload owner w =
        handle_owner_reject-Evolves P L s owner namespace name _ w

    -- On a platform that meets the assumptions, a form that is submitted to a proxy in front of the
    -- API server takes every stored recommendation through at most one decision of its lifecycle.
    pub handle_post_approve-Evolves :
        (body : Option Form) (w : P.World)
        → Evolves
            (P.now w)
            3
            4
            (objects w)
            (objects (handle_post_approve P J tm (in_cluster P s B) body w).1)
    unfolding handle_post_approve forward
    handle_post_approve-Evolves none w = Evolves-refl (objects w)
    handle_post_approve-Evolves (some form) w = elim (Bool-cases (str_eq form.token "")) [
      | inl e ↦ rw (e, handle_post_approve) (Evolves-refl (objects w))
      | inr e ↦ elim (Result-cases (validate_token J tm form.token (P.now w))) [
        | inr (text, v) ↦ rw (e, handle_post_approve) (rw v (Evolves-refl (objects w)))
        | inl (claims, v) ↦
            elim (Option-cases (backend_request P J tm (in_cluster P s B) claims form)) [
              | inl r ↦ rw (e, handle_post_approve) (rw v (rw r (Evolves-refl (objects w))))
              | inr ((endpoint, payload), r) ↦
                  rw (e, handle_post_approve)
                    (rw v (rw r (serve-Evolves endpoint payload claims.owner w)))
            ]
      ]
    ]

  module _ (s : Server P.World) (B : Backend F P.World) where
    -- The two forms that decline, with the same token and reason, do the same: in front of the API
    -- server an exclusion is nothing but a rejection, and the VM is not excluded.
    pub handle_post_approve_exclusion :
        (token option scheduled reason : String) (w : P.World)
        → (handle_post_approve P J tm
            (in_cluster P s B)
            (some (record {
              token = token;
              action = "exclude";
              restart_option = option;
              scheduled_at = scheduled;
              reason = reason;
            }))
            w).1
          ≡ (handle_post_approve P J tm
              (in_cluster P s B)
              (some (record {
                token = token;
                action = "reject";
                restart_option = option;
                scheduled_at = scheduled;
                reason = reason;
              }))
              w).1
    unfolding handle_post_approve backend_request forward serve field
    handle_post_approve_exclusion token option scheduled reason w =
        elim (Bool-cases (str_eq token "")) [
          | inl e ↦ rw e refl
          | inr e ↦ elim (Result-cases (validate_token J tm token (P.now w))) [
            | inr (text, v) ↦ rw e (rw v refl)
            | inl (claims, v) ↦ rw e (rw v refl)
          ]
        ]
