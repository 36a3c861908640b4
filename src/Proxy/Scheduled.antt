-- ===== src/Proxy/Scheduled.antt =====
-- An owner who approves with a time for the restart: from the form to the restart itself.
use ovro.Server.Outcomes.Once.{owner_approve_run}
use ovro.Platform.Laws.{IsLawful}
use ovro.Proxy.Cluster.{field, decode_approval, serve, in_cluster}
use ovro.Server.Decide.{handle_owner_approve, approved_status}
use ovro.Server.{one, write_json, key, save_status, choose_restart, Server}
use ovro.Types.{
  is_awaiting_approval, Recommendation, applied_pending_restart, RecommendationStatus, Time,
}
use ovro.Token.{validate_token, ApprovalClaims, TokenManager, Jwt}
use ovro.Proxy.{
  Payload, Endpoint, handle_post_approve, forward, result_page, owner_approve, normalize_time,
  result_of, backend_request, Backend, Form,
}
use ovro.Platform.{found, Platform}
use ovro.Prelude.{
  sym, ◌∙◌, ap, true, ok, [], ◌∷◌, ◌<>◌, none, arith, false, ◌≡◌, str_eq, some, String, refl,
}

-- The form with the option "schedule", as the page submits it.
abbrev pub schedule_form : String → String → Form
schedule_form token text = record {
  token = token;
  action = "approve";
  restart_option = "schedule";
  scheduled_at = text;
  reason = "";
}

-- The status of a recommendation that was approved for a restart.
abbrev pub approved_for : String → Time → Time → RecommendationStatus → RecommendationStatus
approved_for owner now t s = record s {
  state = applied_pending_restart;
  scheduled_restart_at = some t;
  approved_by = owner;
  approved_at = some now;
  approval_token = "";
}

module _ {F : Type 0} (P : Platform F) (J : Jwt) (tm : TokenManager) (s : Server P.World)
    (B : Backend F P.World) where
  backend_request_scheduled :
      (claims : ApprovalClaims) (token text : String) (t : Time)
      → str_eq text "" ≡ false
      → P.parse_rfc3339 text ≡ none
      → B.parse_local text ≡ some t
      → backend_request P J tm (in_cluster P s B) claims (schedule_form token text)
        ≡ some (
          owner_approve claims.namespace claims.rec_name,
          ("restartOption", "schedule") ∷ ("scheduledAt", B.format_rfc3339 t) ∷ [],
        )
  unfolding backend_request normalize_time
  backend_request_scheduled claims token text t n p l = rw (n, p, l) refl

  approved_status_scheduled :
      (rec : Recommendation F) (owner text : String) (now t : Time)
      → rec.spec.hotplug_capable ≡ false
      → P.parse_rfc3339 text ≡ some t
      → approved_status P rec owner
          (record { restart_option = "schedule"; scheduled_at = text })
          now
        ≡ some (approved_for owner now t rec.status)
  unfolding approved_status choose_restart
  approved_status_scheduled rec owner text now t h p = ground arith

  result_of_scheduled :
      (token text : String) (t : Time)
      → str_eq text "" ≡ false
      → P.parse_rfc3339 text ≡ none
      → B.parse_local text ≡ some t
      → str_eq (B.format_rfc3339 t) "" ≡ false
      → result_of P J tm (in_cluster P s B) (schedule_form token text)
        ≡ result_page "Recommendation Approved" (
            "The rightsizing recommendation has been approved and will be applied."
            <> " The VM restart is scheduled for "
            <> B.format_rfc3339 t
            <> ".")
  unfolding result_of normalize_time
  result_of_scheduled token text t n p l m = rw (n, p, l) (rw m refl)

  -- A decision that the handler answered with success is shown as one.
  forward_accepted :
      (form : Form) (owner namespace name : String) (payload : Payload)
      (rec saved : Recommendation F) (w : P.World)
      → handle_owner_approve P owner namespace name (some (decode_approval payload)) w
        ≡ save_status P rec w
      → (P.update_status rec w).0 ≡ ok saved
      → forward P J tm (in_cluster P s B) form owner (owner_approve namespace name) payload w
        ≡ (result_of P J tm (in_cluster P s B) form, (P.update_status rec w).1)
  unfolding forward serve save_status
  forward_accepted form owner namespace name payload rec saved w run e =
      let saves : save_status P rec w ≡ (write_json (one saved), (P.update_status rec w).1) =
        rw (e, save_status) refl in
      rw (run ∙ saves) refl

  handle_post_approve-forward :
      (form : Form) (claims : ApprovalClaims) (endpoint : Endpoint) (payload : Payload)
      (w : P.World)
      → str_eq form.token "" ≡ false
      → validate_token J tm form.token (P.now w) ≡ ok claims
      → backend_request P J tm (in_cluster P s B) claims form ≡ some (endpoint, payload)
      → handle_post_approve P J tm (in_cluster P s B) (some form) w
        ≡ forward P J tm (in_cluster P s B) form claims.owner endpoint payload w
  unfolding handle_post_approve
  handle_post_approve-forward form claims endpoint payload w n v r =
      rw (n, handle_post_approve) (rw v (rw r refl))

  module _ (L : IsLawful P) where
    open L use {objects}

    -- On a platform that meets the assumptions of `IsLawful`, in front of the API server: where an
    -- owner with a valid token approves a recommendation that waits and that needs a restart, with
    -- a time in the form's own format that the API server reads back, and the status can be
    -- written, the page says that the restart is scheduled, and the stored recommendation waits for
    -- its restart at that time, approved by the owner of the token and without a token of its own.
    pub handle_post_approve_scheduled :
        (claims : ApprovalClaims) (token text : String) (t : Time) (rec saved : Recommendation F)
        (w : P.World)
        → str_eq token "" ≡ false
        → validate_token J tm token (P.now w) ≡ ok claims
        → P.get_rec (key claims.namespace claims.rec_name) w ≡ found rec
        → is_awaiting_approval rec.status.state ≡ true
        → rec.spec.hotplug_capable ≡ false
        → str_eq text "" ≡ false
        → P.parse_rfc3339 text ≡ none
        → B.parse_local text ≡ some t
        → str_eq (B.format_rfc3339 t) "" ≡ false
        → P.parse_rfc3339 (B.format_rfc3339 t) ≡ some t
        → (P.update_status
            (record rec { status = approved_for claims.owner (P.timestamp w) t rec.status })
            w).0
          ≡ ok saved
        → ((handle_post_approve P J tm (in_cluster P s B) (some (schedule_form token text)) w).0
            ≡ result_page "Recommendation Approved" (
                "The rightsizing recommendation has been approved and will be applied."
                <> " The VM restart is scheduled for "
                <> B.format_rfc3339 t
                <> "."))
          × (objects
                (handle_post_approve P J tm
                  (in_cluster P s B)
                  (some (schedule_form token text))
                  w).1
                (key claims.namespace claims.rec_name)
              ≡ some
                  (record rec { status = approved_for claims.owner (P.timestamp w) t rec.status }))
    unfolding field
    handle_post_approve_scheduled claims token text t rec saved w e v g a h n p l m q u =
        let B' = in_cluster P s B in
        let form = schedule_form token text in
        let approved = record rec {
          status = approved_for claims.owner (P.timestamp w) t rec.status;
        } in
        let (at, meta) = L.get_rec_found (key claims.namespace claims.rec_name) w rec g in
        let (same, stored) = L.update_status_ok approved saved rec w (ap (objects w) meta ∙ at) u in
        let payload : Payload =
          ("restartOption", "schedule") ∷ ("scheduledAt", B.format_rfc3339 t) ∷ [] in
        let run =
          handle_post_approve-forward form claims (owner_approve claims.namespace claims.rec_name)
            payload w e v (backend_request_scheduled claims token text t n p l)
          ∙ forward_accepted form claims.owner claims.namespace claims.rec_name payload approved
              saved w
              (owner_approve_run P L claims.owner claims.namespace claims.rec_name
                (decode_approval payload) rec
                (approved_for claims.owner (P.timestamp w) t rec.status) w g a
                (approved_status_scheduled rec claims.owner (B.format_rfc3339 t) (P.timestamp w) t h
                  q))
              u in
        (
          ap (λ x. x.0) run ∙ result_of_scheduled token text t n p l m,
          ap (λ x. objects x.1 (key claims.namespace claims.rec_name)) run
              ∙ (ap (objects (P.update_status approved w).1) (sym meta) ∙ (stored ∙ ap some same)),
        )
