-- ===== src/Tests/Proxy.antt =====
-- Decisions through the proxy, and the life of a token.
use ovro.Proxy.Routes.{
  handle_proxy, approve_form, serve_proxy-IsAuthorized, serve_proxy, Reply, ProxyRequest, ProxyMux,
}
use ovro.Types.{is_awaiting_approval}
use ovro.Proxy.Cluster.{in_cluster}
use ovro.Proxy.Decisions.{handle_post_approve_exclusion, IsAuthorized}
use ovro.Tests.{
  web, parse_ann, page_backend, server, ann_claims, with_waiting, plain_jwt, manager, approval_form,
}
use ovro.Prelude.Int.{ℤ}
use ovro.Platform.Memory.{Cluster, memory}
use ovro.Token.RoundTrip.{whole_seconds, IsLawfulJwt}
use ovro.Proxy.{handle_post_approve, Form, Backend}
use ovro.Token.{hmac, validate_token, SigningKey, Jwt, ApprovalClaims}
use ovro.Prelude.{
  subst, ◌≤◌, none, ap, false, inr, inl, ◌==◌, Bool-cases, ◌&&◌, err, eq_iff, true, str_eq, ok, ◌≢◌,
  ◌≡◌, some, if◌then◌else◌, arith, Bool, String,
}

abbrev cluster_backend : Backend ℤ (Cluster ℤ)
cluster_backend = in_cluster memory server page_backend

-- Whether the recommendation still waits.
abbrev waits_still : Cluster ℤ → Bool
waits_still c = elim (c.items web) [ none ↦ false | some r ↦ is_awaiting_approval r.status.state ]

-- A mux that takes every POST for the form.
abbrev form_mux : ProxyMux
form_mux table method path =
    if str_eq method "POST"
    then inl (record { pattern = "POST /approve"; handler = approve_form })
    else inr 404

abbrev submitted : ProxyRequest
submitted = record {
  method = "POST";
  path = "/approve";
  query_token = "";
  form = some approval_form;
}

abbrev served : Reply ℤ × Cluster ℤ
served = serve_proxy memory plain_jwt manager cluster_backend form_mux submitted with_waiting

serves_it : served.1 ≢ with_waiting
unfolding serve_proxy handle_proxy handle_post_approve validate_token ovro.Proxy.Cluster.serve
    ovro.Server.Decide.handle_owner_approve
serves_it e = let h : false ≡ true = ap waits_still e in cc

serve_proxy-IsAuthorized_example :
    (form : Form) × (claims : ApprovalClaims) × (some approval_form ≡ some form)
    × IsAuthorized memory plain_jwt manager cluster_backend with_waiting form claims
serve_proxy-IsAuthorized_example =
    serve_proxy-IsAuthorized memory plain_jwt manager cluster_backend form_mux submitted
      with_waiting serves_it

abbrev declining : String → Form
declining action = record {
  token = "token for ann";
  action = action;
  restart_option = "";
  scheduled_at = "";
  reason = "never";
}

handle_post_approve_exclusion_example :
    (handle_post_approve memory plain_jwt manager cluster_backend
      (some (declining "exclude"))
      with_waiting).1
    ≡ (handle_post_approve memory plain_jwt manager cluster_backend
        (some (declining "reject"))
        with_waiting).1
handle_post_approve_exclusion_example =
    handle_post_approve_exclusion memory plain_jwt manager server page_backend "token for ann" "" ""
      "never" with_waiting

-- A signer that signs one token.
abbrev same_claims : ApprovalClaims → ApprovalClaims → Bool
same_claims a b =
    str_eq a.subject b.subject
    && (a.expires_at == b.expires_at)
    && (a.issued_at == b.issued_at)
    && str_eq a.issuer b.issuer
    && str_eq a.namespace b.namespace
    && str_eq a.rec_name b.rec_name
    && str_eq a.owner b.owner

abbrev pub one_jwt : Jwt
one_jwt = record {
  signed_string = λ k c.
      if str_eq k "key" && same_claims c ann_claims then ok "token for ann" else err "no key";
  parse_with_claims = λ t key_of now. elim (key_of hmac) [ err e ↦ err e | ok k ↦ parse_ann t now ];
}

same_claims_eq : (a b : ApprovalClaims) → same_claims a b ≡ true → a ≡ b
same_claims_eq a b h = ground (
  arith,
  eq_iff a.subject b.subject,
  eq_iff a.issuer b.issuer,
  eq_iff a.namespace b.namespace,
  eq_iff a.rec_name b.rec_name,
  eq_iff a.owner b.owner,
)

signed_ann :
    (k : SigningKey) (c : ApprovalClaims) (t : String)
    → one_jwt.signed_string k c ≡ ok t
    → (c ≡ ann_claims) × (t ≡ "token for ann")
signed_ann k c t h = elim (Bool-cases (same_claims c ann_claims)) [
  | inl e ↦ (same_claims_eq c ann_claims e, ground arith)
  | inr e ↦ absurd (ground arith)
]

pub one_jwt-IsLawfulJwt : IsLawfulJwt one_jwt
one_jwt-IsLawfulJwt = record {
  parse_signed = λ k c t key_of now s e h.
      let (same, text) = signed_ann k c t s in rw (e, same, text) (ground arith);
  parse_expired = λ k c t key_of now s e h.
      let (same, text) = signed_ann k c t s in
      let h' : whole_seconds ann_claims.expires_at ≤ now =
        subst (λ (x : ApprovalClaims). whole_seconds x.expires_at ≤ now) same h in
      ("token has invalid claims: token is expired", rw (e, text) (ground arith));
}
