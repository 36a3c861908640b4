-- ===== src/Proxy/Http/Shown.antt =====
-- What an approval page shows.
use ovro.Proxy.{approval_page, BackendRecommendation, ApprovalPageData, handle_get_approve}
use ovro.Proxy.Http.{
  BackendAnswer, trim_slashes, recommendation_path, new_backend, fetch_recommendation, ProxyClient,
}
use ovro.Token.{validate_token, ApprovalClaims, TokenManager, Jwt}
use ovro.Platform.{Platform}
use ovro.Prelude.{◌==◌, inl, arith, str_eq, inr, Result-cases, Bool-cases, ◌<>◌, ok, ◌≡◌, String}

module _ {F : Type 0} (P : Platform F) (J : Jwt) (tm : TokenManager)
    (c : ProxyClient F P.World) where
  fetch_recommendation-eq-ok :
      (backend_url namespace name : String) (w : P.World) (rec : BackendRecommendation F)
      → fetch_recommendation c backend_url namespace name w ≡ ok rec
      → (answer : BackendAnswer) × (c.get (backend_url <> recommendation_path namespace name) w
          ≡ ok answer)
        × (answer.status ≡ 200)
        × (c.decode answer.body ≡ ok rec)
  unfolding fetch_recommendation
  fetch_recommendation-eq-ok backend_url namespace name w rec h =
      elim (Result-cases (c.get (backend_url <> recommendation_path namespace name) w)) [
        | inr (e, f) ↦ absurd (ground arith)
        | inl (answer, f) ↦ elim (Bool-cases (answer.status == 200)) [
          | inr g ↦ absurd (ground arith)
          | inl g ↦ elim (Result-cases (c.decode answer.body)) [
            | inr (e, k) ↦ absurd (ground arith)
            | inl (rec', k) ↦ (answer, f, ground arith, ground arith)
          ]
        ]
      ]

  -- An approval page that the proxy shows for a token is that of valid claims: its owner is the
  -- owner of the claims, its token is the one of the request, and its recommendation is what the
  -- API server answered with 200 under the namespace and the name of the claims.
  pub handle_get_approve-IsShown :
      (backend_url token : String) (w : P.World) (page : ApprovalPageData F)
      → handle_get_approve P J tm (new_backend c backend_url) token w ≡ approval_page page
      → (claims : ApprovalClaims) × (answer : BackendAnswer) × (validate_token J tm token (P.now w)
          ≡ ok claims)
        × (c.get
              (trim_slashes backend_url <> recommendation_path claims.namespace claims.rec_name)
              w
            ≡ ok answer)
        × (answer.status ≡ 200)
        × (c.decode answer.body ≡ ok page.recommendation)
        × (page.token ≡ token)
        × (page.owner ≡ claims.owner)
  unfolding handle_get_approve new_backend
  handle_get_approve-IsShown backend_url token w page h = elim (Bool-cases (str_eq token "")) [
    | inl e ↦ absurd (ground arith)
    | inr e ↦ elim (Result-cases (validate_token J tm token (P.now w))) [
      | inr (x, f) ↦ absurd (ground arith)
      | inl (claims, f) ↦
          elim (Result-cases (
            fetch_recommendation c (trim_slashes backend_url) claims.namespace claims.rec_name w)) [
              | inr (x, g) ↦ absurd (ground arith)
              | inl (rec, g) ↦
                  let (answer, got, fine, read) =
                    fetch_recommendation-eq-ok (trim_slashes backend_url) claims.namespace
                      claims.rec_name w rec g in
                  (claims, answer, f, got, fine, ground arith, ground arith, ground arith)
            ]
    ]
  ]
