-- ===== src/Proxy/Routes.antt =====
-- proxy.go: the table of routes of `New`, `ServeHTTP`, and `handleHealthz`. Which route a request
-- takes is up to `http.ServeMux`, a parameter.
use ovro.Proxy.Decisions.{handle_post_approve-IsAuthorized, IsAuthorized}
use ovro.Token.{ApprovalClaims, TokenManager, Jwt}
use ovro.Platform.{Platform}
use ovro.Proxy.{handle_post_approve, handle_get_approve, Backend, Form, Page}
use ovro.Prelude.{◌⊎◌, inl, inr, some, ◌≡◌, ◌≢◌, [], ◌∷◌, ℕ, Option, String, List, refl}

pub data ProxyHandler : Type 0 where
  approve_page approve_form healthz : ProxyHandler

pub record ProxyRoute : Type 0 where
  pub pattern : String
  pub handler : ProxyHandler

-- What the handlers read of a request: the token of the query, and the form, `none` where it does
-- not parse.
pub record ProxyRequest : Type 0 where
  pub method : String
  pub path : String
  pub query_token : String
  pub form : Option Form

pub data Reply (F : Type 0) : Type 0 where
  html : Page F → Reply F
  plain_text : ℕ → String → Reply F

-- The patterns that `New` registers.
abbrev pub proxy_routes : List ProxyRoute
proxy_routes =
    record { pattern = "GET /approve"; handler = approve_page }
    ∷ record { pattern = "POST /approve"; handler = approve_form }
    ∷ record { pattern = "GET /healthz"; handler = healthz }
    ∷ []

-- A route of a table, or the code that the mux answers.
abbrev pub ProxyMux : Type 0
ProxyMux = List ProxyRoute → String → String → ProxyRoute ⊎ ℕ

module _ {F : Type 0} (P : Platform F) (J : Jwt) (tm : TokenManager) (B : Backend F P.World) where
  unfoldable pub handle_proxy : ProxyHandler → ProxyRequest → P.World → Reply F × P.World
  unfolding handle_get_approve handle_post_approve
  handle_proxy approve_page r w = (html (handle_get_approve P J tm B r.query_token w), w)
  handle_proxy approve_form r w =
      let (page, w') = handle_post_approve P J tm B r.form w in (html page, w')
  handle_proxy healthz r w = (plain_text 200 "ok\n", w)

  unfoldable pub serve_proxy : ProxyMux → ProxyRequest → P.World → Reply F × P.World
  unfolding handle_proxy
  serve_proxy mux r w = elim (mux proxy_routes r.method r.path) [
    | inr code ↦ (plain_text code "", w)
    | inl found ↦ handle_proxy found.handler r w
  ]

  handle_proxy-IsAuthorized :
      (h : ProxyHandler) (r : ProxyRequest) (w : P.World)
      → (handle_proxy h r w).1 ≢ w
      → (form : Form) × (claims : ApprovalClaims) × (r.form ≡ some form)
        × IsAuthorized P J tm B w form claims
  unfolding handle_proxy
  handle_proxy-IsAuthorized approve_page r w acts = absurd (acts refl)
  handle_proxy-IsAuthorized approve_form r w acts =
      handle_post_approve-IsAuthorized P J tm B r.form w acts
  handle_proxy-IsAuthorized healthz r w acts = absurd (acts refl)

  serve_routed :
      (routed : ProxyRoute ⊎ ℕ) (r : ProxyRequest) (w : P.World)
      → (elim routed as (λ _. Reply F × P.World) [
        | inr code ↦ (plain_text code "", w)
        | inl found ↦ handle_proxy found.handler r w
      ]).1
        ≢ w
      → (form : Form) × (claims : ApprovalClaims) × (r.form ≡ some form)
        × IsAuthorized P J tm B w form claims
  serve_routed (inr code) r w acts = absurd (acts refl)
  serve_routed (inl found) r w acts = handle_proxy-IsAuthorized found.handler r w acts

  -- A request to the proxy changes the world, for any mux and over any backend, only where it
  -- carries a form that parses, with a valid token and a known action: no link changes anything by
  -- being opened.
  pub serve_proxy-IsAuthorized :
      (mux : ProxyMux) (r : ProxyRequest) (w : P.World)
      → (serve_proxy mux r w).1 ≢ w
      → (form : Form) × (claims : ApprovalClaims) × (r.form ≡ some form)
        × IsAuthorized P J tm B w form claims
  unfolding serve_proxy
  serve_proxy-IsAuthorized mux r w acts = serve_routed (mux proxy_routes r.method r.path) r w acts
