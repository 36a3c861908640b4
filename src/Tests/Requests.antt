-- ===== src/Tests/Requests.antt =====
-- Requests to the console, with a mux for patterns without wildcards.
use ovro.Prelude.Int.{ℤ}
use ovro.Tests.{clients, with_pending, server, plain_jwt}
use ovro.Platform.Memory.{memory, Cluster}
use ovro.Server.{Server}
use ovro.Server.Middleware.{Request}
use ovro.Server.Routes.Guarded.{serve_http-IsAdmitted, IsMux, Ends}
use mathlib.Core.Path.{refl}
use Prim.Native.Nat.{suc}
use ovro.Server.Routes.{serve_http, no_route, Route, Mux, Inputs, taken}
use ovro.Prelude.{
  inr, eq_iff, ◌∙◌, sym, ap, inl, [], ◌&&◌, str_eq, some, Bool-cases, true, if◌then◌else◌,
  get_elem?, arith, ◌∷◌, ℕ, starts_with, String, subst, none, List, ◌≡◌,
}

abbrev exact_mux : Mux
exact_mux [] r = no_route 404
exact_mux (found ∷ table) r =
    let rest = exact_mux table r in
    if str_eq found.method r.method && str_eq found.pattern r.path then taken found "" "" else rest

-- What is taken is an element of the table whose pattern is the path.
abbrev Exact : List Route → Request → Route → Type 0
Exact table r found = ((n : ℕ) × (get_elem? table n ≡ some found)) × (found.pattern ≡ r.path)

exact_mux-Exact :
    (table : List Route) (r : Request) (found : Route) (namespace name : String)
    → exact_mux table r ≡ taken found namespace name
    → Exact table r found
exact_mux-Exact [] r found namespace name e = ground arith
exact_mux-Exact (first ∷ table) r found namespace name e =
    elim (Bool-cases (str_eq first.method r.method && str_eq first.pattern r.path)) [
      | inl y ↦
          let same : first ≡ found = ground arith in
          (
            (0, ap some same),
            ap (λ f. f.pattern) (sym same) ∙ (eq_iff first.pattern r.path).0 (ground arith),
          )
      | inr n ↦
          let ((k, at), path) = exact_mux-Exact table r found namespace name (ground arith) in
          ((suc k, at), path)
    ]

exact_mux-IsMux : IsMux exact_mux
exact_mux-IsMux = record {
  picks = λ table r found namespace name e. (exact_mux-Exact table r found namespace name e).0;
  literal = λ table r found namespace name t e plain h.
      subst (λ path. starts_with path t ≡ true) (exact_mux-Exact table r found namespace name e).1
        h;
}

abbrev overview_request : Request
overview_request = record {
  method = "GET";
  path = "/api/v1/overview";
  authorization = "Bearer abc";
}

abbrev console : Server (Cluster ℤ)
console = record server { clientset = some clients }

abbrev inputs : Inputs
inputs = record {
  query_namespace = "";
  query_direction = "";
  query_state = "";
  approval_owner = "";
  apply_body = none;
  reject_body = none;
  owner_reject_body = none;
  policy_body = none;
}

serve_http-IsAdmitted_example :
    Ends memory plain_jwt console inputs exact_mux exact_mux-IsMux overview_request with_pending
      (serve_http memory plain_jwt console inputs exact_mux overview_request with_pending)
serve_http-IsAdmitted_example =
    serve_http-IsAdmitted memory plain_jwt console inputs exact_mux exact_mux-IsMux overview_request
      with_pending refl
