-- ===== src/Proxy/Http.antt =====
-- proxy.go: how the proxy reaches the API server, `New` with its table of routes, and
-- `fetchRecommendation`. The HTTP client and the decoder of JSON are parameters.
use Prim.Native.Char.{code}
use ovro.Types.{Time}
use ovro.Proxy.{owner_reject, owner_approve, Payload, BackendRecommendation, Backend, Endpoint}
pub mod Shown
use ovro.Prelude.{
  str_eq, ◌&&◌, ◌==◌, not, [], ◌∷◌, err, Option, ◌<>◌, ok, if◌then◌else◌, ℕ, String, Result,
}

pub record BackendAnswer : Type 0 where
  pub status : ℕ
  pub body : String

-- `httpClient.Get` and a POST with its headers and fields, `json.Decode` of a body, a number in
-- decimal, and the texts of time.
pub record ProxyClient (F W : Type 0) : Type 0 where
  pub get : String → W → Result BackendAnswer
  pub post : String → Payload → Payload → W → Result BackendAnswer × W
  pub decode : String → Result (BackendRecommendation F)
  pub itoa : ℕ → String
  pub parse_local_time : String → Option Time
  pub print_rfc3339 : Time → String

-- `strings.TrimRight(s, "/")`.
unfoldable pub trim_slashes : String → String
trim_slashes String.[] = ""
trim_slashes (String.◌∷◌ c s) =
    let rest = trim_slashes s in if code c == 47 && str_eq rest "" then "" else String.◌∷◌ c rest

abbrev pub recommendation_path : String → String → String
recommendation_path namespace name = "/api/v1/internal/recommendations/" <> namespace <> "/" <> name

-- `backendPath`.
abbrev pub endpoint_path : Endpoint → String
endpoint_path (owner_approve namespace name) =
    recommendation_path namespace name <> "/owner-approve"
endpoint_path (owner_reject namespace name) = recommendation_path namespace name <> "/owner-reject"

module _ {F W : Type 0} (c : ProxyClient F W) where
  unfoldable pub fetch_recommendation :
      String → String → String → W → Result (BackendRecommendation F)
  fetch_recommendation backend_url namespace name w =
      let url = backend_url <> recommendation_path namespace name in
      elim (c.get url w) [
        | err e ↦ err ("GET " <> url <> ": " <> e)
        | ok answer ↦
            if not (answer.status == 200)
            then err ("GET " <> url <> " returned " <> c.itoa answer.status <> ": " <> answer.body)
            else elim (c.decode answer.body) [
              | err e ↦ err ("decoding recommendation: " <> e)
              | ok rec ↦ ok rec
            ]
      ]

  abbrev pub status_of : Result BackendAnswer → Result ℕ
  status_of (ok answer) = ok answer.status
  status_of (err e) = err e

  unfoldable pub post_decision : String → Endpoint → Payload → String → W → Result ℕ × W
  post_decision backend_url endpoint payload owner w =
      let headers : Payload =
        ("Content-Type", "application/json") ∷ ("X-Approval-Owner", owner) ∷ [] in
      let (answer, w') = c.post (backend_url <> endpoint_path endpoint) headers payload w in
      (status_of answer, w')

  -- `New`: the backend of an URL, without the slashes at its end.
  unfoldable pub new_backend : String → Backend F W
  unfolding trim_slashes fetch_recommendation post_decision
  new_backend backend_url = record {
    post = post_decision (trim_slashes backend_url);
    fetch = fetch_recommendation (trim_slashes backend_url);
    parse_local = c.parse_local_time;
    format_rfc3339 = c.print_rfc3339;
  }
