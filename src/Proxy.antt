-- ===== src/Proxy.antt =====
-- internal/approvalproxy/proxy.go: the page on which an owner decides, and its form, which the proxy
-- forwards to the API server. HTML templates and the HTTP client are parameters or left out; the
-- path of a forwarded request is an `Endpoint`, its JSON body a list of fields.
pub mod Cluster
pub mod Decisions
pub mod Routes
pub mod Http
pub mod Scheduled
pub mod Restarted
use ovro.Types.{Time, MetricsSnapshot}
use ovro.Token.{validate_token, ApprovalClaims, TokenManager, Jwt}
use ovro.Prelude.Int.{ℤ}
use ovro.Platform.{Platform}
use ovro.Prelude.{
  not, ◌&&◌, [], ◌∷◌, ◌<>◌, leb, str_eq, ok, none, some, if◌then◌else◌, err, Bool, Option, ℕ,
  Result, List, String,
}

-- `/api/v1/internal/recommendations/NAMESPACE/NAME/owner-approve`, and with `owner-reject`.
pub data Endpoint : Type 0 where
  owner_approve : String → String → Endpoint
  owner_reject : String → String → Endpoint

abbrev pub Payload : Type 0
Payload = List (String × String)

-- What the backend answers about a recommendation, and what the page shows of it.
pub record BackendRecommendation (F : Type 0) : Type 0 where
  pub vm_name : String
  pub namespace : String
  pub direction : String
  pub current_cpu : ℤ
  pub current_memory : String
  pub recommended_cpu : ℤ
  pub recommended_memory : String
  pub cpu_savings : ℤ
  pub memory_savings : String
  pub metrics : MetricsSnapshot F
  pub hotplug_capable : Bool

pub record ApprovalPageData (F : Type 0) : Type 0 where
  pub recommendation : BackendRecommendation F
  pub token : String
  pub owner : String

-- The HTTP client, and the texts of time: `post` is a request with the header `X-Approval-Owner`,
-- and ends in an error or a status code; `fetch` is `fetchRecommendation`'s GET with its decoding.
-- `parse_local` reads the form's "2006-01-02T15:04", `format_rfc3339` prints in UTC.
pub record Backend (F W : Type 0) : Type 0 where
  pub post : Endpoint → Payload → String → W → Result ℕ × W
  pub fetch : String → String → W → Result (BackendRecommendation F)
  pub parse_local : String → Option Time
  pub format_rfc3339 : Time → String

-- The fields of the submitted form.
pub record Form : Type 0 where
  pub token : String
  pub action : String
  pub restart_option : String
  pub scheduled_at : String
  pub reason : String

pub data Page (F : Type 0) : Type 0 where
  -- `renderError` with its status code, and `renderResult`.
  error_page : ℕ → String → Page F
  result_page : String → String → Page F
  approval_page : ApprovalPageData F → Page F

abbrev pub invalid_token : {F : Type 0} → Page F
invalid_token = error_page 401 "Invalid or Expired Token"

module _ {F : Type 0} (P : Platform F) (J : Jwt) (tm : TokenManager) (B : Backend F P.World) where
  unfoldable pub handle_get_approve : String → P.World → Page F
  unfolding validate_token
  handle_get_approve token w =
      if str_eq token ""
      then error_page 400 "Missing Token"
      else elim (validate_token J tm token (P.now w)) [
        | err e ↦ invalid_token
        | ok claims ↦ elim (B.fetch claims.namespace claims.rec_name w) [
          | err e ↦ error_page 502 "Unable to Load Recommendation"
          | ok rec ↦
              approval_page (record { recommendation = rec; token = token; owner = claims.owner })
        ]
      ]

  -- A time of the form's own format becomes RFC 3339; any other text is kept.
  unfoldable pub normalize_time : String → String
  normalize_time scheduled_at =
      let normalized : String = elim (P.parse_rfc3339 scheduled_at) [
        | some t ↦ scheduled_at
        | none ↦ elim (B.parse_local scheduled_at) [
          | none ↦ scheduled_at
          | some t ↦ B.format_rfc3339 t
        ]
      ] in
      if str_eq scheduled_at "" then "" else normalized

  -- `switch action`: where the decision goes and what it carries, `none` for another action.
  unfoldable pub backend_request : ApprovalClaims → Form → Option (Endpoint × Payload)
  unfolding normalize_time
  backend_request claims form =
      let option : String × String = ("restartOption", form.restart_option) in
      let scheduled = normalize_time form.scheduled_at in
      if str_eq form.action "approve"
      then some (
        owner_approve claims.namespace claims.rec_name,
        if str_eq form.scheduled_at ""
            then option ∷ []
            else option ∷ ("scheduledAt", normalize_time form.scheduled_at) ∷ [],
      )
      else if str_eq form.action "reject"
      then some (owner_reject claims.namespace claims.rec_name, ("reason", form.reason) ∷ [])
      else if str_eq form.action "exclude"
      then some (
        owner_reject claims.namespace claims.rec_name,
        ("reason", form.reason) ∷ ("exclude", "true") ∷ [],
      )
      else none

  -- The page about a decision that the backend took.
  unfoldable pub result_of : Form → Page F
  unfolding normalize_time
  result_of form =
      let scheduled = normalize_time form.scheduled_at in
      let approved : String =
        "The rightsizing recommendation has been approved and will be applied." in
      if str_eq form.action "approve"
      then (if str_eq form.restart_option "schedule" && not (str_eq scheduled "")
          then result_page "Recommendation Approved"
              (approved <> " The VM restart is scheduled for " <> scheduled <> ".")
          else if str_eq form.restart_option "later"
          then result_page "Recommendation Approved"
              (approved <> " The VM will need to be restarted manually to apply the changes.")
          else result_page "Recommendation Approved" approved)
      else if str_eq form.action "reject"
      then result_page "Recommendation Rejected" "The rightsizing recommendation has been rejected."
      else result_page "VM Excluded from Rightsizing"
          "The VM has been excluded from future rightsizing recommendations."

  -- Forward a decision, and show what came of it.
  unfoldable pub forward : Form → String → Endpoint → Payload → P.World → Page F × P.World
  unfolding result_of
  forward form owner endpoint payload w =
      let (answer, w') = B.post endpoint payload owner w in
      elim answer [
        | err e ↦ (error_page 502 "Backend Unavailable", w')
        | ok code ↦ (if leb 400 code then error_page 502 "Action Failed" else result_of form, w')
      ]

  -- `none` is a form that does not parse.
  unfoldable pub handle_post_approve : Option Form → P.World → Page F × P.World
  unfolding validate_token backend_request forward
  handle_post_approve none w = (error_page 400 "Invalid Form", w)
  handle_post_approve (some form) w =
      if str_eq form.token ""
      then (error_page 400 "Missing Token", w)
      else elim (validate_token J tm form.token (P.now w)) [
        | err e ↦ (invalid_token, w)
        | ok claims ↦ elim (backend_request claims form) [
          | none ↦ (error_page 400 "Invalid Action", w)
          | some (endpoint, payload) ↦ forward form claims.owner endpoint payload w
        ]
      ]
