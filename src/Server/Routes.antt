-- ===== src/Server/Routes.antt =====
-- server.go: the table of routes, and a request's way to its handler. Which route a request takes is
-- up to `http.ServeMux`, a parameter.
use ovro.Server.PolicyApi.{handle_update_policy, handle_get_policy}
use ovro.Server.Exclusion.{handle_remove_exclusion, handle_exclude}
use ovro.Server.Apply.{handle_revert, handle_apply}
use ovro.Types.Policy.{PolicySpec}
use ovro.Server.Overview.{
  handle_overview, handle_list_vms, handle_get_recommendation, handle_list_recommendations,
}
use ovro.Server.Decide.{
  handle_owner_reject, handle_owner_approve, handle_reject, OwnerRejectRequest, RejectRequest,
}
use ovro.Server.Middleware.{auth_middleware, Request}
use ovro.Token.{Jwt}
use ovro.Platform.{Platform}
pub mod Guarded
use ovro.Server.{http_error, UserInfo, ApplyRequest, Response, Server}
use ovro.Prelude.{none, some, [], ◌∷◌, ℕ, Option, List, String}

-- The handlers that stand behind the gate, and those that do not.
pub data Handler : Type 0 where
  list_recommendations : Handler
  get_recommendation : Handler
  apply_recommendation : Handler
  revert_recommendation : Handler
  list_vms : Handler
  exclude_vm : Handler
  include_vm : Handler
  get_overview : Handler
  get_policy_spec : Handler
  put_policy_spec : Handler
  reject_recommendation : Handler
  approve_as_owner : Handler
  reject_as_owner : Handler

-- `auth(h)`, and `h`.
pub data Guard : Type 0 where
  auth : Handler → Guard
  open_to_all : Handler → Guard

pub record Route : Type 0 where
  pub method : String
  pub pattern : String
  pub guard : Guard

abbrev pub route : String → String → Guard → Route
route method pattern guard = record { method = method; pattern = pattern; guard = guard }

-- `registerRoutes`.
abbrev pub routes : List Route
routes =
    route "GET" "/api/v1/recommendations" (auth list_recommendations)
    ∷ route "GET" "/api/v1/recommendations/{namespace}/{name}" (auth get_recommendation)
    ∷ route "POST" "/api/v1/recommendations/{namespace}/{name}/apply" (auth apply_recommendation)
    ∷ route "POST" "/api/v1/recommendations/{namespace}/{name}/revert" (auth revert_recommendation)
    ∷ route "GET" "/api/v1/vms" (auth list_vms)
    ∷ route "POST" "/api/v1/vms/{namespace}/{name}/exclude" (auth exclude_vm)
    ∷ route "DELETE" "/api/v1/vms/{namespace}/{name}/exclude" (auth include_vm)
    ∷ route "GET" "/api/v1/overview" (auth get_overview)
    ∷ route "GET" "/api/v1/policy" (auth get_policy_spec)
    ∷ route "PUT" "/api/v1/policy" (auth put_policy_spec)
    ∷ route "POST" "/api/v1/recommendations/{namespace}/{name}/reject" (auth reject_recommendation)
    ∷ route "GET" "/api/v1/internal/recommendations/{namespace}/{name}"
        (open_to_all get_recommendation)
    ∷ route "POST" "/api/v1/internal/recommendations/{namespace}/{name}/owner-approve"
        (open_to_all approve_as_owner)
    ∷ route "POST" "/api/v1/internal/recommendations/{namespace}/{name}/owner-reject"
        (open_to_all reject_as_owner)
    ∷ []

-- What the handlers read of a request besides its path: the query, the header of the owner, and the
-- body, as each of them decodes it.
pub record Inputs : Type 0 where
  pub query_namespace : String
  pub query_direction : String
  pub query_state : String
  pub approval_owner : String
  pub apply_body : Option ApplyRequest
  pub reject_body : Option RejectRequest
  pub owner_reject_body : Option OwnerRejectRequest
  pub policy_body : Option PolicySpec

-- A route with the values of its `{namespace}` and `{name}`, or the code that the mux answers.
pub data Routed : Type 0 where
  no_route : ℕ → Routed
  taken : Route → String → String → Routed

-- `http.ServeMux` of a table.
abbrev pub Mux : Type 0
Mux = List Route → Request → Routed

-- The user of a request's context; there is none where no gate has been passed.
abbrev pub user_or_nobody : Option UserInfo → UserInfo
user_or_nobody none = record { username = ""; uid = ""; groups = [] }
user_or_nobody (some user) = user

module _ {F : Type 0} (P : Platform F) (J : Jwt) (s : Server P.World) (i : Inputs) where
  unfoldable pub handle :
      Handler → Option UserInfo → String → String → P.World → Response F × P.World
  handle list_recommendations user namespace name w =
      (handle_list_recommendations P s user i.query_namespace i.query_direction i.query_state w, w)
  handle get_recommendation user namespace name w =
      (handle_get_recommendation P namespace name w, w)
  handle apply_recommendation user namespace name w =
      handle_apply P J s namespace name i.apply_body w
  handle revert_recommendation user namespace name w = handle_revert P namespace name w
  handle list_vms user namespace name w = (handle_list_vms P s user w, w)
  handle exclude_vm user namespace name w = handle_exclude P s namespace name w
  handle include_vm user namespace name w = handle_remove_exclusion P s namespace name w
  handle get_overview user namespace name w = (handle_overview P s user w, w)
  handle get_policy_spec user namespace name w = (handle_get_policy P w, w)
  handle put_policy_spec user namespace name w = handle_update_policy P i.policy_body w
  handle reject_recommendation user namespace name w =
      handle_reject P (user_or_nobody user) namespace name i.reject_body w
  handle approve_as_owner user namespace name w =
      handle_owner_approve P i.approval_owner namespace name i.apply_body w
  handle reject_as_owner user namespace name w =
      handle_owner_reject P s i.approval_owner namespace name i.owner_reject_body w

  unfoldable pub serve_guarded : Guard → Request → String → String → P.World → Response F × P.World
  unfolding handle auth_middleware
  serve_guarded (auth h) r namespace name w =
      auth_middleware s.clientset (λ user. handle h (some user) namespace name) r w
  serve_guarded (open_to_all h) r namespace name w = handle h none namespace name w

  unfoldable pub serve_http : Mux → Request → P.World → Response F × P.World
  unfolding serve_guarded
  serve_http mux r w = elim (mux routes r) [
    | no_route code ↦ (http_error code "", w)
    | taken found namespace name ↦ serve_guarded found.guard r namespace name w
  ]
