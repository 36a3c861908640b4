-- ===== src/Server/Middleware.antt =====
-- middleware.go: the gate before every handler of the console, which asks the API server who sends a
-- request and whether that user may do it.
use ovro.Server.{http_error, Response, Clientset, AccessReview, UserInfo}
pub mod Gate
pub mod Paths
use Prim.Native.Char.{code}
use ovro.Prelude.{
  ok, err, ◌+◌, ◌||◌, ◌<>◌, ◌&&◌, false, [], ◌∷◌, ◌==◌, true, str_eq, some, leb, ℕ, none,
  if◌then◌else◌, Option, List, Bool, String,
}

-- A request: its method, its path, and its header `Authorization`, empty where there is none.
pub record Request : Type 0 where
  pub method : String
  pub path : String
  pub authorization : String

-- The texts before and after the first character of a code, `none` where it does not occur:
-- `strings.SplitN` into two.
unfoldable pub cut_at : ℕ → String → Option (String × String)
cut_at sep String.[] = none
cut_at sep (String.◌∷◌ c s) =
    let rest = cut_at sep s in
    if code c == sep
    then some ("", s)
    else elim rest [ none ↦ none | some (before, after) ↦ some (String.◌∷◌ c before, after) ]

-- `strings.EqualFold` with a text of lower-case letters other than k and s.
abbrev pub lower : ℕ → ℕ
lower n = if leb 65 n && leb n 90 then n + 32 else n

unfoldable pub equal_fold : String → String → Bool
equal_fold String.[] String.[] = true
equal_fold String.[] (String.◌∷◌ d t) = false
equal_fold (String.◌∷◌ c s) String.[] = false
equal_fold (String.◌∷◌ c s) (String.◌∷◌ d t) = (lower (code c) == lower (code d)) && equal_fold s t

-- The empty text of a header that is missing has no space.
unfoldable pub extract_bearer_token : Request → String
unfolding cut_at equal_fold
extract_bearer_token r = elim (cut_at 32 r.authorization) [
  | none ↦ ""
  | some (scheme, token) ↦ if equal_fold scheme "bearer" then token else ""
]

unfoldable pub http_method_to_verb : String → String
http_method_to_verb method =
    if str_eq method "POST" || str_eq method "PUT"
    then "update"
    else if str_eq method "DELETE"
    then "delete"
    else "get"

abbrev pub onto_first : String → List String → List String
onto_first c [] = c ∷ []
onto_first c (part ∷ parts) = (c <> part) ∷ parts

-- `strings.Split` at a character.
unfoldable pub split : ℕ → String → List String
split sep String.[] = "" ∷ []
split sep (String.◌∷◌ c s) =
    let rest = split sep s in if code c == sep then "" ∷ rest else onto_first (String.◌∷◌ c "") rest

-- `strings.TrimPrefix(path, "/")`.
unfoldable pub trim_slash : String → String
trim_slash String.[] = ""
trim_slash (String.◌∷◌ c s) = if code c == 47 then s else String.◌∷◌ c s

unfoldable pub namespace_of_parts : List String → String
namespace_of_parts (api ∷ version ∷ kind ∷ namespace ∷ name ∷ parts) =
    if str_eq kind "recommendations" || str_eq kind "vms" then namespace else ""
namespace_of_parts _ = ""

unfoldable pub extract_namespace_from_path : String → String
unfolding split trim_slash namespace_of_parts
extract_namespace_from_path path = namespace_of_parts (split 47 (trim_slash path))

unfoldable pub resource_of_parts : List String → String
resource_of_parts (api ∷ version ∷ kind ∷ parts) =
    if str_eq kind "policy"
    then "rightsizingpolicies"
    else if str_eq kind "vms"
    then "virtualmachines"
    else "rightsizingrecommendations"
resource_of_parts _ = "rightsizingrecommendations"

unfoldable pub resource_from_path : String → String
unfolding split trim_slash resource_of_parts
resource_from_path path = resource_of_parts (split 47 (trim_slash path))

-- What the gate asks about a request of a user.
unfoldable pub review_of : UserInfo → Request → AccessReview
review_of user r = record {
  user = user.username;
  groups = user.groups;
  verb = http_method_to_verb r.method;
  group = "rightsizing.redhatconsulting.io";
  resource = resource_from_path r.path;
  namespace = extract_namespace_from_path r.path;
}

module _ {F W : Type 0} where
  -- `next` is the handler behind the gate, which finds the user in the request's context.
  unfoldable pub auth_middleware :
      Option (Clientset W) → (UserInfo → W → Response F × W) → Request → W → Response F × W
  unfolding extract_bearer_token review_of
  auth_middleware clientset next r w =
      let token = extract_bearer_token r in
      if str_eq token "" then (http_error 401 "unauthorized", w) else elim clientset [
        | none ↦ (http_error 500 "internal server error", w)
        | some c ↦ elim (c.token_review token w) [
          | err e ↦ (http_error 401 "unauthorized", w)
          | ok review ↦ elim review [
            | none ↦ (http_error 401 "unauthorized", w)
            | some user ↦ elim (c.access_review (review_of user r) w) [
              | err e ↦ (http_error 403 "forbidden", w)
              | ok allowed ↦ if allowed then next user w else (http_error 403 "forbidden", w)
            ]
          ]
        ]
      ]
