-- ===== src/Server.antt =====
-- internal/apiserver: what the handlers of the REST API share (server.go, handlers.go). A handler is
-- a function from its path values, its decoded body (`none` where decoding fails) and a world to a
-- response and the next world; the children hold the handlers, `Laws` their properties.
-- A nil client, resolver, token manager or dispatcher is a field that is `none` or `false`.
use ovro.Prelude.{
  ℕ, String, ◌<>◌, Bool, Option, none, some, List, Result, ok, err, str_eq, if◌then◌else◌,
}
use ovro.Prelude.Int.{ℤ, quot, wrap32}
use ovro.Types.{
  Time, ResourceSpec, Quantity, Recommendation, RecommendationStatus, NamespacedName,
  awaiting_approval, direction_text,
}
use ovro.Types.Policy.{PolicySpec}
use ovro.Platform.{Platform}
use ovro.Notifier.{Notification, Forwarder}
use ovro.Token.{TokenManager}
pub mod Access
pub mod Apply
pub mod Decide
pub mod Exclusion
pub mod Overview
pub mod PolicyApi
pub mod Lifecycle
pub mod Outcomes
pub mod Middleware
pub mod Routes

pub record UserInfo : Type 0 where
  pub username : String
  pub uid : String
  pub groups : List String

-- The fields of a SubjectAccessReview that the program fills in.
pub record AccessReview : Type 0 where
  pub user : String
  pub groups : List String
  pub verb : String
  pub group : String
  pub resource : String
  pub namespace : String

-- client-go's clientset: token reviews (`some` user if authenticated) and access reviews.
pub record Clientset (W : Type 0) : Type 0 where
  pub token_review : String → W → Result (Option UserInfo)
  pub access_review : AccessReview → W → Result Bool

pub record Server (W : Type 0) : Type 0 where
  pub clientset : Option (Clientset W)
  pub dynamic_client : Bool
  pub owner_resolver : Bool
  pub token_manager : Option TokenManager
  pub notifier : Option (List (Forwarder W))
  pub approval_route_host : String
  pub demo_mode : Bool

pub record ApplyRequest : Type 0 where
  pub restart_option : String
  pub scheduled_at : String

pub record OverviewResponse : Type 0 where
  pub total_vms : ℕ
  pub downsize_candidates : ℕ
  pub upsize_needed : ℕ
  pub applied_today : ℕ
  pub total_cpu_savings : ℤ
  pub total_memory_savings : ℤ

pub record VmListItem : Type 0 where
  pub name : String
  pub namespace : String
  pub excluded : Bool
  pub running : Bool
  pub cpu_cores : ℤ
  pub memory : String

pub data Body (F : Type 0) : Type 0 where
  message : String → Body F
  status_only : String → Body F
  -- The status, owner, message and approval URL of a routed recommendation.
  routed : String → String → String → Body F
  one : Recommendation F → Body F
  several : List (Recommendation F) → Body F
  overview : OverviewResponse → Body F
  vms : List VmListItem → Body F
  policy : PolicySpec → Body F

pub record Response (F : Type 0) : Type 0 where
  pub code : ℕ
  pub body : Body F

module _ {F : Type 0} where
  -- `http.Error(w, text, code)`.
  abbrev pub http_error : ℕ → String → Response F
  http_error code text = record { code = code; body = message text }

  -- `writeJSON(w, v)`, which leaves the status 200.
  abbrev pub write_json : Body F → Response F
  write_json b = record { code = 200; body = b }

abbrev pub max_age : Time
max_age = 1209600000000000

-- `fmt.Sprintf("https://%s/approve?token=%s", host, token)`.
abbrev pub approval_url : String → String → String
approval_url host token = "https://" <> host <> "/approve?token=" <> token

-- The status of a recommendation that waits for its owner.
abbrev pub awaiting :
    String → String → Time → ResourceSpec → RecommendationStatus → RecommendationStatus
awaiting owner token now current s = record s {
  state = awaiting_approval;
  owner = owner;
  approval_token = token;
  notified_at = some now;
  revert_config = some (record { cpu = current.cpu; memory = current.memory });
}

-- The answer of an update, with the VM that was read before it.
abbrev pub about_vm_of : {F : Type 0} → Recommendation F → Recommendation F → Recommendation F
about_vm_of rec saved = record saved {
  spec = record (saved.spec) { virtual_machine_ref = rec.spec.virtual_machine_ref };
}

-- An error of the resolver is logged, and the owner is then the empty text.
abbrev pub owner_or_empty : Result String → String
owner_or_empty (ok owner) = owner
owner_or_empty (err e) = ""

abbrev pub key : String → String → NamespacedName
key namespace name = record { namespace = namespace; name = name }

module _ {F : Type 0} (P : Platform F) where
  -- `int32(q.Value() / (1024 * 1024 * 1024))`.
  unfoldable pub gibibytes : Quantity → ℤ
  gibibytes q = wrap32 (quot (P.quantity_value q) 1073741824)

  -- The notification about a recommendation.
  unfoldable pub notification_of : Recommendation F → String → String → Notification
  notification_of rec owner url = record {
    vm_name = rec.spec.virtual_machine_ref.name;
    namespace = rec.spec.virtual_machine_ref.namespace;
    owner = owner;
    direction = direction_text rec.spec.direction;
    current_cpu = rec.spec.current.cpu.cores;
    current_memory = gibibytes rec.spec.current.memory;
    rec_cpu = rec.spec.recommended.cpu.cores;
    rec_memory = gibibytes rec.spec.recommended.memory;
    approval_url = url;
  }

  -- The common end of the handlers: store the status, and answer with the object or with 500.
  unfoldable pub save_status : Recommendation F → P.World → Response F × P.World
  save_status rec w =
      let (r, w') = P.update_status rec w in
      elim r [
        | ok saved ↦ (write_json (one saved), w')
        | err e ↦ (http_error 500 "internal server error", w')
      ]

  -- The `switch req.RestartOption` for a VM without hotplug: `none` where the time does not parse.
  unfoldable pub choose_restart :
      ApplyRequest → Time → RecommendationStatus → Option RecommendationStatus
  choose_restart req now s =
      if str_eq req.restart_option "schedule"
      then elim (P.parse_rfc3339 req.scheduled_at) [
        | none ↦ none
        | some t ↦ some (record s { scheduled_restart_at = some t })
      ]
      else if str_eq req.restart_option "now"
      then some (record s { applied_at = some now })
      else some s
