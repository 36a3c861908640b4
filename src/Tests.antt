-- ===== src/Tests.antt =====
-- A small cluster and its program, at which the children apply the theorems: whole numbers for
-- percentages, tokens that name their owner, and forwarders that keep a journal or do nothing.
use ovro.Server.Middleware.{Request}
use ovro.Token.RoundTrip.{decoded, whole_seconds}
use ovro.Proxy.{Form, Backend}
use ovro.Server.Decide.{OwnerRejectRequest}
use ovro.Types.Policy.{default_policy_spec}
use ovro.Prelude.Int.{wrap32, leb_ℤ, ltb_ℤ, pos_part, quot, ◌*ℤ◌, ◌-ℤ◌, ◌+ℤ◌, pos, ℤ}
use ovro.Platform.{VirtualMachine}
use ovro.Controller.AutoApply.{Reconciler}
use ovro.Controller.Recommend.{Querier}
use ovro.Types.{
  Time, applied_pending_restart, pending, empty_status, label_owner, gi, downsize, ResourceSpec,
  Labels, Recommendation, NamespacedName,
}
use ovro.Token.{ParsedToken, approval_claims, hmac, TokenManager, ApprovalClaims, Jwt}
use ovro.Notifier.{Forwarder}
use ovro.Floats.{Floats}
use ovro.Platform.Memory.{same_name, Cluster}
use ovro.Server.{Clientset, max_age, UserInfo, key, awaiting, Server, ApplyRequest}
pub mod Histories
pub mod Deliveries
pub mod SetUps
pub mod Chains
pub mod Approvals
pub mod Numbers
pub mod Forwarders
pub mod Requests
pub mod Starts
pub mod Parts
pub mod Proxy
pub mod Handlers
use ovro.Prelude.{
  ltb, not, Result, [], ◌∷◌, false, ◌<>◌, str_eq, true, some, ok, none, if◌then◌else◌, err, String,
  Option,
}

-- Percentages without fractions. 0.70 is rounded up to 1, and a ceiling that does not fit wraps.
abbrev pub coarse : Floats
coarse = record {
  F = ℤ;
  of_int = λ n. n;
  point_seventy = pos 1;
  add = λ a b. a +ℤ b;
  sub = λ a b. a -ℤ b;
  mul = λ a b. a *ℤ b;
  div = λ a b. quot a (pos_part b);
  less = ltb_ℤ;
  at_most = leb_ℤ;
  max = λ a b. if ltb_ℤ a b then b else a;
  round = λ a. a;
  ceil_int32 = wrap32;
  ceil_int = λ a. a;
  floor_int = λ a. a;
  format1 = λ a. "some";
  parse_float = λ s. if str_eq s "40" then some (pos 40) else none;
}

abbrev pub show : ℤ → String
show n = "n"

-- A signer that knows one key, and takes only the tokens of Ann for the recommendation `web`.
abbrev pub ann_claims : ApprovalClaims
ann_claims = approval_claims "shop" "web" "ann" max_age 0

abbrev pub parse_ann : String → Time → Result ParsedToken
parse_ann t now =
    if not (str_eq t "token for ann")
    then err "unknown token"
    else if ltb now (whole_seconds ann_claims.expires_at)
    then ok (record { claims = decoded ann_claims; valid = true })
    else err "token has invalid claims: token is expired"

abbrev pub plain_jwt : Jwt
plain_jwt = record {
  signed_string = λ k c. ok ("token for " <> c.owner);
  parse_with_claims = λ t key_of now. elim (key_of hmac) [ err e ↦ err e | ok k ↦ parse_ann t now ];
}

abbrev pub web : NamespacedName
web = key "shop" "web"

abbrev pub size : ℤ → ℤ → ResourceSpec
size cores memory = record {
  cpu = record { cores = cores; sockets = pos 1; threads = pos 1 };
  memory = gi memory;
}

-- A pending reduction of the VM `web`, from 8 cores to 4.
abbrev pub shrink_web : Recommendation ℤ
shrink_web = record {
  meta = web;
  spec = record {
    virtual_machine_ref = record { name = "web"; namespace = "shop" };
    direction = downsize;
    current = size (pos 8) (pos 16);
    recommended = size (pos 4) (pos 8);
    savings = record { cpu = pos 4; memory = gi (pos 8) };
    metrics = record {
      lookback_days = pos 30;
      cpu_p95_percent = pos 20;
      memory_p95_percent = pos 20;
      cpu_max_percent = pos 30;
      memory_max_percent = pos 30;
    };
    hotplug_capable = false;
    reason = "idle";
  };
  status = record empty_status { state = pending; last_calculated = some 10 };
}

-- The same, waiting for its owner.
abbrev pub waiting_web : Recommendation ℤ
waiting_web = record shrink_web {
  status = awaiting "ann" "token for ann" 20 (size (pos 8) (pos 16)) shrink_web.status;
}

abbrev pub owned_by : String → Labels
owned_by owner name = if str_eq name label_owner then some owner else none

abbrev pub web_vm : VirtualMachine
web_vm = record {
  meta = web;
  labels = owned_by "ann";
  annotations = λ name. none;
  nested_int64 = λ path. ok (some (pos 8));
  nested_string = λ path. ok none;
}

-- A cluster with one VM and at most one recommendation, both called `web`.
abbrev pub cluster : Option (Recommendation ℤ) → Cluster ℤ
cluster item = record {
  clock = 1000;
  items = λ k. if same_name k web then item else none;
  policy = some default_policy_spec;
  vms = λ k. if same_name k web then some web_vm else none;
  namespaces = λ name. some (λ label. none);
  patches = [];
  writable = true;
}

abbrev pub before_all : Cluster ℤ
before_all = cluster none

abbrev pub with_pending : Cluster ℤ
with_pending = cluster (some shrink_web)

abbrev pub with_waiting : Cluster ℤ
with_waiting = cluster (some waiting_web)

abbrev pub mail : Forwarder (Cluster ℤ)
mail = record { name = "smtp"; send = λ n w. (none, w) }

abbrev pub server : Server (Cluster ℤ)
server = record {
  clientset = some (record {
    token_review = λ token w. err "no token";
    access_review = λ review w. ok (str_eq review.namespace "shop");
  });
  dynamic_client = true;
  owner_resolver = true;
  token_manager = some (record { signing_key = "key" });
  notifier = some (mail ∷ []);
  approval_route_host = "approve.example.com";
  demo_mode = false;
}

abbrev pub direct_server : Server (Cluster ℤ)
direct_server = record server { token_manager = none }

abbrev pub reconciler : Reconciler (Cluster ℤ)
reconciler = record {
  demo_mode = true;
  applier = true;
  owner_resolver = true;
  token_manager = none;
  notifier = none;
  approval_route_host = "";
}

abbrev pub no_metrics_query : Querier (Cluster ℤ) ℤ
no_metrics_query name namespace days cores bytes w = err "no metrics"

abbrev pub at_schedule : ApplyRequest
at_schedule = record { restart_option = "schedule"; scheduled_at = "2026-01-01T00:00:00Z" }

abbrev pub at_once : ApplyRequest
at_once = record { restart_option = "now"; scheduled_at = "" }

abbrev pub exclude_it : OwnerRejectRequest
exclude_it = record { reason = "never"; action = "exclude" }

abbrev pub admin : UserInfo
admin = record { username = "root"; uid = "1"; groups = [] }

-- The same recommendation, approved for a restart that is due, and one of a VM that is gone.
abbrev pub with_due : Cluster ℤ
with_due = cluster (
    some (record shrink_web {
      status = record waiting_web.status {
        state = applied_pending_restart;
        scheduled_restart_at = some 900;
      };
    }))

abbrev pub lost_web : Recommendation ℤ
lost_web = record shrink_web {
  spec = record (shrink_web.spec) {
    virtual_machine_ref = record { name = "lost"; namespace = "shop" };
  };
}

abbrev pub manager : TokenManager
manager = record { signing_key = "key" }

abbrev pub page_backend : Backend ℤ (Cluster ℤ)
page_backend = record {
  post = λ endpoint payload owner w. (err "no network", w);
  fetch = λ namespace name w. err "no network";
  parse_local = λ s. none;
  format_rfc3339 = λ t. "2026-01-01T00:00:00Z";
}

abbrev pub approval_form : Form
approval_form = record {
  token = "token for ann";
  action = "approve";
  restart_option = "later";
  scheduled_at = "";
  reason = "";
}

-- A server that knows one token, and a request that carries it.
abbrev pub clients : Clientset (Cluster ℤ)
clients = record {
  token_review = λ token w. ok (if str_eq token "abc" then some admin else none);
  access_review = λ review w. ok (str_eq review.namespace "shop");
}

abbrev pub reject_request : Request
reject_request = record {
  method = "POST";
  path = "/api/v1/recommendations/shop/web/reject";
  authorization = "Bearer abc";
}
