-- ===== src/Tests/Starts.antt =====
-- The program as it is started, and a restart that is due.
use ovro.Server.{max_age}
use ovro.Program.Adapters.Keys.{start_proxy-validates}
use ovro.Tests.Proxy.{one_jwt-IsLawfulJwt, one_jwt}
use ovro.Token.{ApprovalClaims, validate_token, generate_token}
use ovro.Program.Adapters.{start_proxy, ProxySettings}
use ovro.Notifier.Snmp.{new_snmp_forwarder}
use ovro.Notifier.Smtp.{smtp_secret, new_smtp_forwarder}
use ovro.Tests.Histories.{with_pending-AllSound}
use ovro.System.{next, begin, reverts}
use ovro.Program.{
  new_server, add_dispatcher, signing_workflow, demo_workflow, approval_workflow, start,
}
use ovro.Controller.Restart.Due.{reconcile_restart-IsApplied, after_restart}
use ovro.Notifier.Registry.{new_forwarder, new_dispatcher}
use ovro.Controller.{done}
use ovro.System.Started.{start-AllSound}
use ovro.Server.Apply.{handle_revert}
use ovro.Prelude.Int.{pos, ℤ}
use ovro.Controller.Restart.{reconcile_restart}
use ovro.Tests.Forwarders.{list_of, configs, outside}
use ovro.Lifecycle.Invariant.{AllSound}
use ovro.Program.{configured, Wired, Settings}
use ovro.Types.{applied_pending_restart, Recommendation}
use ovro.Program.Wiring.{start-IsConsistent, IsConsistent}
use ovro.Platform.Memory.{memory, memory-IsLawful, Cluster}
use mathlib.Core.Path.{refl}
use ovro.Tests.{
  manager, no_metrics_query, show, with_due, plain_jwt, with_pending, web, waiting_web, coarse,
  shrink_web, server, clients, before_all,
}
use ovro.Prelude.{inl, arith, true, false, some, ok, err, ◌≡◌}

abbrev pub settings : Settings
settings = record {
  demo_mode = "";
  approval_route_host = "approve.example.com";
  env_approval_route_host = "";
  signing_key_path = "/keys/signing";
  env_signing_key_path = "";
  demo_key = err "no randomness";
  signing_key = λ path. ok "key";
  notifications = configured configs;
}

abbrev started : Wired (Cluster ℤ)
started = record {
  server = record server {
    clientset = some clients;
    notifier = some (list_of (new_dispatcher outside configs before_all));
  };
  reconciler = record {
    demo_mode = false;
    applier = true;
    owner_resolver = true;
    token_manager = some manager;
    notifier = some (list_of (new_dispatcher outside configs before_all));
    approval_route_host = "approve.example.com";
  };
}

started_lem : start outside clients settings before_all ≡ ok started
unfolding start approval_workflow demo_workflow signing_workflow add_dispatcher new_server
    new_dispatcher new_forwarder new_smtp_forwarder smtp_secret new_snmp_forwarder
started_lem = refl

start-IsConsistent_example : IsConsistent outside clients settings before_all started
start-IsConsistent_example =
    start-IsConsistent outside clients settings before_all started started_lem

abbrev rejected_world : Cluster ℤ
rejected_world = (handle_revert memory "shop" "web" with_pending).1

start-AllSound_example : AllSound (memory-IsLawful.objects rejected_world)
unfolding memory-IsLawful
start-AllSound_example =
    start-AllSound coarse memory plain_jwt memory-IsLawful outside clients settings before_all show
      no_metrics_query started (λ request w. refl) (λ command w. refl) started_lem
      (next begin (reverts "shop" "web")) with_pending-AllSound

abbrev due_web : Recommendation ℤ
due_web = record shrink_web {
  status = record waiting_web.status {
    state = applied_pending_restart;
    scheduled_restart_at = some 900;
  };
}

reconcile_restart-IsApplied_example :
    ((reconcile_restart memory web with_due).0 ≡ done (pos 0))
    × (memory-IsLawful.objects (reconcile_restart memory web with_due).1 web
        ≡ some (after_restart memory memory-IsLawful due_web with_due))
unfolding memory-IsLawful
reconcile_restart-IsApplied_example =
    reconcile_restart-IsApplied memory memory-IsLawful web with_due due_web
      (after_restart memory memory-IsLawful due_web with_due) 900
      (record { fetched = refl; waits = refl; set = refl; passed = omega arith }) refl refl

abbrev proxy_settings : ProxySettings
proxy_settings = record {
  backend_url = "https://api.example.com";
  env_backend_url = "";
  signing_key_path = "";
  env_signing_key_path = "/keys/signing";
  signing_key = λ path. ok "key";
}

proxy_settings_lem : start_proxy proxy_settings ≡ ok (manager, "https://api.example.com")
unfolding start_proxy
proxy_settings_lem = refl

start_proxy-validates_example :
    (claims : ApprovalClaims) × (validate_token one_jwt manager "token for ann" 1000 ≡ ok claims)
    × (claims.namespace ≡ "shop")
    × (claims.rec_name ≡ "web")
    × (claims.owner ≡ "ann")
unfolding generate_token
start_proxy-validates_example =
    start_proxy-validates outside clients settings before_all one_jwt one_jwt-IsLawfulJwt started
      proxy_settings manager manager "https://api.example.com" "shop" "web" "ann" "token for ann"
      max_age 0 1000 started_lem proxy_settings_lem refl refl (inl refl) refl (omega arith)
