-- ===== src/Tests/SetUps.antt =====
-- The manager's set-up, the metrics client's, and a page that the proxy shows.
use ovro.Notifier.Snmp.{new_snmp_forwarder}
use ovro.Tests.Starts.{settings}
use ovro.Tests.Forwarders.{outside}
use ovro.Program.Manager.Secured.{set_up-IsSecured}
use ovro.Notifier.Registry.{new_forwarder, new_dispatcher}
use ovro.Proxy.Http.Shown.{handle_get_approve-IsShown}
use ovro.Program.Listeners.{empty_tls}
use ovro.Tests.{before_all, with_waiting, shrink_web, manager, clients, plain_jwt}
use ovro.Prelude.Int.{pos, ℤ}
use ovro.Platform.Memory.{memory, Cluster}
use ovro.Prelude.{
  [], ◌∷◌, ◌+◌, none, ◌<>◌, str_eq, ok, ℕ, true, if◌then◌else◌, err, ◌≡◌, false, String,
}
use ovro.Notifier.Smtp.{smtp_secret, new_smtp_forwarder}
use ovro.Proxy.Http.{
  recommendation_path, fetch_recommendation, trim_slashes, new_backend, BackendAnswer, ProxyClient,
}
use ovro.Program.Manager.{
  configure, cert_watcher, register_parts, set_up, Runtime, ManagerOptions, Flags,
}
use ovro.Proxy.{approval_page, handle_get_approve, BackendRecommendation, ApprovalPageData}
use ovro.Token.{ApprovalClaims, verification_key, validate_token}
use ovro.Program.{
  new_server, add_dispatcher, signing_workflow, demo_workflow, approval_workflow, start,
}
use mathlib.Core.Path.{refl}

abbrev default_flags : Flags
default_flags = record {
  metrics_addr = "0";
  metrics_cert_path = "";
  metrics_cert_name = "tls.crt";
  metrics_cert_key = "tls.key";
  webhook_cert_path = "/certs";
  webhook_cert_name = "tls.crt";
  webhook_cert_key = "tls.key";
  enable_leader_election = false;
  probe_addr = ":8081";
  secure_metrics = true;
  enable_http2 = false;
  api_addr = ":8443";
  tls_cert_file = "";
  tls_key_file = "";
}

-- A manager that counts what is registered with it.
abbrev counting : Runtime String (Cluster ℤ) ℕ
counting = record {
  join = λ path name. path <> "/" <> name;
  new_watcher = λ cert key. ok cert;
  new_manager = λ options. ok 0;
  new_clientset = ok clients;
  new_dynamic_client = ok tt;
  register = λ part m. ok (m + 1);
}

registers_six : set_up counting outside settings default_flags before_all ≡ ok 6
unfolding set_up register_parts cert_watcher start approval_workflow demo_workflow signing_workflow
    add_dispatcher new_server new_dispatcher new_forwarder new_smtp_forwarder smtp_secret
    new_snmp_forwarder
registers_six = refl

set_up-IsSecured_example :
    (options : ManagerOptions String) × (mgr : ℕ) × (counting.new_manager options ≡ ok mgr)
    × ((configure options.metrics.tls_opts empty_tls).next_protos ≡ "http/1.1" ∷ [])
    × ((configure options.webhook_tls_opts empty_tls).next_protos ≡ "http/1.1" ∷ [])
    × (options.metrics.secure_serving ≡ true)
    × (options.metrics.filter_provider ≡ true)
set_up-IsSecured_example =
    set_up-IsSecured counting outside settings default_flags before_all 6 empty_tls refl refl
      registers_six

abbrev shown_web : BackendRecommendation ℤ
shown_web = record {
  vm_name = "web";
  namespace = "shop";
  direction = "downsize";
  current_cpu = pos 8;
  current_memory = "16Gi";
  recommended_cpu = pos 4;
  recommended_memory = "8Gi";
  cpu_savings = pos 4;
  memory_savings = "8Gi";
  metrics = shrink_web.spec.metrics;
  hotplug_capable = false;
}

abbrev page_client : ProxyClient ℤ (Cluster ℤ)
page_client = record {
  get = λ url w.
      if str_eq url "https://api/api/v1/internal/recommendations/shop/web"
      then ok (record { status = 200; body = "{}" })
      else err "no route";
  post = λ url headers payload w. (err "no network", w);
  decode = λ body. ok shown_web;
  itoa = λ n. "n";
  parse_local_time = λ s. none;
  print_rfc3339 = λ t. "2026-01-01T00:00:00Z";
}

abbrev web_page : ApprovalPageData ℤ
web_page = record { recommendation = shown_web; token = "token for ann"; owner = "ann" }

shows_web :
    handle_get_approve memory plain_jwt manager
      (new_backend page_client "https://api//")
      "token for ann"
      with_waiting
    ≡ approval_page web_page
unfolding handle_get_approve new_backend trim_slashes fetch_recommendation validate_token
    verification_key
shows_web = refl

handle_get_approve-IsShown_example :
    (claims : ApprovalClaims) × (answer : BackendAnswer) × (validate_token plain_jwt manager
        "token for ann" 1000
      ≡ ok claims)
    × (page_client.get
          (trim_slashes "https://api//" <> recommendation_path claims.namespace claims.rec_name)
          with_waiting
        ≡ ok answer)
    × (answer.status ≡ 200)
    × (page_client.decode answer.body ≡ ok web_page.recommendation)
    × (web_page.token ≡ "token for ann")
    × (web_page.owner ≡ claims.owner)
handle_get_approve-IsShown_example =
    handle_get_approve-IsShown memory plain_jwt manager page_client "https://api//" "token for ann"
      with_waiting web_page shows_web
