-- ===== src/Program/Manager.antt =====
-- cmd/main.go: the controller manager, from the flags to what is registered with it. The manager,
-- the watchers of certificates and the clients are parameters.
pub mod Secured
use ovro.Notifier.Registry.{Outside}
use ovro.Server.{Server, Clientset}
use ovro.Program.{Settings, start}
use ovro.Program.Listeners.{start_api, Listening, TlsConfig}
use ovro.Controller.AutoApply.{Reconciler}
use ovro.Prelude.{
  ◌<>◌, none, str_eq, err, ◌++◌, ok, if◌then◌else◌, [], Bool, ◌∷◌, some, String, Result, Option,
  List,
}

-- The flags that the manager's set-up reads, and the variables of the API server's files.
pub record Flags : Type 0 where
  pub metrics_addr : String
  pub metrics_cert_path : String
  pub metrics_cert_name : String
  pub metrics_cert_key : String
  pub webhook_cert_path : String
  pub webhook_cert_name : String
  pub webhook_cert_key : String
  pub enable_leader_election : Bool
  pub probe_addr : String
  pub secure_metrics : Bool
  pub enable_http2 : Bool
  pub api_addr : String
  pub tls_cert_file : String
  pub tls_key_file : String

-- `func(*tls.Config)`.
abbrev pub TlsOption : Type 0 → Type 0
TlsOption C = TlsConfig C → TlsConfig C

-- `metricsserver.Options`; the filter is `filters.WithAuthenticationAndAuthorization`.
pub record MetricsOptions (C : Type 0) : Type 0 where
  pub bind_address : String
  pub secure_serving : Bool
  pub tls_opts : List (TlsOption C)
  pub filter_provider : Bool

-- `ctrl.Options`.
pub record ManagerOptions (C : Type 0) : Type 0 where
  pub metrics : MetricsOptions C
  pub webhook_tls_opts : List (TlsOption C)
  pub health_probe_addr : String
  pub leader_election : Bool

-- What is registered with the manager.
pub data Part (C W : Type 0) : Type 0 where
  recommendation_controller : Reconciler W → Part C W
  restart_controller : Part C W
  watcher : C → Part C W
  health_check ready_check : Part C W
  api_server : Server W → Listening C → Part C W

-- `filepath.Join`, `certwatcher.New`, `ctrl.NewManager`, the two clients, and the registrations:
-- `SetupWithManager`, `mgr.Add`, `AddHealthzCheck` and `AddReadyzCheck`.
pub record Runtime (C W M : Type 0) : Type 0 where
  pub join : String → String → String
  pub new_watcher : String → String → Result C
  pub new_manager : ManagerOptions C → Result M
  pub new_clientset : Result (Clientset W)
  pub new_dynamic_client : Result (Unit {0})
  pub register : Part C W → M → Result M

infixl 5 ◌>>=◌
abbrev pub ◌>>=◌ {ℓ κ} : {A : Type ℓ} {B : Type κ} → Result A → (A → Result B) → Result B
ok a >>= f = f a
err e >>= f = err e

-- The first options: without HTTP/2, the one that leaves HTTP/1.1 alone.
abbrev pub disable_http2 : {C : Type 0} → TlsOption C
disable_http2 c = record c { next_protos = "http/1.1" ∷ [] }

abbrev pub tls_options : {C : Type 0} → Flags → List (TlsOption C)
tls_options flags = if flags.enable_http2 then [] else disable_http2 ∷ []

abbrev pub with_certificate : {C : Type 0} → C → TlsOption C
with_certificate c config = record config { get_certificate = some c }

-- The options as a server applies them.
abbrev pub configure : {C : Type 0} → List (TlsOption C) → TlsConfig C → TlsConfig C
configure [] c = c
configure (opt ∷ opts) c = configure opts (opt c)

module _ {C W M : Type 0} (R : Runtime C W M) where
  -- A watcher of the certificate under a path, none for no path.
  unfoldable pub cert_watcher : String → String → String → Result (Option C)
  cert_watcher path name key =
      if str_eq path ""
      then ok none
      else elim (R.new_watcher (R.join path name) (R.join path key)) [
        | err e ↦ err e
        | ok c ↦ ok (some c)
      ]

  abbrev pub certificate_options : Option C → List (TlsOption C)
  certificate_options none = []
  certificate_options (some c) = with_certificate c ∷ []

  abbrev pub metrics_options : Flags → Option C → MetricsOptions C
  metrics_options flags watching = record {
    bind_address = flags.metrics_addr;
    secure_serving = flags.secure_metrics;
    tls_opts = tls_options flags ++ certificate_options watching;
    filter_provider = flags.secure_metrics;
  }

  abbrev pub manager_options : Flags → Option C → Option C → ManagerOptions C
  manager_options flags webhook_watcher metrics_watcher = record {
    metrics = metrics_options flags metrics_watcher;
    webhook_tls_opts = tls_options flags ++ certificate_options webhook_watcher;
    health_probe_addr = flags.probe_addr;
    leader_election = flags.enable_leader_election;
  }

  -- A watcher is registered where there is one.
  abbrev pub register_watcher : Option C → M → Result M
  register_watcher none m = ok m
  register_watcher (some c) m = R.register (watcher c) m

  -- The text that `main` logs before it exits.
  abbrev pub exit_with {ℓ} : {A : Type ℓ} → String → Result A → Result A
  exit_with text (ok a) = ok a
  exit_with text (err e) = err (text <> ": " <> e)

  -- The registrations, in the order of `main`.
  unfoldable pub register_parts :
      Option C → Option C → Reconciler W → Server W → Listening C → M → Result M
  register_parts webhook_watcher metrics_watcher reconciler server listening m = do
    m1 ←
        exit_with "unable to create controller RightsizingRecommendation"
          (R.register (recommendation_controller reconciler) m)
    m2 ← exit_with "unable to create controller Restart" (R.register restart_controller m1)
    m3 ←
        exit_with "unable to add metrics certificate watcher to manager"
          (register_watcher metrics_watcher m2)
    m4 ←
        exit_with "unable to add webhook certificate watcher to manager"
          (register_watcher webhook_watcher m3)
    m5 ← exit_with "unable to set up health check" (R.register health_check m4)
    m6 ← exit_with "unable to set up ready check" (R.register ready_check m5)
    exit_with "unable to add API server to manager" (R.register (api_server server listening) m6)

  -- `main`, from the options for TLS to the last registration. An error is an exit.
  unfoldable pub set_up : Outside W → Settings → Flags → W → Result M
  unfolding cert_watcher start register_parts start_api
  set_up o settings flags w = do
    webhook_watcher ←
        exit_with "Failed to initialize webhook certificate watcher"
          (cert_watcher flags.webhook_cert_path flags.webhook_cert_name flags.webhook_cert_key)
    metrics_watcher ←
        exit_with "to initialize metrics certificate watcher"
          (cert_watcher flags.metrics_cert_path flags.metrics_cert_name flags.metrics_cert_key)
    mgr ←
        exit_with "unable to start manager"
          (R.new_manager (manager_options flags webhook_watcher metrics_watcher))
    clientset ← exit_with "unable to create clientset" R.new_clientset
    dynamic ← exit_with "unable to create dynamic client" R.new_dynamic_client
    wired ← start o clientset settings w
    register_parts webhook_watcher metrics_watcher wired.reconciler wired.server
        (start_api flags.api_addr flags.tls_cert_file flags.tls_key_file) mgr
