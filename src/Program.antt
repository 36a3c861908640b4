-- ===== src/Program.antt =====
-- cmd/main.go and internal/apiserver/server.go: how the program is put together from its flags, its
-- environment and its files. What is read from them is a record of what each read yields.
pub mod Adapters
pub mod Wiring
pub mod Listeners
pub mod Manager
use ovro.Token.{TokenManager}
use ovro.Notifier.{ForwarderConfig, Forwarder}
use ovro.Controller.AutoApply.{Reconciler}
use ovro.Notifier.Registry.{new_dispatcher, Outside}
use ovro.Server.{Clientset, Server}
use ovro.Prelude.{
  ◌++◌, ◌<>◌, ◌&&◌, ok, false, [], ◌∷◌, str_eq, some, none, err, true, if◌then◌else◌, Result,
  Option, List, Error, Bool, String,
}

-- The notification configuration: no such file, or a file that cannot be read or parsed, or one
-- that lists forwarders.
pub data NotificationFile : Type 0 where
  no_file : NotificationFile
  unreadable : Error → NotificationFile
  unparsable : Error → NotificationFile
  configured : List ForwarderConfig → NotificationFile

-- `demo_key` is what `rand.Read` yields, `signing_key` what `os.ReadFile` yields of a path. The two
-- texts with `env` are empty where the variable is not set.
pub record Settings : Type 0 where
  pub demo_mode : String
  pub approval_route_host : String
  pub env_approval_route_host : String
  pub signing_key_path : String
  pub env_signing_key_path : String
  pub demo_key : Result String
  pub signing_key : String → Result String
  pub notifications : NotificationFile

abbrev pub override : String → String → String
override env flag = if str_eq env "" then flag else env

-- `apiserver.ServerOption`.
abbrev pub ServerOption : Type 0 → Type 0
ServerOption W = Server W → Server W

-- What the approval workflow's set-up assigns: `tokenMgr`, `dispatcher`, `approvalRouteHost` and
-- `serverOpts`.
pub record Workflow (W : Type 0) : Type 0 where
  pub tokens : Option TokenManager
  pub dispatcher : Option (List (Forwarder W))
  pub route_host : String
  pub server_opts : List (ServerOption W)

-- What `main` starts.
pub record Wired (W : Type 0) : Type 0 where
  pub server : Server W
  pub reconciler : Reconciler W

module _ {W : Type 0} where
  abbrev pub with_owner_resolver : ServerOption W
  with_owner_resolver s = record s { owner_resolver = true }

  abbrev pub with_token_manager : Option TokenManager → ServerOption W
  with_token_manager tm s = record s { token_manager = tm }

  abbrev pub with_notifier : Option (List (Forwarder W)) → ServerOption W
  with_notifier d s = record s { notifier = d }

  abbrev pub with_approval_route_host : String → ServerOption W
  with_approval_route_host host s = record s { approval_route_host = host }

  abbrev pub with_demo_mode : Bool → ServerOption W
  with_demo_mode enabled s = record s { demo_mode = enabled }

  abbrev pub apply_options : List (ServerOption W) → Server W → Server W
  apply_options [] s = s
  apply_options (opt ∷ opts) s = apply_options opts (opt s)

  -- The server before its options.
  abbrev pub bare_server : Clientset W → Server W
  bare_server clientset = record {
    clientset = some clientset;
    dynamic_client = true;
    owner_resolver = false;
    token_manager = none;
    notifier = none;
    approval_route_host = "";
    demo_mode = false;
  }

  unfoldable pub new_server : Clientset W → List (ServerOption W) → Server W
  new_server clientset opts = apply_options opts (bare_server clientset)

  -- The three assignments of the set-up: with a demo key, with a signing key, with a dispatcher.
  abbrev pub with_demo_key : String → Workflow W → Workflow W
  with_demo_key key f =
      let tm = some (record { signing_key = key }) in
      let host = override f.route_host "localhost:8443" in
      record f {
        tokens = tm;
        route_host = host;
        server_opts = f.server_opts ++ (with_token_manager tm ∷ with_approval_route_host host ∷ []);
      }

  abbrev pub with_signing_key : String → Workflow W → Workflow W
  with_signing_key key f =
      let tm = some (record { signing_key = key }) in
      let host_opts =
        if str_eq f.route_host "" then [] else with_approval_route_host f.route_host ∷ [] in
      record f {
        tokens = tm;
        server_opts = f.server_opts ++ (with_token_manager tm ∷ with_owner_resolver ∷ host_opts);
      }

  abbrev pub with_dispatcher : List (Forwarder W) → Workflow W → Workflow W
  with_dispatcher fs f = record f {
    dispatcher = some fs;
    server_opts = f.server_opts ++ (with_notifier (some fs) ∷ []);
  }

  module _ (o : Outside W) (clientset : Clientset W) where
    -- In demo mode without a key: a random key, and a default host.
    unfoldable pub demo_workflow : Settings → String → Workflow W → Result (Workflow W)
    demo_workflow e path f =
        if str_eq e.demo_mode "true" && str_eq path ""
        then elim e.demo_key [
          | err x ↦ err ("failed to generate demo signing key: " <> x)
          | ok key ↦ ok (with_demo_key key f)
        ]
        else ok f

    -- The dispatcher of the notification file.
    unfoldable pub add_dispatcher : Settings → W → Workflow W → Result (Workflow W)
    unfolding new_dispatcher
    add_dispatcher e w f = elim e.notifications [
      | no_file ↦ ok f
      | unreadable x ↦ err ("failed to read notification config: " <> x)
      | unparsable x ↦ err ("failed to parse notification config: " <> x)
      | configured configs ↦ elim (new_dispatcher o configs w) [
        | err x ↦ err ("failed to create notification dispatcher: " <> x)
        | ok fs ↦ ok (with_dispatcher fs f)
      ]
    ]

    -- With a key: its token manager, the owner resolver, the host if there is one, and the
    -- dispatcher.
    unfoldable pub signing_workflow : Settings → String → W → Workflow W → Result (Workflow W)
    unfolding add_dispatcher
    signing_workflow e path w f = if str_eq path "" then ok f else elim (e.signing_key path) [
      | err x ↦ err ("failed to read signing key: " <> x)
      | ok key ↦ add_dispatcher e w (with_signing_key key f)
    ]

    -- What the set-up begins with.
    abbrev pub no_workflow : Settings → Workflow W
    no_workflow e = record {
      tokens = none;
      dispatcher = none;
      route_host = override e.env_approval_route_host e.approval_route_host;
      server_opts = if str_eq e.demo_mode "true" then with_demo_mode true ∷ [] else [];
    }

    unfoldable pub approval_workflow : Settings → W → Result (Workflow W)
    unfolding demo_workflow signing_workflow
    approval_workflow e w =
        let path = override e.env_signing_key_path e.signing_key_path in
        elim (demo_workflow e path (no_workflow e)) [
          | err x ↦ err x
          | ok f ↦ signing_workflow e path w f
        ]

    -- The API server and the controller of a workflow.
    abbrev pub wire : Settings → Workflow W → Wired W
    wire e f = record {
      server = new_server clientset f.server_opts;
      reconciler = record {
        demo_mode = str_eq e.demo_mode "true";
        applier = true;
        owner_resolver = true;
        token_manager = f.tokens;
        notifier = f.dispatcher;
        approval_route_host = f.route_host;
      };
    }

    unfoldable pub start : Settings → W → Result (Wired W)
    unfolding approval_workflow
    start e w = elim (approval_workflow e w) [ err x ↦ err x | ok f ↦ ok (wire e f) ]
