-- ===== src/Program/Adapters.antt =====
-- cmd/main.go: the adapter that hands the metrics client's answers to the controller, and
-- cmd/approval-proxy/main.go: what the proxy is started with.
use ovro.Server.{key}
use ovro.Notifier.Http.{SecretGetter}
use ovro.Platform.{not_found, unavailable, not_found_text, found, Fetched}
use ovro.Types.{Labels, NamespacedName}
use ovro.Prelude.Int.{pos, ℤ}
use ovro.Controller.Demo.{VmUtilization}
use ovro.Token.{TokenManager}
use ovro.Floats.{Floats}
pub mod Keys
use ovro.Prometheus.{Client, Utilization, get_vm_utilization}
use ovro.Program.{override}
use ovro.Prelude.{ok, ◌<>◌, some, none, err, str_eq, Option, if◌then◌else◌, Result, String}

-- The fields of the controller's `VMUtilization` that the adapter leaves out are 0.
abbrev pub adapted : {F : Type 0} → Utilization F → VmUtilization F
adapted u = record {
  current_cpu_cores = pos 0;
  current_memory_gib = pos 0;
  cpu_p95_percent = u.cpu_p95_percent;
  memory_p95_percent = u.memory_p95_percent;
  cpu_max_percent = u.cpu_max_percent;
  memory_max_percent = u.memory_max_percent;
  data_points = u.data_points;
}

-- `prometheusAdapter.GetVMUtilization`; `none` is a panic of the client.
unfoldable pub prometheus_adapter :
    (Fl : Floats) (show : ℤ → String) {W : Type 0}
    → Client W
    → String
    → String
    → ℤ
    → ℤ
    → ℤ
    → W
    → Option (Result (VmUtilization Fl.F))
unfolding get_vm_utilization
prometheus_adapter Fl show c vm_name namespace lookback_days cpu_cores memory_bytes w =
    elim (get_vm_utilization Fl show c vm_name namespace lookback_days cpu_cores memory_bytes w) [
      | none ↦ none
      | some (err e) ↦ some (err e)
      | some (ok u) ↦ some (ok (adapted u))
    ]

-- `k8sSecretGetter.GetSecretData` over the client's `Get` of a Secret, which yields its data.
unfoldable pub get_secret_data :
    {W : Type 0} → (NamespacedName → W → Fetched Labels) → SecretGetter W
get_secret_data get name namespace w = elim (get (key namespace name) w) [
  | found secret_data ↦ ok secret_data
  | not_found ↦ err not_found_text
  | unavailable e ↦ err e
]

-- The flags and variables of the proxy's program, and what `os.ReadFile` yields of a path.
pub record ProxySettings : Type 0 where
  pub backend_url : String
  pub env_backend_url : String
  pub signing_key_path : String
  pub env_signing_key_path : String
  pub signing_key : String → Result String

-- The token manager and the URL of the backend that the proxy serves with.
unfoldable pub start_proxy : ProxySettings → Result (TokenManager × String)
start_proxy e =
    let backend_url = override e.env_backend_url e.backend_url in
    let path = override e.env_signing_key_path e.signing_key_path in
    if str_eq backend_url ""
    then err "backend-url is required (flag or BACKEND_URL env var)"
    else if str_eq path ""
    then err "signing-key-path is required (flag or SIGNING_KEY_PATH env var)"
    else elim (e.signing_key path) [
      | err x ↦ err ("failed to read signing key: " <> x)
      | ok key ↦ ok (record { signing_key = key }, backend_url)
    ]
