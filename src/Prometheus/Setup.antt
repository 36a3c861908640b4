-- ===== src/Prometheus/Setup.antt =====
-- internal/prometheus/client.go: `NewClient`. The HTTP clients, the token's file and
-- `strings.TrimSpace` are parameters.
use ovro.Prometheus.{PrometheusAnswer, Client}
use ovro.Prelude.{
  inr, inl, Bool-cases, true, ◌≡◌, starts_with, if◌then◌else◌, err, ◌≢◌, ok, String, Result, refl,
}

-- A GET over a client that checks the server's certificate, and over one that does not.
pub record HttpClients (W : Type 0) : Type 0 where
  pub get_verified : String → String → W → Result PrometheusAnswer
  pub get_unverified : String → String → W → Result PrometheusAnswer
  pub query_values : String → String
  pub trim_space : String → String
  -- `/var/run/secrets/kubernetes.io/serviceaccount/token`.
  pub token_file : Result String

module _ {W : Type 0} (h : HttpClients W) where
  -- The service account's token, for a server that is reached over TLS.
  abbrev pub account_token : Result String → String
  account_token (ok text) = h.trim_space text
  account_token (err e) = ""

  unfoldable pub new_client : String → Client W
  new_client base_url =
      if starts_with base_url "https://"
      then record {
        base_url = base_url;
        bearer_token = account_token h.token_file;
        get = h.get_unverified;
        encode_query = h.query_values;
      }
      else record {
        base_url = base_url;
        bearer_token = "";
        get = h.get_verified;
        encode_query = h.query_values;
      }

  -- The account's token is sent over TLS only: a client whose requests carry one asks a server
  -- whose URL begins with the scheme of TLS.
  pub new_client-IsSecret :
      (base_url : String)
      → (new_client base_url).bearer_token ≢ ""
      → starts_with (new_client base_url).base_url "https://" ≡ true
  unfolding new_client
  new_client-IsSecret base_url n = elim (Bool-cases (starts_with base_url "https://")) [
    | inl e ↦ rw (e, new_client) e
    | inr e ↦ absurd (n (rw (e, new_client) refl))
  ]
