-- ===== src/Program/Listeners.antt =====
-- The servers that the two programs listen with: `Start` and `StartTLS` of
-- internal/apiserver/server.go, `apiServerRunnable` of cmd/main.go, `ListenAndServe` and
-- `ListenAndServeTLS` of internal/approvalproxy/proxy.go, and the end of cmd/approval-proxy/main.go.
use ovro.Program.{override}
use ovro.Prelude.{◌&&◌, str_eq, not, ◌∷◌, if◌then◌else◌, [], List, some, none, String, Option}

-- `tls.Config`, of which the code sets the least version, the protocols and the source of the
-- certificate. No least version is the library's own.
pub record TlsConfig (C : Type 0) : Type 0 where
  pub min_version : Option String
  pub next_protos : List String
  pub get_certificate : Option C

-- What net/http is asked for: `ListenAndServe` of an address, or `ListenAndServeTLS` of an address
-- and a configuration with the files of the certificate and the key.
pub data Listening (C : Type 0) : Type 0 where
  plain : String → Listening C
  over_tls : String → TlsConfig C → String → String → Listening C

module _ {C : Type 0} where
  abbrev pub empty_tls : TlsConfig C
  empty_tls = record { min_version = none; next_protos = []; get_certificate = none }

  -- The configuration that both programs give their listener.
  abbrev pub http1_tls : TlsConfig C
  http1_tls = record empty_tls { min_version = some "TLS 1.2"; next_protos = "http/1.1" ∷ [] }

  abbrev pub start_server : String → Listening C
  start_server addr = plain addr

  abbrev pub start_tls : String → String → String → Listening C
  start_tls addr cert_file key_file = over_tls addr http1_tls cert_file key_file

  -- `apiServerRunnable.Start`, up to the listening.
  unfoldable pub start_api : String → String → String → Listening C
  start_api addr cert_file key_file =
      if not (str_eq cert_file "") && not (str_eq key_file "")
      then start_tls addr cert_file key_file
      else start_server addr

  abbrev pub proxy_listen : String → Listening C
  proxy_listen addr = plain addr

  abbrev pub proxy_listen_tls : String → String → String → Listening C
  proxy_listen_tls addr cert_file key_file = over_tls addr http1_tls cert_file key_file

  -- The end of the proxy's `main`: the variables go before the flags.
  unfoldable pub listen_proxy :
      (addr : String) (cert_flag key_flag : String) (env_cert env_key : String) → Listening C
  listen_proxy addr cert_flag key_flag env_cert env_key =
      let cert_file = override env_cert cert_flag in
      let key_file = override env_key key_flag in
      if not (str_eq cert_file "") && not (str_eq key_file "")
      then proxy_listen_tls addr cert_file key_file
      else proxy_listen addr
