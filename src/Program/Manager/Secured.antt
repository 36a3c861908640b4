-- ===== src/Program/Manager/Secured.antt =====
-- What protects the servers of the manager.
use ovro.Program.Listeners.{TlsConfig}
use ovro.Program.{Settings}
use ovro.Notifier.Registry.{Outside}
use ovro.Program.Manager.{
  cert_watcher, certificate_options, ManagerOptions, tls_options, disable_http2, manager_options,
  configure, set_up, Flags, Runtime,
}
use ovro.Prelude.{
  inl, arith, inr, Result-cases, none, some, ◌++◌, true, false, [], ◌∷◌, ok, ◌≡◌, String, Option,
  List, refl,
}

abbrev http1 : List String
http1 = "http/1.1" ∷ []

module _ {C W M : Type 0} (R : Runtime C W M) where
  configure-http1 :
      (watching : Option C) (config : TlsConfig C)
      → (configure (disable_http2 ∷ certificate_options R watching) config).next_protos ≡ http1
  configure-http1 none config = refl
  configure-http1 (some c) config = refl

  tls_options-http1 :
      (flags : Flags) (watching : Option C) (config : TlsConfig C)
      → flags.enable_http2 ≡ false
      → (configure (tls_options flags ++ certificate_options R watching) config).next_protos ≡ http1
  tls_options-http1 flags watching config h =
      let off : tls_options {C = C} flags ≡ disable_http2 ∷ [] = rw h refl in
      rw off (configure-http1 watching config)

  -- The manager of a set-up that ended well was made with the options of the flags.
  set_up-manager_options :
      (o : Outside W) (settings : Settings) (flags : Flags) (w : W) (m : M)
      → set_up R o settings flags w ≡ ok m
      → (webhook_watcher metrics_watcher : Option C) × (mgr : M) × (R.new_manager
            (manager_options R flags webhook_watcher metrics_watcher)
          ≡ ok mgr)
  unfolding set_up
  set_up-manager_options o settings flags w m h =
      elim (Result-cases
        (cert_watcher R flags.webhook_cert_path flags.webhook_cert_name flags.webhook_cert_key)) [
          | inr (e, f) ↦ absurd (ground arith)
          | inl (webhook_watcher, f) ↦
              elim (Result-cases (
                cert_watcher R flags.metrics_cert_path flags.metrics_cert_name
                  flags.metrics_cert_key)) [
                    | inr (e, g) ↦ absurd (ground arith)
                    | inl (metrics_watcher, g) ↦
                        elim (Result-cases (
                          R.new_manager
                            (manager_options R flags webhook_watcher metrics_watcher))) [
                              | inr (e, k) ↦ absurd (ground arith)
                              | inl (mgr, k) ↦ (webhook_watcher, metrics_watcher, mgr, k)
                            ]
                  ]
        ]

  -- With HTTP/2 left off and the metrics served securely, as the flags have it by default, a set-up
  -- that ends well has made its manager with options under which the servers of the metrics and of
  -- the webhooks speak nothing but HTTP/1.1, whatever configuration they start from and whichever
  -- certificates are watched, and the metrics are served over TLS and behind the filter.
  pub set_up-IsSecured :
      (o : Outside W) (settings : Settings) (flags : Flags) (w : W) (m : M) (config : TlsConfig C)
      → flags.enable_http2 ≡ false
      → flags.secure_metrics ≡ true
      → set_up R o settings flags w ≡ ok m
      → (options : ManagerOptions C) × (mgr : M) × (R.new_manager options ≡ ok mgr)
        × ((configure options.metrics.tls_opts config).next_protos ≡ "http/1.1" ∷ [])
        × ((configure options.webhook_tls_opts config).next_protos ≡ "http/1.1" ∷ [])
        × (options.metrics.secure_serving ≡ true)
        × (options.metrics.filter_provider ≡ true)
  set_up-IsSecured o settings flags w m config off secure h =
      let (webhook_watcher, metrics_watcher, mgr, made) =
        set_up-manager_options o settings flags w m h in
      (
        manager_options R flags webhook_watcher metrics_watcher,
        mgr,
        made,
        tls_options-http1 flags metrics_watcher config off,
        tls_options-http1 flags webhook_watcher config off,
        secure,
        secure,
      )
