-- ===== src/Program/Wiring.antt =====
-- What a successful start guarantees of the parts it puts together.
use ovro.Notifier.{ForwarderConfig, Forwarder}
use ovro.Server.{Clientset, Server}
use ovro.Notifier.Registry.{new_dispatcher, Outside}
use ovro.Prelude.{
  eq_iff, sym, ◌∙◌, if◌then◌else◌, Option, ok-injective, Result-cases, inl, arith, subst, inr, ◌&&◌,
  none, str_eq, some, Bool-cases, ok, [], ◌∷◌, true, String, ◌++◌, is_some, ◌≡◌, List, refl,
}
use ovro.Program.{
  wire, with_signing_key, signing_workflow, no_workflow, approval_workflow, Wired, no_file,
  configured, with_owner_resolver, unparsable, unreadable, NotificationFile, with_notifier,
  with_dispatcher, with_demo_key, bare_server, add_dispatcher, with_approval_route_host,
  with_token_manager, override, Settings, new_server, demo_workflow, apply_options, Workflow,
  ServerOption, start,
}

module _ {W : Type 0} where
  -- What the options build, and what is handed to the controller.
  abbrev pub Agrees : Server W → Workflow W → Type 0
  Agrees s f =
      (s.token_manager ≡ f.tokens)
      × ((s.notifier ≡ f.dispatcher)
          × ((is_some f.dispatcher ≡ true → is_some f.tokens ≡ true)
              × (is_some f.tokens ≡ true → s.approval_route_host ≡ f.route_host)))

  apply_options-append :
      (xs ys : List (ServerOption W)) (s : Server W)
      → apply_options (xs ++ ys) s ≡ apply_options ys (apply_options xs s)
  apply_options-append [] ys s = refl
  apply_options-append (x ∷ xs) ys s = apply_options-append xs ys (x s)

  module _ (o : Outside W) (clientset : Clientset W) (e : Settings) (w : W) where
    -- Where a dispatcher comes from.
    pub data Origin : Option (List (Forwarder W)) → Type 0 where
      no_dispatcher : Origin none
      from_configs :
          (configs : List ForwarderConfig) (fs : List (Forwarder W))
          → new_dispatcher o configs w ≡ ok fs
          → Origin (some fs)

    -- The server that a workflow's options build agrees with the workflow.
    abbrev pub IsWired : Workflow W → Type 0
    IsWired f =
        Agrees (apply_options f.server_opts (bare_server clientset)) f
        × (Origin f.dispatcher
            × (str_eq f.route_host "" ≡ true
                → (apply_options f.server_opts (bare_server clientset)).approval_route_host
                  ≡ f.route_host))

    with_demo_key-IsWired :
        (key : String) (f : Workflow W) → IsWired f → IsWired (with_demo_key key f)
    with_demo_key-IsWired key f (a, (d, h)) =
        rw
          (apply_options-append f.server_opts
            (with_token_manager (some (record { signing_key = key }))
              ∷ with_approval_route_host (override f.route_host "localhost:8443")
              ∷ [])
            (bare_server clientset))
          ((refl, (a.1.0, ((λ d. refl), (λ t. refl)))), (d, (λ y. refl)))

    -- The options that a signing key adds.
    abbrev pub key_opts : String → Workflow W → List (ServerOption W)
    key_opts key f =
        with_token_manager (some (record { signing_key = key }))
        ∷ with_owner_resolver
        ∷ (if str_eq f.route_host "" then [] else with_approval_route_host f.route_host ∷ [])

    key_opts-host :
        (key : String) (f : Workflow W) (s : Server W)
        → (str_eq f.route_host "" ≡ true → s.approval_route_host ≡ f.route_host)
        → (apply_options (key_opts key f) s).approval_route_host ≡ f.route_host
    key_opts-host key f s h = elim (Bool-cases (str_eq f.route_host "")) [
      | inl y ↦ rw y (h y)
      | inr n ↦ rw n refl
    ]

    key_opts-tokens :
        (key : String) (f : Workflow W) (s : Server W)
        → (apply_options (key_opts key f) s).token_manager ≡ some (record { signing_key = key })
    key_opts-tokens key f s = elim (Bool-cases (str_eq f.route_host "")) [
      | inl y ↦ rw y refl
      | inr n ↦ rw n refl
    ]

    key_opts-notifier :
        (key : String) (f : Workflow W) (s : Server W)
        → (apply_options (key_opts key f) s).notifier ≡ s.notifier
    key_opts-notifier key f s = elim (Bool-cases (str_eq f.route_host "")) [
      | inl y ↦ rw y refl
      | inr n ↦ rw n refl
    ]

    with_signing_key-IsWired :
        (key : String) (f : Workflow W) → IsWired f → IsWired (with_signing_key key f)
    with_signing_key-IsWired key f (a, (d, h)) =
        let s = apply_options f.server_opts (bare_server clientset) in
        rw (apply_options-append f.server_opts (key_opts key f) (bare_server clientset)) (
          (
            key_opts-tokens key f s,
            (key_opts-notifier key f s ∙ a.1.0, ((λ d. refl), (λ t. key_opts-host key f s h))),
          ),
          (d, (λ y. key_opts-host key f s h)),
        )

    with_dispatcher-IsWired :
        (configs : List ForwarderConfig) (fs : List (Forwarder W)) (f : Workflow W)
        → new_dispatcher o configs w ≡ ok fs
        → is_some f.tokens ≡ true
        → IsWired f
        → IsWired (with_dispatcher fs f)
    with_dispatcher-IsWired configs fs f r t (a, (d, h)) =
        rw
          (apply_options-append f.server_opts (with_notifier (some fs) ∷ [])
            (bare_server clientset))
          ((a.0, (refl, ((λ d. t), a.1.1.1))), (from_configs configs fs r, h))

    demo_workflow-IsWired :
        (path : String) (f g : Workflow W)
        → demo_workflow o clientset e path f ≡ ok g
        → IsWired f
        → IsWired g
    unfolding demo_workflow
    demo_workflow-IsWired path f g r a =
        elim (Bool-cases (str_eq e.demo_mode "true" && str_eq path "")) [
          | inr off ↦ subst IsWired (ok-injective f g (ground arith)) a
          | inl on ↦ elim (Result-cases e.demo_key) [
            | inr (x, k) ↦ ground arith
            | inl (key, k) ↦
                subst IsWired (ok-injective (with_demo_key key f) g (ground arith))
                  (with_demo_key-IsWired key f a)
          ]
        ]

    add_dispatcher-IsWired :
        (file : NotificationFile) (f g : Workflow W)
        → file ≡ e.notifications
        → is_some f.tokens ≡ true
        → add_dispatcher o clientset e w f ≡ ok g
        → IsWired f
        → IsWired g
    unfolding add_dispatcher
    add_dispatcher-IsWired no_file f g k t r a = subst IsWired (ok-injective f g (ground arith)) a
    add_dispatcher-IsWired (unreadable x) f g k t r a = ground arith
    add_dispatcher-IsWired (unparsable x) f g k t r a = ground arith
    add_dispatcher-IsWired (configured configs) f g k t r a =
        elim (Result-cases (new_dispatcher o configs w)) [
          | inr (x, m) ↦ ground arith
          | inl (fs, m) ↦
              subst IsWired (ok-injective (with_dispatcher fs f) g (ground arith))
                (with_dispatcher-IsWired configs fs f m t a)
        ]

    signing_workflow-IsWired :
        (path : String) (f g : Workflow W)
        → signing_workflow o clientset e path w f ≡ ok g
        → IsWired f
        → IsWired g
    unfolding signing_workflow
    signing_workflow-IsWired path f g r a = elim (Bool-cases (str_eq path "")) [
      | inl y ↦ subst IsWired (ok-injective f g (ground arith)) a
      | inr n ↦ elim (Result-cases (e.signing_key path)) [
        | inr (x, m) ↦ ground arith
        | inl (key, m) ↦
            add_dispatcher-IsWired e.notifications (with_signing_key key f) g refl refl
              (ground arith) (with_signing_key-IsWired key f a)
      ]
    ]

    no_workflow-IsWired : IsWired (no_workflow o clientset e)
    no_workflow-IsWired = elim (Bool-cases (str_eq e.demo_mode "true")) [
      | inl y ↦ rw y (
        (refl, (refl, ((λ d. ground arith), λ t. ground arith))),
        (
          no_dispatcher,
          λ b. sym ((eq_iff (override e.env_approval_route_host e.approval_route_host) "").0 b),
        ),
      )
      | inr n ↦ rw n (
        (refl, (refl, ((λ d. ground arith), λ t. ground arith))),
        (
          no_dispatcher,
          λ b. sym ((eq_iff (override e.env_approval_route_host e.approval_route_host) "").0 b),
        ),
      )
    ]

    approval_workflow-IsWired :
        (g : Workflow W) → approval_workflow o clientset e w ≡ ok g → IsWired g
    unfolding approval_workflow
    approval_workflow-IsWired g r =
        let path = override e.env_signing_key_path e.signing_key_path in
        elim (Result-cases (demo_workflow o clientset e path (no_workflow o clientset e))) [
          | inr (x, m) ↦ ground arith
          | inl (f, m) ↦
              signing_workflow-IsWired path f g (ground arith)
                (demo_workflow-IsWired path (no_workflow o clientset e) f m no_workflow-IsWired)
        ]

    -- The server and the controller of a start.
    abbrev pub IsConsistent : Wired W → Type 0
    IsConsistent p =
        (p.server.token_manager ≡ p.reconciler.token_manager)
        × ((p.server.notifier ≡ p.reconciler.notifier)
            × ((is_some p.reconciler.notifier ≡ true → is_some p.reconciler.token_manager ≡ true)
                × ((is_some p.reconciler.token_manager ≡ true
                      → p.server.approval_route_host ≡ p.reconciler.approval_route_host)
                    × Origin p.reconciler.notifier)))

    wire-IsConsistent : (f : Workflow W) → IsWired f → IsConsistent (wire o clientset e f)
    unfolding new_server
    wire-IsConsistent f (a, (d, h)) = (a.0, (a.1.0, (a.1.1.0, (a.1.1.1, d))))

    -- Whatever the flags, the environment and the files hold: where the program starts, the API
    -- server and the controller hold the same token manager and the same dispatcher, there is a
    -- dispatcher only together with a token manager, with a token manager both build links to the
    -- same host, and a dispatcher is one that a configuration yields.
    pub start-IsConsistent : (p : Wired W) → start o clientset e w ≡ ok p → IsConsistent p
    unfolding start
    start-IsConsistent p r = elim (Result-cases (approval_workflow o clientset e w)) [
      | inr (x, m) ↦ ground arith
      | inl (f, m) ↦
          subst IsConsistent (ok-injective (wire o clientset e f) p (ground arith))
            (wire-IsConsistent f (approval_workflow-IsWired f m))
    ]
