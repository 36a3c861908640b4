-- ===== src/Program/Adapters/Keys.antt =====
-- The program and the proxy, started with the same key.
use ovro.Program.Wiring.{start-IsConsistent}
use ovro.Types.{Time}
use ovro.Token.RoundTrip.{validate_token-generate_token, decoded, whole_seconds, IsLawfulJwt}
use ovro.Token.{ApprovalClaims, approval_claims, validate_token, generate_token, TokenManager, Jwt}
use ovro.Server.{Clientset}
use ovro.Notifier.Registry.{new_dispatcher, Outside}
use ovro.Prelude.{
  subst, Bool-cases, sym, ◌∙◌, ◌+◌, ◌<◌, inl, inr, arith, ◌⊎◌, ok-injective, Result-cases, some, ap,
  ok, false, ◌≡◌, str_eq, String, refl,
}
use ovro.Program.{
  no_file, with_dispatcher, configured, wire, unparsable, unreadable, no_workflow, demo_workflow,
  with_signing_key, override, Workflow, Wired, NotificationFile, signing_workflow,
  approval_workflow, add_dispatcher, Settings, start,
}
use ovro.Program.Adapters.{ProxySettings, start_proxy}

same_manager : (a b : TokenManager) → some a ≡ some b → a ≡ b
same_manager a b e = cc

module _ {W : Type 0} (o : Outside W) (clientset : Clientset W) (e : Settings) (w : W) where
  abbrev pub key_path : String
  key_path = override e.env_signing_key_path e.signing_key_path

  add_dispatcher-tokens :
      (file : NotificationFile) (f g : Workflow W)
      → file ≡ e.notifications
      → add_dispatcher o clientset e w f ≡ ok g
      → g.tokens ≡ f.tokens
  unfolding add_dispatcher
  add_dispatcher-tokens no_file f g k r = ap (λ f. f.tokens) (ok-injective g f (ground arith))
  add_dispatcher-tokens (unreadable x) f g k r = ground arith
  add_dispatcher-tokens (unparsable x) f g k r = ground arith
  add_dispatcher-tokens (configured configs) f g k r =
      elim (Result-cases (new_dispatcher o configs w)) [
        | inr (x, m) ↦ ground arith
        | inl (fs, m) ↦ ap (λ f. f.tokens) (ok-injective g (with_dispatcher fs f) (ground arith))
      ]

  signing_workflow-tokens :
      (path key : String) (f g : Workflow W)
      → str_eq path "" ≡ false
      → e.signing_key path ≡ ok key
      → signing_workflow o clientset e path w f ≡ ok g
      → g.tokens ≡ some (record { signing_key = key })
  unfolding signing_workflow
  signing_workflow-tokens path key f g n k r =
      add_dispatcher-tokens e.notifications (with_signing_key key f) g refl (ground arith)

  approval_workflow-tokens :
      (key : String) (g : Workflow W)
      → str_eq key_path "" ≡ false
      → e.signing_key key_path ≡ ok key
      → approval_workflow o clientset e w ≡ ok g
      → g.tokens ≡ some (record { signing_key = key })
  unfolding approval_workflow
  approval_workflow-tokens key g n k r =
      elim (Result-cases (demo_workflow o clientset e key_path (no_workflow o clientset e))) [
        | inr (x, m) ↦ ground arith
        | inl (f, m) ↦ signing_workflow-tokens key_path key f g n k (ground arith)
      ]

  start-tokens :
      (key : String) (p : Wired W)
      → str_eq key_path "" ≡ false
      → e.signing_key key_path ≡ ok key
      → start o clientset e w ≡ ok p
      → p.reconciler.token_manager ≡ some (record { signing_key = key })
  unfolding start
  start-tokens key p n k r = elim (Result-cases (approval_workflow o clientset e w)) [
    | inr (x, m) ↦ ground arith
    | inl (f, m) ↦
        ap (λ p. p.reconciler.token_manager) (ok-injective p (wire o clientset e f) (ground arith))
        ∙ approval_workflow-tokens key f n k m
  ]

  start_proxy-key :
      (q : ProxySettings) (tm : TokenManager) (url : String)
      → start_proxy q ≡ ok (tm, url)
      → (str_eq (override q.env_signing_key_path q.signing_key_path) "" ≡ false)
        × (q.signing_key (override q.env_signing_key_path q.signing_key_path) ≡ ok tm.signing_key)
  unfolding start_proxy
  start_proxy-key q tm url r =
      let path = override q.env_signing_key_path q.signing_key_path in
      elim (Bool-cases (str_eq (override q.env_backend_url q.backend_url) "")) [
        | inl a ↦ ground arith
        | inr a ↦ elim (Bool-cases (str_eq path "")) [
          | inl b ↦ ground arith
          | inr b ↦ elim (Result-cases (q.signing_key path)) [
            | inr (x, k) ↦ ground arith
            | inl (key, k) ↦ (b, ground arith)
          ]
        ]
      ]

  -- Under the documented behaviour of golang-jwt: where the program and the proxy start with the same
  -- path of the key and the same file under it, a token that the API server's or the controller's
  -- manager generates is accepted by the proxy's at any instant before the last whole second of its
  -- lifetime, and gives back the namespace, the name and the owner that it was generated for.
  pub start_proxy-validates :
      (jwt : Jwt) (L : IsLawfulJwt jwt) (p : Wired W) (q : ProxySettings) (proxy tm : TokenManager)
      (url namespace rec_name owner t : String) (ttl issued now : Time)
      → start o clientset e w ≡ ok p
      → start_proxy q ≡ ok (proxy, url)
      → override q.env_signing_key_path q.signing_key_path ≡ key_path
      → q.signing_key key_path ≡ e.signing_key key_path
      → (p.server.token_manager ≡ some tm) ⊎ (p.reconciler.token_manager ≡ some tm)
      → generate_token jwt tm namespace rec_name owner ttl issued ≡ ok t
      → now < whole_seconds (issued + ttl)
      → (claims : ApprovalClaims) × (validate_token jwt proxy t now ≡ ok claims)
        × (claims.namespace ≡ namespace)
        × (claims.rec_name ≡ rec_name)
        × (claims.owner ≡ owner)
  start_proxy-validates jwt L p q proxy tm url namespace rec_name owner t ttl issued now r s a f m g
        h =
      let (some_path, key) = start_proxy-key q proxy url s in
      let c = start-IsConsistent o clientset e w p r in
      let mine =
        start-tokens proxy.signing_key p (rw (sym a) some_path)
          (sym f ∙ (ap q.signing_key (sym a) ∙ key)) r in
      let from : p.reconciler.token_manager ≡ some tm = elim m [
        | inl x ↦ sym c.0 ∙ x
        | inr y ↦ y
      ] in
      let same : tm ≡ proxy = same_manager tm proxy (sym from ∙ mine) in
      let claims = decoded (approval_claims namespace rec_name owner ttl issued) in
      (
        claims,
        subst (λ k. validate_token jwt k t now ≡ ok claims) same
            (validate_token-generate_token jwt L tm namespace rec_name owner t ttl issued now g h),
        refl,
        refl,
        refl,
      )
