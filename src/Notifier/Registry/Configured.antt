-- ===== src/Notifier/Registry/Configured.antt =====
-- Which forwarders a configuration yields.
use ovro.Prelude.{refl}
use ovro.Notifier.ServiceNow.{send_servicenow, ServiceNowForwarder}
use ovro.Notifier.RocketChat.{send_rocketchat, RocketChatForwarder}
use ovro.Notifier.PagerDuty.{send_pagerduty, PagerDutyForwarder}
use ovro.Notifier.Snmp.{send_snmp, SnmpForwarder}
use ovro.Notifier.Smtp.{send_smtp, SmtpForwarder}
use ovro.Notifier.Teams.{send_teams, TeamsForwarder}
use ovro.Notifier.Slack.{send_slack, SlackForwarder}
use ovro.Notifier.{Notification, ForwarderConfig, Forwarder}
use ovro.Notifier.Registry.{registered, new_forwarder, Outside, new_dispatcher}
use ovro.Prelude.{
  ◌||◌, ok-injective, none, Result-cases, Option-cases, true, false, [], ◌∷◌, ◌&&◌, is_some, eq_iff,
  List, Bool, err, inr, arith, subst, inl, Bool-cases, str_eq, if◌then◌else◌, Result, sym, Error,
  ok, Option, some, String, ◌≡◌,
}

module _ {W : Type 0} (o : Outside W) where
  -- A case of the switch: what holds of its forwarder and of the other cases' holds of the result.
  choose :
      {A : Type 0} (Q : Forwarder W → Type 0) (kind name : String)
      (send : A → Notification → W → Option Error × W) (made : Result A)
      (rest : Option (Result (Forwarder W)))
      → (kind ≡ name → (a : A) → Q (record { name = name; send = send a }))
      → ((f : Forwarder W) → rest ≡ some (ok f) → Q f)
      → (f : Forwarder W)
      → (if str_eq kind name then some (registered o name send made) else rest) ≡ some (ok f)
      → Q f
  choose Q kind name send (ok a) rest here there f e = elim (Bool-cases (str_eq kind name)) [
    | inl y ↦ subst Q (ground arith) (here ((eq_iff kind name).0 y) a)
    | inr n ↦ there f (ground arith)
  ]
  choose Q kind name send (err x) rest here there f e = there f (ground arith)

  module _ (c : ForwarderConfig) (w : W) where
    -- What holds of the forwarders of all seven types holds of every forwarder.
    pub new_forwarder-ind :
        (Q : Forwarder W → Type 0)
        → ((s : SlackForwarder)
            → c.kind ≡ "slack"
            → Q (record { name = "slack"; send = send_slack o.http o.show s }))
        → ((t : TeamsForwarder)
            → c.kind ≡ "teams"
            → Q (record { name = "teams"; send = send_teams o.http o.show t }))
        → ((s : SmtpForwarder)
            → c.kind ≡ "smtp"
            → Q (record { name = "smtp"; send = send_smtp o.smtp o.show s }))
        → ((s : SnmpForwarder) → c.kind ≡ "snmp" → Q (record { name = "snmp"; send = send_snmp s }))
        → ((p : PagerDutyForwarder)
            → c.kind ≡ "pagerduty"
            → Q (record { name = "pagerduty"; send = send_pagerduty o.http o.show p }))
        → ((r : RocketChatForwarder)
            → c.kind ≡ "rocketchat"
            → Q (record { name = "rocketchat"; send = send_rocketchat o.show o.http r }))
        → ((s : ServiceNowForwarder)
            → c.kind ≡ "servicenow"
            → Q (record { name = "servicenow"; send = send_servicenow o.show o.http s }))
        → (f : Forwarder W) → new_forwarder o c w ≡ some (ok f)
        → Q f
    unfolding new_forwarder
    new_forwarder-ind Q slack teams smtp snmp pagerduty rocketchat servicenow =
        choose Q c.kind _ _ _ _ (λ k s. slack s k)
          (choose Q c.kind _ _ _ _ (λ k t. teams t k)
            (choose Q c.kind _ _ _ _ (λ k s. smtp s k)
              (choose Q c.kind _ _ _ _ (λ k s. snmp s k)
                (choose Q c.kind _ _ _ _ (λ k p. pagerduty p k)
                  (choose Q c.kind _ _ _ _ (λ k r. rocketchat r k)
                    (choose Q c.kind _ _ _ _ (λ k s. servicenow s k) (λ f e. ground arith)))))))

    -- A forwarder is registered under the type of its configuration.
    pub new_forwarder-name : (f : Forwarder W) → new_forwarder o c w ≡ some (ok f) → f.name ≡ c.kind
    new_forwarder-name =
        new_forwarder-ind (λ f. f.name ≡ c.kind) (λ s k. sym k) (λ s k. sym k) (λ s k. sym k)
          (λ s k. sym k) (λ s k. sym k) (λ s k. sym k) (λ s k. sym k)

  -- The types that have a forwarder.
  abbrev pub is_one_of : List String → String → Bool
  is_one_of [] kind = false
  is_one_of (name ∷ names) kind = str_eq kind name || is_one_of names kind

  abbrev pub known : String → Bool
  known =
      is_one_of
        ("slack" ∷ "teams" ∷ "smtp" ∷ "snmp" ∷ "pagerduty" ∷ "rocketchat" ∷ "servicenow" ∷ [])

  abbrev pub is_registered : ForwarderConfig → Bool
  is_registered c = c.enabled && known c.kind

  pub new_forwarder-known :
      (c : ForwarderConfig) (w : W) → is_some (new_forwarder o c w) ≡ known c.kind
  unfolding new_forwarder
  new_forwarder-known c w = ground arith

  -- The loop over the configurations as a relation.
  pub data Builds (w : W) : List ForwarderConfig → List (Forwarder W) → Type 0 where
    no_configs : Builds w [] []
    disabled :
        (c : ForwarderConfig) {configs : List ForwarderConfig} {fs : List (Forwarder W)}
        → c.enabled ≡ false
        → Builds w configs fs
        → Builds w (c ∷ configs) fs
    unknown :
        (c : ForwarderConfig) {configs : List ForwarderConfig} {fs : List (Forwarder W)}
        → new_forwarder o c w ≡ none
        → Builds w configs fs
        → Builds w (c ∷ configs) fs
    registers :
        (c : ForwarderConfig) (f : Forwarder W) {configs : List ForwarderConfig}
        {fs : List (Forwarder W)}
        → c.enabled ≡ true
        → new_forwarder o c w ≡ some (ok f)
        → Builds w configs fs
        → Builds w (c ∷ configs) (f ∷ fs)

  -- A loop that ends with a list of forwarders is a derivation.
  pub new_dispatcher-Builds :
      (configs : List ForwarderConfig) (w : W) (fs : List (Forwarder W))
      → new_dispatcher o configs w ≡ ok fs
      → Builds w configs fs
  unfolding new_dispatcher
  new_dispatcher-Builds [] w fs e = subst (Builds w []) (ok-injective _ _ e) no_configs
  new_dispatcher-Builds (c ∷ configs) w fs e = elim (Bool-cases c.enabled) [
    | inr off ↦ disabled c off (new_dispatcher-Builds configs w fs (ground arith))
    | inl on ↦ elim (Option-cases (new_forwarder o c w)) [
      | inl missing ↦ unknown c missing (new_dispatcher-Builds configs w fs (ground arith))
      | inr (err x, m) ↦ ground arith
      | inr (ok f, m) ↦ elim (Result-cases (new_dispatcher o configs w)) [
        | inr (x, r) ↦ ground arith
        | inl (rest, r) ↦
            subst (Builds w (c ∷ configs)) (ground arith)
              (registers c f on m (new_dispatcher-Builds configs w rest r))
      ]
    ]
  ]

  pub Builds-new_dispatcher :
      {w : W} {configs : List ForwarderConfig} {fs : List (Forwarder W)}
      → Builds w configs fs
      → new_dispatcher o configs w ≡ ok fs
  unfolding new_dispatcher
  Builds-new_dispatcher no_configs = refl
  Builds-new_dispatcher (disabled c off b) = ground (arith, Builds-new_dispatcher b)
  Builds-new_dispatcher (unknown c missing b) = ground (arith, Builds-new_dispatcher b)
  Builds-new_dispatcher (registers c f on m b) = ground (arith, Builds-new_dispatcher b)
