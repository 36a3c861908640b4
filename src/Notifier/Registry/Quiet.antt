-- ===== src/Notifier/Registry/Quiet.antt =====
-- What a send leaves alone: whatever the HTTP client and the mail client leave alone.
use ovro.Prelude.{refl}
use ovro.Notifier.Registry.Configured.{
  no_configs, new_forwarder-ind, registers, unknown, disabled, new_dispatcher-Builds, Builds,
}
use ovro.Notifier.Snmp.{send_snmp}
use ovro.Notifier.ServiceNow.{ServiceNowForwarder, send_servicenow}
use ovro.Notifier.RocketChat.{RocketChatForwarder, send_rocketchat}
use ovro.Notifier.PagerDuty.{PagerDutyForwarder, send_pagerduty}
use ovro.Notifier.Teams.{
  send_via_webhook, TeamsForwarder, send_with_token, send_teams, send_chat_message, post_message,
  notify_user, lookup_user, lookup_address, get_access_token, fall_back, create_chat,
}
use ovro.Notifier.Smtp.{SmtpForwarder, send_smtp, perform, connected, SmtpCommand, Smtp}
use ovro.Notifier.Registry.{new_dispatcher, Outside}
use ovro.Prelude.Int.{ℤ}
use ovro.Notifier.Slack.{
  SlackForwarder, send_slack, resolve_channel, lookup_user_by_email, lookup_owner,
}
use ovro.Notifier.Http.{send_request, post_expecting, HttpRequest, Http}
use ovro.Notifier.{ForwarderConfig, Notification, Forwarder}
use ovro.Prelude.{◌∷◌, [], ◌<>◌, All, err, ok, Result, List, Error, Bool, ℕ, arith, String, ◌≡◌}

module _ {W : Type 0} {A : Type 0} (view : W → A) where
  -- A view of the world that an operation does not change.
  abbrev pub Keeps : {B : Type 0} → (W → B × W) → Type 0
  Keeps op = (w : W) → view (op w).1 ≡ view w

  -- A forwarder whose sends do not change the view.
  abbrev pub IsSilent : Forwarder W → Type 0
  IsSilent f = (n : Notification) → Keeps (f.send n)

  module _ (http : Http W) (h : (request : HttpRequest) → Keeps (http.send request)) where
    send_request-Keeps :
        (a b : String) (request : HttpRequest) → Keeps (send_request http a b request)
    unfolding send_request
    send_request-Keeps a b request w = ground (arith, h request w)

    post_expecting-Keeps :
        (show : ℤ → String) (accepted : ℕ → Bool) (a b : String) (request : HttpRequest)
        → Keeps (post_expecting http show accepted a b request)
    unfolding post_expecting
    post_expecting-Keeps show accepted a b request w =
        ground (arith, send_request-Keeps a b request w)

    lookup_user_by_email-Keeps :
        (s : SlackForwarder) (email : String) → Keeps (lookup_user_by_email http s email)
    unfolding lookup_user_by_email
    lookup_user_by_email-Keeps s email w = grind (arith, send_request-Keeps)

    lookup_owner-Keeps : (s : SlackForwarder) (owner : String) → Keeps (lookup_owner http s owner)
    unfolding lookup_owner
    lookup_owner-Keeps s owner w = grind (arith, lookup_user_by_email-Keeps)

    resolve_channel-Keeps :
        (s : SlackForwarder) (owner : String) → Keeps (resolve_channel http s owner)
    unfolding resolve_channel
    resolve_channel-Keeps s owner w = ground (arith, lookup_owner-Keeps s owner w)

    send_slack-Keeps :
        (show : ℤ → String) (s : SlackForwarder) (n : Notification)
        → Keeps (send_slack http show s n)
    unfolding send_slack
    send_slack-Keeps show s n w = grind (arith, send_request-Keeps, resolve_channel-Keeps)

    module _ (show : ℤ → String) where
      send_pagerduty-Keeps :
          (p : PagerDutyForwarder) (n : Notification) → Keeps (send_pagerduty http show p n)
      unfolding send_pagerduty
      send_pagerduty-Keeps p n w = grind (arith, post_expecting-Keeps)

      send_rocketchat-Keeps :
          (r : RocketChatForwarder) (n : Notification) → Keeps (send_rocketchat show http r n)
      unfolding send_rocketchat
      send_rocketchat-Keeps r n w = grind (arith, post_expecting-Keeps)

      send_servicenow-Keeps :
          (s : ServiceNowForwarder) (n : Notification) → Keeps (send_servicenow show http s n)
      unfolding send_servicenow
      send_servicenow-Keeps s n w = grind (arith, send_request-Keeps)

      get_access_token-Keeps : (t : TeamsForwarder) → Keeps (get_access_token http t)
      unfolding get_access_token
      get_access_token-Keeps t w = grind (arith, send_request-Keeps)

      lookup_user-Keeps : (token id : String) → Keeps (lookup_user http show token id)
      unfolding lookup_user
      lookup_user-Keeps token id w = grind (arith, send_request-Keeps)

      create_chat-Keeps : (token id : String) → Keeps (create_chat http show token id)
      unfolding create_chat
      create_chat-Keeps token id w = grind (arith, send_request-Keeps)

      post_message-Keeps :
          (token chat : String) (n : Notification) → Keeps (post_message http show token chat n)
      unfolding post_message
      post_message-Keeps token chat n w = grind (arith, send_request-Keeps)

      send_chat_message-Keeps :
          (token id : String) (n : Notification) → Keeps (send_chat_message http show token id n)
      unfolding send_chat_message
      send_chat_message-Keeps token id n w = grind (arith, create_chat-Keeps, post_message-Keeps)

      fall_back-Keeps :
          (t : TeamsForwarder) (n : Notification) (e : Error) → Keeps (fall_back http show t n e)
      unfolding fall_back send_via_webhook
      fall_back-Keeps t n e w = grind (arith, post_expecting-Keeps)

      lookup_address-Keeps :
          (token owner username : String) → Keeps (lookup_address http show token owner username)
      unfolding lookup_address
      lookup_address-Keeps token owner username w = grind (arith, lookup_user-Keeps)

      notify_user-Keeps :
          (t : TeamsForwarder) (n : Notification) (token prefix : String) (user : Result String)
          → Keeps (notify_user http show t n token prefix user)
      unfolding notify_user
      notify_user-Keeps t n token prefix (ok id) w = send_chat_message-Keeps token id n w
      notify_user-Keeps t n token prefix (err e) w = fall_back-Keeps t n (prefix <> e) w

      send_with_token-Keeps :
          (t : TeamsForwarder) (n : Notification) (token : String)
          → Keeps (send_with_token http show t n token)
      unfolding send_with_token
      send_with_token-Keeps t n token w =
          grind (arith, lookup_address-Keeps, lookup_user-Keeps, notify_user-Keeps, fall_back-Keeps)

      send_teams-Keeps : (t : TeamsForwarder) (n : Notification) → Keeps (send_teams http show t n)
      unfolding send_teams
      send_teams-Keeps t n w = grind (arith, get_access_token-Keeps, send_with_token-Keeps)

  module _ (smtp : Smtp W) (k : (command : SmtpCommand) → Keeps (smtp.run command)) where
    perform-Keeps : (script : List (SmtpCommand × Error)) → Keeps (perform smtp script)
    unfolding perform
    perform-Keeps [] w = refl
    perform-Keeps ((command, prefix) ∷ script) w =
        grind (arith, k command w, perform-Keeps script (smtp.run command w).1)

    connected-Keeps :
        (first : SmtpCommand × Error) (script : List (SmtpCommand × Error))
        → Keeps (connected smtp first script)
    unfolding connected
    connected-Keeps (connect, prefix) script w = grind (arith, k, perform-Keeps)

    send_smtp-Keeps :
        (show : ℤ → String) (s : SmtpForwarder) (n : Notification) → Keeps (send_smtp smtp show s n)
    unfolding send_smtp
    send_smtp-Keeps show s n w = connected-Keeps _ _ w

  module _ (o : Outside W) (h : (request : HttpRequest) → Keeps (o.http.send request))
      (k : (command : SmtpCommand) → Keeps (o.smtp.run command)) where
    Builds-IsSilent :
        {w : W} {configs : List ForwarderConfig} {fs : List (Forwarder W)}
        → Builds o w configs fs
        → All IsSilent fs
    unfolding send_snmp
    Builds-IsSilent no_configs = tt
    Builds-IsSilent (disabled c off b) = Builds-IsSilent b
    Builds-IsSilent (unknown c missing b) = Builds-IsSilent b
    Builds-IsSilent {w} (registers c f on m b) = (
      new_forwarder-ind o c w IsSilent (λ s e. send_slack-Keeps o.http h o.show s)
          (λ t e. send_teams-Keeps o.http h o.show t) (λ s e. send_smtp-Keeps o.smtp k o.show s)
          (λ s e n v. refl) (λ p e. send_pagerduty-Keeps o.http h o.show p)
          (λ r e. send_rocketchat-Keeps o.http h o.show r)
          (λ s e. send_servicenow-Keeps o.http h o.show s) f m,
      Builds-IsSilent b,
    )

    -- Where HTTP requests and mail leave a view of the world alone, so does every send of every
    -- forwarder that a configuration yields.
    pub new_dispatcher-IsSilent :
        (configs : List ForwarderConfig) (w : W) (fs : List (Forwarder W))
        → new_dispatcher o configs w ≡ ok fs
        → All IsSilent fs
    new_dispatcher-IsSilent configs w fs e =
        Builds-IsSilent (new_dispatcher-Builds o configs w fs e)
