-- ===== src/Notifier/Registry.antt =====
-- internal/notifier/notifier.go: `NewDispatcher`, which builds the forwarders of a configuration.
pub mod Configured
pub mod Excluded
pub mod Quiet
use ovro.Notifier.ServiceNow.{new_servicenow_forwarder, send_servicenow}
use ovro.Notifier.RocketChat.{new_rocketchat_forwarder, send_rocketchat}
use ovro.Notifier.PagerDuty.{new_pagerduty_forwarder, send_pagerduty}
use ovro.Notifier.Snmp.{new_snmp_forwarder, send_snmp}
use ovro.Notifier.Teams.{new_teams_forwarder, send_teams}
use ovro.Notifier.Slack.{new_slack_forwarder, send_slack}
use ovro.Prelude.Int.{ℤ}
use ovro.Notifier.Smtp.{new_smtp_forwarder, send_smtp, Smtp}
use ovro.Notifier.Http.{SecretGetter, Http}
use ovro.Notifier.{Notification, Forwarder, ForwarderConfig}
use ovro.Prelude.{
  [], some, none, ◌∷◌, ◌<>◌, str_eq, ok, if◌then◌else◌, err, Error, Result, Option, List, String,
}

-- What the forwarders reach: HTTP, mail servers and the cluster's secrets.
pub record Outside (W : Type 0) : Type 0 where
  pub http : Http W
  pub smtp : Smtp W
  pub secrets : SecretGetter W
  pub show : ℤ → String

module _ {W : Type 0} (o : Outside W) where
  -- A constructor's result as a forwarder of the interface, with its `Name`.
  abbrev pub registered {ℓ} :
      {A : Type ℓ}
      → String
      → (A → Notification → W → Option Error × W)
      → Result A
      → Result (Forwarder W)
  registered name send (err e) = err e
  registered name send (ok a) = ok (record { name = name; send = send a })

  -- The switch on the type, `none` for an unknown one.
  unfoldable pub new_forwarder : ForwarderConfig → W → Option (Result (Forwarder W))
  new_forwarder c w =
      if str_eq c.kind "slack"
      then some (registered "slack" (send_slack o.http o.show) (new_slack_forwarder c o.secrets w))
      else if str_eq c.kind "teams"
      then some (registered "teams" (send_teams o.http o.show) (new_teams_forwarder c o.secrets w))
      else if str_eq c.kind "smtp"
      then some (registered "smtp" (send_smtp o.smtp o.show) (new_smtp_forwarder c o.secrets w))
      else if str_eq c.kind "snmp"
      then some (registered "snmp" send_snmp (new_snmp_forwarder c))
      else if str_eq c.kind "pagerduty"
      then some (
          registered "pagerduty" (send_pagerduty o.http o.show)
            (new_pagerduty_forwarder c o.secrets w))
      else if str_eq c.kind "rocketchat"
      then some (
          registered "rocketchat" (send_rocketchat o.show o.http)
            (new_rocketchat_forwarder c o.secrets w))
      else if str_eq c.kind "servicenow"
      then some (
          registered "servicenow" (send_servicenow o.show o.http)
            (new_servicenow_forwarder c o.secrets w))
      else none

  -- `append(forwarders, fwd)`, or the end of the loop.
  abbrev pub register :
      ForwarderConfig
      → Result (Forwarder W)
      → Result (List (Forwarder W))
      → Result (List (Forwarder W))
  register c (err e) rest = err ("failed to create " <> c.kind <> " forwarder: " <> e)
  register c (ok fwd) (err e) = err e
  register c (ok fwd) (ok rest) = ok (fwd ∷ rest)

  -- Disabled forwarders and those of an unknown type are passed over.
  unfoldable pub new_dispatcher : List ForwarderConfig → W → Result (List (Forwarder W))
  unfolding new_forwarder
  new_dispatcher [] w = ok []
  new_dispatcher (c ∷ configs) w =
      let rest = new_dispatcher configs w in
      if c.enabled
      then elim (new_forwarder c w) [ none ↦ rest | some made ↦ register c made rest ]
      else rest
