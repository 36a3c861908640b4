-- ===== src/Notifier/Delivery/Reported.antt =====
-- The forwarders that a configuration yields: no error means a delivery.
use ovro.Notifier.ServiceNow.{new_servicenow_forwarder, send_servicenow}
use ovro.Notifier.RocketChat.{new_rocketchat_forwarder, send_rocketchat}
use ovro.Notifier.PagerDuty.{new_pagerduty_forwarder, send_pagerduty}
use ovro.Notifier.Delivery.Chats.{send_teams-IsDelivered}
use ovro.Notifier.Teams.{new_teams_forwarder, send_teams}
use ovro.Notifier.{Forwarder, Notification, ForwarderConfig}
use ovro.Notifier.Delivery.{
  send_servicenow-IsDelivered, send_rocketchat-IsDelivered, send_pagerduty-IsDelivered, IsDelivered,
  recorded, Asked,
}
use ovro.Notifier.Registry.{registered, new_forwarder, Outside}
use mathlib.Core.Option.{some-injective}
use ovro.Prelude.{
  ap, ◌∙◌, true, str_eq, sym, false, Bool, inr, subst, ok-injective, arith, inl, err, none, ok,
  some, ◌⊎◌, Result, ◌≡◌, Error, Option, String, refl,
}

-- The same surroundings, with a log of the HTTP requests.
abbrev pub logging : {W : Type 0} → Outside W → Outside (Asked × W)
logging o = record {
  http = recorded o.http;
  smtp = record {
    run = λ command v. let (log, w) = v in let (e, w') = o.smtp.run command w in (e, (log, w'));
    host_of = o.smtp.host_of;
  };
  secrets = λ name namespace v. o.secrets name namespace v.1;
  show = o.show;
}

module _ {W : Type 0} (o : Outside W) where
  registered-IsDelivered :
      {A : Type 0} (name : String)
      (send : A → Notification → Asked × W → Option Error × (Asked × W)) (made : Result A)
      (fwd : Forwarder (Asked × W)) (n : Notification) (v : Asked × W)
      → some (registered (logging o) name send made) ≡ some (ok fwd)
      → ((a : A) → (send a n v).0 ≡ none → IsDelivered (send a n v).1.0)
      → (fwd.send n v).0 ≡ none
      → IsDelivered (fwd.send n v).1.0
  registered-IsDelivered name send (err e) fwd n v h d s = absurd (ground arith)
  registered-IsDelivered name send (ok a) fwd n v h d s =
      let same : record { name = name; send = send a } ≡ fwd =
        ok-injective _ fwd (some-injective _ _ h) in
      subst (λ (f : Forwarder (Asked × W)). (f.send n v).0 ≡ none → IsDelivered (f.send n v).1.0)
        same (d a) s

  -- The test of a type, for a configuration of a type.
  is_kind :
      (c : ForwarderConfig) (kind other : String) (b : Bool)
      → c.kind ≡ kind
      → str_eq kind other ≡ b
      → str_eq c.kind other ≡ b
  is_kind c kind other b k e = ap (λ t. str_eq t other) k ∙ e

  new_forwarder-teams :
      (c : ForwarderConfig) (made : Asked × W)
      → c.kind ≡ "teams"
      → new_forwarder (logging o) c made
        ≡ some (
            registered
              (logging o)
              "teams"
              (send_teams (recorded o.http) o.show)
              (new_teams_forwarder c (logging o).secrets made))
  unfolding new_forwarder
  new_forwarder-teams c made k =
      rw (is_kind c "teams" "slack" false k refl, new_forwarder)
        (rw (is_kind c "teams" "teams" true k refl) refl)

  new_forwarder-pagerduty :
      (c : ForwarderConfig) (made : Asked × W)
      → c.kind ≡ "pagerduty"
      → new_forwarder (logging o) c made
        ≡ some (
            registered
              (logging o)
              "pagerduty"
              (send_pagerduty (recorded o.http) o.show)
              (new_pagerduty_forwarder c (logging o).secrets made))
  unfolding new_forwarder
  new_forwarder-pagerduty c made k =
      rw (is_kind c "pagerduty" "slack" false k refl, new_forwarder)
        (rw (is_kind c "pagerduty" "teams" false k refl) (
          rw (is_kind c "pagerduty" "smtp" false k refl) (
            rw (is_kind c "pagerduty" "snmp" false k refl)
              (rw (is_kind c "pagerduty" "pagerduty" true k refl) refl))))

  new_forwarder-rocketchat :
      (c : ForwarderConfig) (made : Asked × W)
      → c.kind ≡ "rocketchat"
      → new_forwarder (logging o) c made
        ≡ some (
            registered
              (logging o)
              "rocketchat"
              (send_rocketchat o.show (recorded o.http))
              (new_rocketchat_forwarder c (logging o).secrets made))
  unfolding new_forwarder
  new_forwarder-rocketchat c made k =
      rw (is_kind c "rocketchat" "slack" false k refl, new_forwarder)
        (rw (is_kind c "rocketchat" "teams" false k refl) (
          rw (is_kind c "rocketchat" "smtp" false k refl) (
            rw (is_kind c "rocketchat" "snmp" false k refl) (
              rw (is_kind c "rocketchat" "pagerduty" false k refl)
                (rw (is_kind c "rocketchat" "rocketchat" true k refl) refl)))))

  new_forwarder-servicenow :
      (c : ForwarderConfig) (made : Asked × W)
      → c.kind ≡ "servicenow"
      → new_forwarder (logging o) c made
        ≡ some (
            registered
              (logging o)
              "servicenow"
              (send_servicenow o.show (recorded o.http))
              (new_servicenow_forwarder c (logging o).secrets made))
  unfolding new_forwarder
  new_forwarder-servicenow c made k =
      rw (is_kind c "servicenow" "slack" false k refl, new_forwarder)
        (rw (is_kind c "servicenow" "teams" false k refl) (
          rw (is_kind c "servicenow" "smtp" false k refl) (
            rw (is_kind c "servicenow" "snmp" false k refl) (
              rw (is_kind c "servicenow" "pagerduty" false k refl) (
                rw (is_kind c "servicenow" "rocketchat" false k refl)
                  (rw (is_kind c "servicenow" "servicenow" true k refl) refl))))))

  -- A forwarder for Teams, PagerDuty, Rocket.Chat or ServiceNow that a configuration yields reports
  -- no error only where its last HTTP request was a POST that was answered with 200, 201 or 202:
  -- whatever the HTTP client answers, a failed delivery is reported.
  pub new_forwarder-IsDelivered :
      (c : ForwarderConfig) (fwd : Forwarder (Asked × W)) (n : Notification) (made v : Asked × W)
      → (c.kind ≡ "teams")
        ⊎ ((c.kind ≡ "pagerduty") ⊎ ((c.kind ≡ "rocketchat") ⊎ (c.kind ≡ "servicenow")))
      → new_forwarder (logging o) c made ≡ some (ok fwd)
      → (fwd.send n v).0 ≡ none
      → IsDelivered (fwd.send n v).1.0
  new_forwarder-IsDelivered c fwd n made v (inl k) h s =
      registered-IsDelivered "teams" (send_teams (recorded o.http) o.show)
        (new_teams_forwarder c (logging o).secrets made) fwd n v
        (sym (new_forwarder-teams c made k) ∙ h) (λ t. send_teams-IsDelivered o.http o.show t n v) s
  new_forwarder-IsDelivered c fwd n made v (inr (inl k)) h s =
      registered-IsDelivered "pagerduty" (send_pagerduty (recorded o.http) o.show)
        (new_pagerduty_forwarder c (logging o).secrets made) fwd n v
        (sym (new_forwarder-pagerduty c made k) ∙ h)
        (λ t. send_pagerduty-IsDelivered o.http o.show t n v) s
  new_forwarder-IsDelivered c fwd n made v (inr (inr (inl k))) h s =
      registered-IsDelivered "rocketchat" (send_rocketchat o.show (recorded o.http))
        (new_rocketchat_forwarder c (logging o).secrets made) fwd n v
        (sym (new_forwarder-rocketchat c made k) ∙ h)
        (λ t. send_rocketchat-IsDelivered o.http o.show t n v) s
  new_forwarder-IsDelivered c fwd n made v (inr (inr (inr k))) h s =
      registered-IsDelivered "servicenow" (send_servicenow o.show (recorded o.http))
        (new_servicenow_forwarder c (logging o).secrets made) fwd n v
        (sym (new_forwarder-servicenow c made k) ∙ h)
        (λ t. send_servicenow-IsDelivered o.http o.show t n v) s
