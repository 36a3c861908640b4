-- ===== src/Notifier/PagerDuty.antt =====
-- internal/notifier/pagerduty.go.
use ovro.Prelude.Int.{ℤ}
use ovro.Notifier.Http.{
  json_body, json_array, required, with_secret, number, json_content, string, post_expecting,
  json_object, SecretGetter, Json, Http,
}
use ovro.Notifier.{Notification, ForwarderConfig}
use ovro.Prelude.{
  ok, [], ◌==◌, ◌<>◌, err, ◌∷◌, str_eq, Error, if◌then◌else◌, Option, Result, String,
}

pub record PagerDutyForwarder : Type 0 where
  pub routing_key : String

unfoldable pub new_pagerduty_forwarder :
    {W : Type 0} → ForwarderConfig → SecretGetter W → W → Result PagerDutyForwarder
new_pagerduty_forwarder cfg secrets w =
    if str_eq cfg.secret_ref ""
    then err "pagerduty forwarder requires secretRef"
    else with_secret (secrets cfg.secret_ref "default" w) λ secret.
      required (secret "routingKey") "secret missing routingKey key"
        λ routing_key. ok (record { routing_key = routing_key })

-- The event that is sent, with the notification's fields as details.
unfoldable pub pagerduty_event : PagerDutyForwarder → Notification → Json
pagerduty_event p n = json_object (
    ("routing_key", string p.routing_key)
    ∷ ("event_action", string "trigger")
    ∷ (
      "payload",
      json_object (
          (
            "summary",
            string (
                "VM Rightsizing: " <> n.namespace <> "/" <> n.vm_name <> " (" <> n.direction
                <> ")"),
          )
          ∷ ("severity", string "info")
          ∷ ("source", string "ovro")
          ∷ (
            "custom_details",
            json_object (
                ("vm", string n.vm_name)
                ∷ ("namespace", string n.namespace)
                ∷ ("owner", string n.owner)
                ∷ ("direction", string n.direction)
                ∷ ("current_cpu", number n.current_cpu)
                ∷ ("current_memory", number n.current_memory)
                ∷ ("recommended_cpu", number n.rec_cpu)
                ∷ ("recommended_memory", number n.rec_memory)
                ∷ ("approval_url", string n.approval_url)
                ∷ []),
          )
          ∷ []),
    )
    ∷ (
      "links",
      json_array (
          json_object (("href", string n.approval_url) ∷ ("text", string "Approve/Reject") ∷ [])
          ∷ []),
    )
    ∷ [])

module _ {W : Type 0} (http : Http W) (show : ℤ → String) where
  unfoldable pub send_pagerduty : PagerDutyForwarder → Notification → W → Option Error × W
  unfolding pagerduty_event post_expecting
  send_pagerduty p n w =
      post_expecting http show (λ status. status == 202) "failed to create request: "
        "failed to send request: "
        (record {
          method = "POST";
          url = "https://events.pagerduty.com/v2/enqueue";
          headers = json_content ∷ [];
          body = json_body (pagerduty_event p n);
        })
        w
