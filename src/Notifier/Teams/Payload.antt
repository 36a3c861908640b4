-- ===== src/Notifier/Teams/Payload.antt =====
-- internal/notifier/teams.go: the JSON that is sent.
use ovro.Notifier.Http.{json_array, string, json_object, Json}
use ovro.Prelude.Int.{ℤ}
use ovro.Prelude.{[], ◌∷◌, ◌<>◌, List, String}
use ovro.Notifier.{Notification}

unfoldable pub chat_payload : String → Json
chat_payload user_id = json_object (
    ("chatType", string "oneOnOne")
    ∷ (
      "members",
      json_array (
          json_object (
            ("@odata.type", string "#microsoft.graph.aadUserConversationMember")
            ∷ ("roles", json_array (string "owner" ∷ []))
            ∷ (
              "user@odata.bind",
              string ("https://graph.microsoft.com/v1.0/users('" <> user_id <> "')"),
            )
            ∷ [])
          ∷ []),
    )
    ∷ [])

-- A title and a text of the card.
abbrev pub fact : String → String → Json
fact title value = json_object (("title", string title) ∷ ("value", string value) ∷ [])

module _ (show : ℤ → String) where
  unfoldable pub teams_message : Notification → String
  teams_message n =
      "<h2>VM Rightsizing Recommendation</h2><b>VM:</b> "
      <> n.vm_name
      <> "<br/><b>Namespace:</b> "
      <> n.namespace
      <> "<br/><b>Owner:</b> "
      <> n.owner
      <> "<br/><b>Direction:</b> "
      <> n.direction
      <> "<br/><b>Current:</b> "
      <> show n.current_cpu
      <> " CPU, "
      <> show n.current_memory
      <> " GiB Memory<br/><b>Recommended:</b> "
      <> show n.rec_cpu
      <> " CPU, "
      <> show n.rec_memory
      <> " GiB Memory<br/><br/><a href=\""
      <> n.approval_url
      <> "\">Approve/Reject</a>"

  unfoldable pub message_payload : Notification → Json
  unfolding teams_message
  message_payload n = json_object (
      (
        "body",
        json_object (("contentType", string "html") ∷ ("content", string (teams_message n)) ∷ []),
      )
      ∷ [])

  unfoldable pub card_facts : Notification → List Json
  card_facts n =
      fact "VM" n.vm_name
      ∷ fact "Namespace" n.namespace
      ∷ fact "Owner" n.owner
      ∷ fact "Direction" n.direction
      ∷ fact "Current CPU" (show n.current_cpu)
      ∷ fact "Current Memory" (show n.current_memory <> " GiB")
      ∷ fact "Recommended CPU" (show n.rec_cpu)
      ∷ fact "Recommended Memory" (show n.rec_memory <> " GiB")
      ∷ []

  unfoldable pub card_content : Notification → Json
  unfolding card_facts
  card_content n = json_object (
      ("type", string "AdaptiveCard")
      ∷ ("$schema", string "http://adaptivecards.io/schemas/adaptive-card.json")
      ∷ ("version", string "1.2")
      ∷ (
        "body",
        json_array (
            json_object (
              ("type", string "TextBlock")
              ∷ ("text", string "VM Rightsizing Recommendation")
              ∷ ("weight", string "Bolder")
              ∷ ("size", string "Medium")
              ∷ [])
            ∷ json_object (("type", string "FactSet") ∷ ("facts", json_array (card_facts n)) ∷ [])
            ∷ []),
      )
      ∷ (
        "actions",
        json_array (
            json_object (
              ("type", string "Action.OpenUrl")
              ∷ ("title", string "Approve/Reject")
              ∷ ("url", string n.approval_url)
              ∷ [])
            ∷ []),
      )
      ∷ [])

  unfoldable pub webhook_card : Notification → Json
  unfolding card_content
  webhook_card n = json_object (
      ("type", string "message")
      ∷ (
        "attachments",
        json_array (
            json_object (
              ("contentType", string "application/vnd.microsoft.card.adaptive")
              ∷ ("content", card_content n)
              ∷ [])
            ∷ []),
      )
      ∷ [])
