-- ===== src/Notifier/Delivery/Chats.antt =====
-- What a send to Teams has done, by whichever of its ways, and the four forwarders together.
use ovro.Notifier.Teams.Payload.{message_payload}
use ovro.Notifier.Slack.{has_first}
use ovro.Server.Middleware.{cut_at}
use ovro.Notifier.Delivery.{
  created-IsDelivered, send_via_webhook-IsDelivered, IsDelivered, recorded, Asked,
}
use ovro.Notifier.{Notification}
use ovro.Notifier.Teams.{
  get_access_token, create_chat, TeamsForwarder, send_with_token, send_teams, send_chat_message,
  post_message, notify_user, fall_back,
}
use ovro.Prelude.Int.{ℤ}
use ovro.Notifier.Http.{send_request, json_body, json_content, HttpRequest, Http}
use ovro.Prelude.{
  ◌==◌, [], arith, ◌∷◌, inr, inl, ◌<>◌, str_eq, err, ok, Result-cases, Option-cases, Bool-cases,
  none, ◌≡◌, Result, Error, String, refl,
}

module _ {W : Type 0} (http : Http W) (show : ℤ → String) where
  post_message-IsDelivered :
      (token chat : String) (n : Notification) (v : Asked × W)
      → (post_message (recorded http) show token chat n v).0 ≡ none
      → IsDelivered (post_message (recorded http) show token chat n v).1.0
  unfolding post_message
  post_message-IsDelivered token chat n v h =
      let request : HttpRequest = record {
        method = "POST";
        url = "https://graph.microsoft.com/v1.0/chats/" <> chat <> "/messages";
        headers = ("Authorization", "Bearer " <> token) ∷ json_content ∷ [];
        body = json_body (message_payload show n);
      } in
      elim (Result-cases (send_request (recorded http) "" "sending message: " request v).0) [
        | inr (e, f) ↦ absurd (ground arith)
        | inl (a, f) ↦ elim (Bool-cases (a.status == 201)) [
          | inr g ↦ absurd (ground arith)
          | inl g ↦
              rw (f, post_message)
                (created-IsDelivered http "" "sending message: " request a v refl g f)
        ]
      ]

  send_chat_message-IsDelivered :
      (token user_id : String) (n : Notification) (v : Asked × W)
      → (send_chat_message (recorded http) show token user_id n v).0 ≡ none
      → IsDelivered (send_chat_message (recorded http) show token user_id n v).1.0
  unfolding send_chat_message
  send_chat_message-IsDelivered token user_id n v h =
      elim (Result-cases (create_chat (recorded http) show token user_id v).0) [
        | inr (e, f) ↦ absurd (ground arith)
        | inl (id, f) ↦
            rw (f, send_chat_message)
              (post_message-IsDelivered token id n _ (rw (f, send_chat_message) at h))
      ]

  fall_back-IsDelivered :
      (t : TeamsForwarder) (n : Notification) (e : Error) (v : Asked × W)
      → (fall_back (recorded http) show t n e v).0 ≡ none
      → IsDelivered (fall_back (recorded http) show t n e v).1.0
  unfolding fall_back
  fall_back-IsDelivered t n e v h = elim (Bool-cases (str_eq t.fallback_channel "")) [
    | inl f ↦ absurd (ground arith)
    | inr f ↦
        rw (f, fall_back) (send_via_webhook-IsDelivered http show t n v (rw (f, fall_back) at h))
  ]

  notify_user-IsDelivered :
      (t : TeamsForwarder) (n : Notification) (token prefix : String) (user : Result String)
      (v : Asked × W)
      → (notify_user (recorded http) show t n token prefix user v).0 ≡ none
      → IsDelivered (notify_user (recorded http) show t n token prefix user v).1.0
  unfolding notify_user
  notify_user-IsDelivered t n token prefix (ok id) v h =
      send_chat_message-IsDelivered token id n v h
  notify_user-IsDelivered t n token prefix (err e) v h = fall_back-IsDelivered t n (prefix <> e) v h

  send_with_token-IsDelivered :
      (t : TeamsForwarder) (n : Notification) (token : String) (v : Asked × W)
      → (send_with_token (recorded http) show t n token v).0 ≡ none
      → IsDelivered (send_with_token (recorded http) show t n token v).1.0
  unfolding send_with_token
  send_with_token-IsDelivered t n token v h = elim (Option-cases (cut_at 64 n.owner)) [
    | inr ((username, domain), e) ↦
        rw (e, send_with_token)
          (notify_user-IsDelivered t n token _ _ _ (rw (e, send_with_token) at h))
    | inl e ↦ elim (Bool-cases (has_first 35 n.owner)) [
      | inl f ↦
          rw (e, send_with_token)
            (rw f (
              fall_back-IsDelivered t n
                "channel routing requires a webhook URL in the channel config field" v
                (rw f at (rw (e, send_with_token) at h))))
      | inr f ↦
          rw (e, send_with_token)
            (rw f
              (notify_user-IsDelivered t n token _ _ _ (rw f at (rw (e, send_with_token) at h))))
    ]
  ]

  pub send_teams-IsDelivered :
      (t : TeamsForwarder) (n : Notification) (v : Asked × W)
      → (send_teams (recorded http) show t n v).0 ≡ none
      → IsDelivered (send_teams (recorded http) show t n v).1.0
  unfolding send_teams
  send_teams-IsDelivered t n v h = elim (Result-cases (get_access_token (recorded http) t v).0) [
    | inr (e, f) ↦ absurd (ground arith)
    | inl (token, f) ↦
        rw (f, send_teams) (send_with_token-IsDelivered t n token _ (rw (f, send_teams) at h))
  ]
