-- ===== src/Notifier/Teams.antt =====
-- internal/notifier/teams.go.
use ovro.Notifier.Slack.{has_first}
use ovro.Server.Middleware.{cut_at}
use ovro.Notifier.Teams.Payload.{webhook_card, message_payload, chat_payload}
use ovro.Prelude.Int.{pos, ℤ}
use ovro.Types.{Labels}
use ovro.Notifier.Http.{
  send_request, SecretGetter, Json, decoded_body, no_body, json_body, form_body, json_content,
  with_secret, post_expecting, text_member, Http,
}
pub mod Payload
use ovro.Notifier.{Notification, ForwarderConfig}
use ovro.Prelude.{
  ◌<>◌, Result, Bool, ◌==◌, [], ◌∷◌, ◌||◌, str_eq, ok, none, if◌then◌else◌, err, some, Error,
  Option, String,
}

-- `fallback_channel` is the URL of a webhook, empty where there is none.
pub record TeamsForwarder : Type 0 where
  pub tenant_id : String
  pub client_id : String
  pub client_secret : String
  pub fallback_channel : String

-- `secretData[key]`, the empty text where the key is missing.
abbrev pub or_empty : Option String → String
or_empty none = ""
or_empty (some s) = s

abbrev pub some_empty : Labels → Bool
some_empty secret =
    str_eq (or_empty (secret "tenantId")) ""
    || str_eq (or_empty (secret "clientId")) ""
    || str_eq (or_empty (secret "clientSecret")) ""

unfoldable pub new_teams_forwarder :
    {W : Type 0} → ForwarderConfig → SecretGetter W → W → Result TeamsForwarder
new_teams_forwarder cfg secrets w =
    if str_eq cfg.secret_ref ""
    then err "teams forwarder requires secretRef"
    else with_secret (secrets cfg.secret_ref "ovro-system" w) λ secret.
      if some_empty secret
      then err "secret must contain tenantId, clientId, and clientSecret"
      else ok (record {
        tenant_id = or_empty (secret "tenantId");
        client_id = or_empty (secret "clientId");
        client_secret = or_empty (secret "clientSecret");
        fallback_channel = cfg.channel;
      })

module _ {W : Type 0} (http : Http W) where
  -- `access_token`, and the text of `error` where it is empty.
  unfoldable pub token_of : Json → Result String
  unfolding text_member
  token_of j = elim (text_member "access_token" j) [
    | err e ↦ err e
    | ok token ↦ elim (text_member "error" j) [
      | err e ↦ err e
      | ok e ↦ if str_eq token "" then err ("failed to get token: " <> e) else ok token
    ]
  ]

  unfoldable pub get_access_token : TeamsForwarder → W → Result String × W
  unfolding send_request token_of
  get_access_token t w =
      let (answer, w') =
        send_request http "" ""
          (record {
            method = "POST";
            url = "https://login.microsoftonline.com/" <> t.tenant_id <> "/oauth2/v2.0/token";
            headers = ("Content-Type", "application/x-www-form-urlencoded") ∷ [];
            body = form_body (
                "grant_type=client_credentials&client_id=" <> t.client_id <> "&client_secret="
                <> t.client_secret <> "&scope=https://graph.microsoft.com/.default");
          })
          w in
      elim answer [
        | err e ↦ (err e, w')
        | ok a ↦ (elim (decoded_body a) [ err e ↦ err e | ok j ↦ token_of j ], w')
      ]

  -- `id`, and an error where it is empty.
  abbrev pub id_of : Error → Json → Result String
  id_of missing j = elim (text_member "id" j) [
    | err e ↦ err e
    | ok id ↦ if str_eq id "" then err missing else ok id
  ]

  module _ (show : ℤ → String) where
    unfoldable pub lookup_user : String → String → W → Result String × W
    unfolding send_request text_member
    lookup_user token identifier w =
        let (answer, w') =
          send_request http "" ""
            (record {
              method = "GET";
              url = "https://graph.microsoft.com/v1.0/users/" <> identifier;
              headers = ("Authorization", "Bearer " <> token) ∷ [];
              body = no_body;
            })
            w in
        elim answer [
          | err e ↦ (err e, w')
          | ok a ↦ (
            if a.status == 200
                then elim (decoded_body a) [ err e ↦ err e | ok j ↦ id_of "user not found" j ]
                else err ("user lookup returned " <> show (pos a.status)),
            w',
          )
        ]

    unfoldable pub create_chat : String → String → W → Result String × W
    unfolding send_request text_member chat_payload
    create_chat token user_id w =
        let (answer, w') =
          send_request http "" "creating chat: "
            (record {
              method = "POST";
              url = "https://graph.microsoft.com/v1.0/chats";
              headers = ("Authorization", "Bearer " <> token) ∷ json_content ∷ [];
              body = json_body (chat_payload user_id);
            })
            w in
        elim answer [
          | err e ↦ (err e, w')
          | ok a ↦ (
            elim (decoded_body a) [
              | err e ↦ err e
              | ok j ↦ id_of ("failed to create chat, response: " <> a.body) j
            ],
            w',
          )
        ]

    unfoldable pub post_message : String → String → Notification → W → Option Error × W
    unfolding send_request message_payload
    post_message token chat n w =
        let (answer, w') =
          send_request http "" "sending message: "
            (record {
              method = "POST";
              url = "https://graph.microsoft.com/v1.0/chats/" <> chat <> "/messages";
              headers = ("Authorization", "Bearer " <> token) ∷ json_content ∷ [];
              body = json_body (message_payload show n);
            })
            w in
        elim answer [
          | err e ↦ (some e, w')
          | ok a ↦ (
            if a.status == 201
                then none
                else some ("send message returned " <> show (pos a.status) <> ": " <> a.body),
            w',
          )
        ]

    unfoldable pub send_chat_message : String → String → Notification → W → Option Error × W
    unfolding create_chat post_message
    send_chat_message token user_id n w =
        let (chat, w') = create_chat token user_id w in
        elim chat [ err e ↦ (some e, w') | ok id ↦ post_message token id n w' ]

    unfoldable pub send_via_webhook : TeamsForwarder → Notification → W → Option Error × W
    unfolding post_expecting webhook_card
    send_via_webhook t n w =
        post_expecting http show (λ status. (status == 200) || (status == 202)) "creating request: "
          "sending request: "
          (record {
            method = "POST";
            url = t.fallback_channel;
            headers = json_content ∷ [];
            body = json_body (webhook_card show n);
          })
          w

    -- The webhook where there is one, and an error where there is none.
    unfoldable pub fall_back : TeamsForwarder → Notification → Error → W → Option Error × W
    unfolding send_via_webhook
    fall_back t n e w = if str_eq t.fallback_channel "" then (some e, w) else send_via_webhook t n w

    -- The whole address, then the part before the `@`.
    unfoldable pub lookup_address : String → String → String → W → Result String × W
    unfolding lookup_user
    lookup_address token owner username w =
        let (first, w') = lookup_user token owner w in
        elim first [ ok id ↦ (ok id, w') | err e ↦ lookup_user token username w' ]

    unfoldable pub notify_user :
        TeamsForwarder → Notification → String → Error → Result String → W → Option Error × W
    unfolding send_chat_message fall_back
    notify_user t n token prefix (ok user_id) w = send_chat_message token user_id n w
    notify_user t n token prefix (err e) w = fall_back t n (prefix <> e) w

    unfoldable pub send_with_token : TeamsForwarder → Notification → String → W → Option Error × W
    unfolding cut_at lookup_address lookup_user notify_user fall_back
    send_with_token t n token w = elim (cut_at 64 n.owner) [
      | some (username, domain) ↦
          let (user, w') = lookup_address token n.owner username w in
          notify_user t n token
            ("could not find Teams user " <> n.owner <> " and no fallback channel configured: ")
            user w'
      | none ↦
          let (user, w') = lookup_user token n.owner w in
          if has_first 35 n.owner
          then fall_back t n "channel routing requires a webhook URL in the channel config field" w
          else notify_user t n token ("could not resolve Teams user " <> n.owner <> ": ") user w'
    ]

    unfoldable pub send_teams : TeamsForwarder → Notification → W → Option Error × W
    unfolding get_access_token send_with_token
    send_teams t n w =
        let (token, w') = get_access_token t w in
        elim token [
          | err e ↦ (some ("getting access token: " <> e), w')
          | ok token ↦ send_with_token t n token w'
        ]
