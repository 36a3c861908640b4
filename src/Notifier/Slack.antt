-- ===== src/Notifier/Slack.antt =====
-- internal/notifier/slack.go.
pub mod Channel
use ovro.Server.Middleware.{cut_at}
use ovro.Prelude.Int.{ℤ}
use ovro.Notifier.Http.{
  string, json_object, json_body, decoded_body, required, no_body, json_content, with_secret, Json,
  text_member, send_request, member_of, bool_member, SecretGetter, Http,
}
use ovro.Notifier.{Notification, ForwarderConfig}
use Prim.Native.Char.{code}
use ovro.Prelude.{
  some, ok, [], ◌∷◌, ◌||◌, ◌==◌, str_eq, none, err, Error, ◌<>◌, if◌then◌else◌, false, Option,
  Result, Bool, ℕ, String,
}

pub record SlackForwarder : Type 0 where
  pub bot_token : String
  pub fallback_channel : String

unfoldable pub new_slack_forwarder :
    {W : Type 0} → ForwarderConfig → SecretGetter W → W → Result SlackForwarder
new_slack_forwarder cfg secrets w =
    if str_eq cfg.secret_ref ""
    then err "slack forwarder requires secretRef"
    else with_secret (secrets cfg.secret_ref "ovro-system" w) λ secret.
      required (secret "botToken") "secret missing botToken key"
        λ bot_token. ok (record { bot_token = bot_token; fallback_channel = cfg.channel })

-- `strings.HasPrefix` of a single character, given by its code.
abbrev pub has_first : ℕ → String → Bool
has_first n String.[] = false
has_first n (String.◌∷◌ c s) = code c == n

module _ (show : ℤ → String) where
  unfoldable pub slack_message : Notification → String
  slack_message n =
      "*VM Rightsizing Recommendation*\n\n*VM:* "
      <> n.vm_name
      <> "\n*Namespace:* "
      <> n.namespace
      <> "\n*Owner:* "
      <> n.owner
      <> "\n*Direction:* "
      <> n.direction
      <> "\n*Current:* "
      <> show n.current_cpu
      <> " CPU, "
      <> show n.current_memory
      <> " GiB Memory\n*Recommended:* "
      <> show n.rec_cpu
      <> " CPU, "
      <> show n.rec_memory
      <> " GiB Memory\n\n<"
      <> n.approval_url
      <> "|Approve/Reject>"

module _ {W : Type 0} (http : Http W) where
  -- `ok` and `error`, and an error with the text of `error` where `ok` is false.
  unfoldable pub check_ok : String → Json → Result Json
  unfolding bool_member text_member
  check_ok prefix j = elim (bool_member "ok" j) [
    | err e ↦ err e
    | ok fine ↦ elim (text_member "error" j) [
      | err e ↦ err e
      | ok e ↦ if fine then ok j else err (prefix <> e)
    ]
  ]

  -- `user.id` of an answer that says `ok`.
  unfoldable pub user_id_of : Json → Result String
  unfolding check_ok member_of text_member
  user_id_of j = elim (member_of "user" j) [
    | err e ↦ err e
    | ok user ↦ elim (text_member "id" user) [
      | err e ↦ err e
      | ok id ↦ elim (check_ok "users.lookupByEmail: " j) [ err e ↦ err e | ok j ↦ ok id ]
    ]
  ]

  unfoldable pub lookup_user_by_email : SlackForwarder → String → W → Result String × W
  unfolding send_request user_id_of
  lookup_user_by_email s email w =
      let (answer, w') =
        send_request http "" ""
          (record {
            method = "GET";
            url = "https://slack.com/api/users.lookupByEmail?email=" <> http.query_escape email;
            headers = ("Authorization", "Bearer " <> s.bot_token) ∷ [];
            body = no_body;
          })
          w in
      elim answer [
        | err e ↦ (err e, w')
        | ok a ↦ (elim (decoded_body a) [ err e ↦ err e | ok j ↦ user_id_of j ], w')
      ]

  -- `err == nil && userID != ""`.
  abbrev pub found_user : Result String → Option String
  found_user (err e) = none
  found_user (ok id) = if str_eq id "" then none else some id

  -- The part before the `@`, then the whole address; nobody where there is no `@`.
  unfoldable pub lookup_owner : SlackForwarder → String → W → Option String × W
  unfolding cut_at lookup_user_by_email
  lookup_owner s owner w = elim (cut_at 64 owner) [
    | none ↦ (none, w)
    | some (username, domain) ↦
        let (first, w') = lookup_user_by_email s username w in
        let (second, w'') = lookup_user_by_email s owner w' in
        elim (found_user first) [ some id ↦ (some id, w') | none ↦ (found_user second, w'') ]
  ]

  unfoldable pub resolve_channel : SlackForwarder → String → W → Result String × W
  unfolding lookup_owner
  resolve_channel s owner w =
      let (user, w') = lookup_owner s owner w in
      if has_first 35 owner || has_first 67 owner then (ok owner, w) else elim user [
        | some id ↦ (ok id, w')
        | none ↦
            if str_eq s.fallback_channel ""
            then (
              err (
                  "no channel resolved: owner " <> owner
                  <> " is not a channel or known email, and no fallback channel configured"),
              w',
            )
            else (ok s.fallback_channel, w')
      ]

  unfoldable pub send_slack : (ℤ → String) → SlackForwarder → Notification → W → Option Error × W
  unfolding resolve_channel slack_message send_request check_ok
  send_slack show s n w =
      let (channel, w') = resolve_channel s n.owner w in
      elim channel [
        | err e ↦ (some ("resolving slack channel for owner " <> n.owner <> ": " <> e), w')
        | ok channel ↦
            let (answer, w'') =
              send_request http "creating request: " "sending request: "
                (record {
                  method = "POST";
                  url = "https://slack.com/api/chat.postMessage";
                  headers = json_content ∷ ("Authorization", "Bearer " <> s.bot_token) ∷ [];
                  body = json_body (
                      json_object (
                        ("channel", string channel)
                        ∷ ("text", string (slack_message show n))
                        ∷ []));
                })
                w' in
            elim answer [
              | err e ↦ (some e, w'')
              | ok a ↦ elim (decoded_body a) [
                | err e ↦ (some ("parsing slack response: " <> e), w'')
                | ok j ↦ elim (check_ok "slack API error: " j) [
                  | err e ↦ (some e, w'')
                  | ok j ↦ (none, w'')
                ]
              ]
            ]
      ]
