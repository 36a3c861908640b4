-- ===== src/Notifier/RocketChat.antt =====
-- internal/notifier/rocketchat.go.
use ovro.Notifier.Http.{
  string, json_object, json_body, required, with_secret, json_content, post_expecting, SecretGetter,
  Http,
}
use ovro.Prelude.Int.{ℤ}
use ovro.Notifier.{Notification, ForwarderConfig}
use ovro.Prelude.{
  ok, [], ◌∷◌, ◌==◌, err, str_eq, Error, if◌then◌else◌, Option, ◌<>◌, Result, String,
}

pub record RocketChatForwarder : Type 0 where
  pub server_url : String
  pub channel : String
  pub auth_token : String
  pub user_id : String

unfoldable pub new_rocketchat_forwarder :
    {W : Type 0} → ForwarderConfig → SecretGetter W → W → Result RocketChatForwarder
new_rocketchat_forwarder cfg secrets w =
    if str_eq cfg.server_url ""
    then err "rocketchat forwarder requires serverUrl"
    else if str_eq cfg.channel ""
    then err "rocketchat forwarder requires channel"
    else if str_eq cfg.secret_ref ""
    then err "rocketchat forwarder requires secretRef"
    else with_secret (secrets cfg.secret_ref "default" w) λ secret.
      required (secret "authToken") "secret missing authToken key" λ auth_token.
        required (secret "userId") "secret missing userId key" λ user_id. ok (record {
          server_url = cfg.server_url;
          channel = cfg.channel;
          auth_token = auth_token;
          user_id = user_id;
        })

module _ (show : ℤ → String) where
  unfoldable pub rocketchat_message : Notification → String
  rocketchat_message n =
      "**VM Rightsizing Recommendation**\n\n**VM:** "
      <> n.vm_name
      <> "\n**Namespace:** "
      <> n.namespace
      <> "\n**Owner:** "
      <> n.owner
      <> "\n**Direction:** "
      <> n.direction
      <> "\n**Current:** "
      <> show n.current_cpu
      <> " CPU, "
      <> show n.current_memory
      <> " MB Memory\n**Recommended:** "
      <> show n.rec_cpu
      <> " CPU, "
      <> show n.rec_memory
      <> " MB Memory\n\n[Approve/Reject]("
      <> n.approval_url
      <> ")"

  module _ {W : Type 0} (http : Http W) where
    unfoldable pub send_rocketchat : RocketChatForwarder → Notification → W → Option Error × W
    unfolding rocketchat_message post_expecting
    send_rocketchat r n w =
        post_expecting http show (λ status. status == 200) "failed to create request: "
          "failed to send request: "
          (record {
            method = "POST";
            url = r.server_url <> "/api/v1/chat.postMessage";
            headers = json_content ∷ ("X-Auth-Token", r.auth_token) ∷ ("X-User-Id", r.user_id) ∷ [];
            body = json_body (
                json_object
                  (("channel", string r.channel) ∷ ("text", string (rocketchat_message n)) ∷ []));
          })
          w
