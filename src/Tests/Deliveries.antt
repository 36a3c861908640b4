-- ===== src/Tests/Deliveries.antt =====
-- A send that is reported as done.
use ovro.Tests.{before_all, show}
use ovro.Prelude.Int.{ℤ}
use ovro.Notifier.Delivery.Reported.{new_forwarder-IsDelivered, logging}
use ovro.Notifier.Http.{send_request, post_expecting}
use ovro.Tests.Forwarders.{accepting, note, outside, blank}
use ovro.Platform.Memory.{Cluster}
use ovro.Notifier.Delivery.{recorded, IsDelivered, Asked}
use ovro.Notifier.RocketChat.{new_rocketchat_forwarder, send_rocketchat}
use ovro.Notifier.Registry.{new_forwarder, Outside}
use ovro.Notifier.{ForwarderConfig, Forwarder}
use mathlib.Core.Path.{refl}
use ovro.Prelude.{◌≡◌, some, ok, [], inl, inr}

abbrev chat_config : ForwarderConfig
chat_config = record blank {
  kind = "rocketchat";
  secret_ref = "chat";
  server_url = "https://chat.example.com";
}

abbrev with_secrets : Outside (Cluster ℤ)
with_secrets = record outside { secrets = λ name namespace w. ok (λ field. some "secret") }

abbrev chat_forwarder : Forwarder (Asked × Cluster ℤ)
chat_forwarder = record {
  name = "rocketchat";
  send = send_rocketchat show (recorded accepting) (record {
    server_url = "https://chat.example.com";
    channel = "#vms";
    auth_token = "secret";
    user_id = "secret";
  });
}

yields_chat :
    new_forwarder (logging with_secrets) chat_config ([], before_all) ≡ some (ok chat_forwarder)
unfolding new_forwarder new_rocketchat_forwarder
yields_chat = refl

new_forwarder-IsDelivered_example : IsDelivered (chat_forwarder.send note ([], before_all)).1.0
unfolding send_rocketchat post_expecting send_request
new_forwarder-IsDelivered_example =
    new_forwarder-IsDelivered with_secrets chat_config chat_forwarder note ([], before_all)
      ([], before_all) (inr (inr (inl refl))) yields_chat refl
