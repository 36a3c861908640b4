-- ===== src/Proxy/Cluster.antt =====
-- The proxy in front of the API server: its requests reach the handlers of internal/apiserver, by
-- the internal routes of server.go, which need no login.
use ovro.Server.Decide.{handle_owner_reject, handle_owner_approve, OwnerRejectRequest}
use ovro.Server.{Response, Server, ApplyRequest}
use ovro.Platform.{Platform}
use ovro.Proxy.{owner_reject, owner_approve, Endpoint, Backend, Payload}
use ovro.Prelude.{str_eq, if◌then◌else◌, [], ◌∷◌, some, ok, String}

-- A field of a JSON object of texts, the empty text where it is missing.
unfoldable pub field : Payload → String → String
field [] name = ""
field ((k, v) ∷ payload) name = if str_eq k name then v else field payload name

-- What the two handlers decode of a body. Fields of other names are ignored.
abbrev pub decode_approval : Payload → ApplyRequest
decode_approval payload = record {
  restart_option = field payload "restartOption";
  scheduled_at = field payload "scheduledAt";
}

abbrev pub decode_rejection : Payload → OwnerRejectRequest
decode_rejection payload = record {
  reason = field payload "reason";
  action = field payload "action";
}

module _ {F : Type 0} (P : Platform F) (s : Server P.World) where
  unfoldable pub serve : Endpoint → Payload → String → P.World → Response F × P.World
  unfolding field
  serve (owner_approve namespace name) payload owner w =
      handle_owner_approve P owner namespace name (some (decode_approval payload)) w
  serve (owner_reject namespace name) payload owner w =
      handle_owner_reject P s owner namespace name (some (decode_rejection payload)) w

  -- A backend that is always reached.
  abbrev pub in_cluster : Backend F P.World → Backend F P.World
  in_cluster B = record B {
    post = λ endpoint payload owner w.
        let (response, w') = serve endpoint payload owner w in (ok response.code, w');
  }
