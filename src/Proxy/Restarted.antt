-- ===== src/Proxy/Restarted.antt =====
-- The proxy, the API server and the restart controller together: an approval with a restart time,
-- and the restart.
use ovro.Controller.Restart.Safety.{IsDue}
use ovro.Prelude.Int.{pos}
use ovro.Controller.{done}
use ovro.Controller.Restart.{reconcile_restart}
use ovro.Controller.Restart.Due.{
  reconcile_restart-IsApplied, restarted_world, after_restart, vm_key,
}
use ovro.Proxy.Cluster.{in_cluster}
use ovro.Proxy.Scheduled.{handle_post_approve_scheduled, schedule_form, approved_for}
use ovro.Types.{is_applied_pending_restart, applied, is_awaiting_approval, Recommendation, Time}
use ovro.Platform.Laws.{Objects, IsLawful}
use ovro.Proxy.{handle_post_approve, Backend}
use ovro.Server.{key, Server}
use ovro.Token.{validate_token, ApprovalClaims, TokenManager, Jwt}
use ovro.Platform.{restart, found, Platform}
use mathlib.Core.Option.{some-injective}
use ovro.Prelude.{ap, ◌∙◌, sym, ◌≤◌, some, none, true, ok, false, ◌≡◌, str_eq, String}

module _ {F : Type 0} (P : Platform F) (J : Jwt) (tm : TokenManager) (s : Server P.World)
    (B : Backend F P.World) (L : IsLawful P) where
  open L use {objects}

  -- On a platform that meets the assumptions of `IsLawful`, in front of the API server: in any
  -- world that still holds the recommendations as such an approval left them, from the chosen
  -- time on, one reconciliation of the restart controller in which the VM takes the restart and
  -- the status can be written ends without a retry and with the stored recommendation applied, at
  -- the time of the restart, as it was approved by the owner of the token.
  pub handle_post_approve_restarted :
      (claims : ApprovalClaims) (token text : String) (t : Time)
      (rec saved seen final : Recommendation F) (w v : P.World)
      → str_eq token "" ≡ false
      → validate_token J tm token (P.now w) ≡ ok claims
      → P.get_rec (key claims.namespace claims.rec_name) w ≡ found rec
      → is_awaiting_approval rec.status.state ≡ true
      → rec.spec.hotplug_capable ≡ false
      → str_eq text "" ≡ false
      → P.parse_rfc3339 text ≡ none
      → B.parse_local text ≡ some t
      → str_eq (B.format_rfc3339 t) "" ≡ false
      → P.parse_rfc3339 (B.format_rfc3339 t) ≡ some t
      → (P.update_status
          (record rec { status = approved_for claims.owner (P.timestamp w) t rec.status })
          w).0
        ≡ ok saved
      → objects v
        ≡ objects
            (handle_post_approve P J tm (in_cluster P s B) (some (schedule_form token text)) w).1
      → P.get_rec (key claims.namespace claims.rec_name) v ≡ found seen
      → t ≤ P.now v
      → (P.patch_vm (vm_key P L seen) restart v).0 ≡ none
      → (P.update_status (after_restart P L seen v) (restarted_world P L seen v)).0 ≡ ok final
      → ((reconcile_restart P (key claims.namespace claims.rec_name) v).0 ≡ done (pos 0))
        × (objects
              (reconcile_restart P (key claims.namespace claims.rec_name) v).1
              (key claims.namespace claims.rec_name)
            ≡ some (record rec {
              status = record (rec.status) {
                state = applied;
                applied_at = some (P.timestamp (restarted_world P L seen v));
                scheduled_restart_at = none;
                approved_by = claims.owner;
                approved_at = some (P.timestamp w);
                approval_token = "";
              };
            }))
  handle_post_approve_restarted claims token text t rec saved seen final w v e va g a h n p l m q u
        held f passed re up =
      let k = key claims.namespace claims.rec_name in
      let approved = record rec {
        status = approved_for claims.owner (P.timestamp w) t rec.status;
      } in
      let (page, stored) =
        handle_post_approve_scheduled P J tm s B L claims token text t rec saved w e va g a h n p l
          m q u in
      let same : seen ≡ approved =
        some-injective seen approved
          (sym (L.get_rec_found k v seen f).0 ∙ (ap (λ (o : Objects F). o k) held ∙ stored)) in
      let due : IsDue P k v seen t = record {
        fetched = f;
        waits = ap (λ (x : Recommendation F). is_applied_pending_restart x.status.state) same;
        set = ap (λ (x : Recommendation F). x.status.scheduled_restart_at) same;
        passed = passed;
      } in
      let (end, final_stored) = reconcile_restart-IsApplied P L k v seen final t due re up in
      (
        end,
        final_stored
            ∙ ap
                (λ (x : Recommendation F). some (record x {
                  status = record (x.status) {
                    state = applied;
                    applied_at = some (P.timestamp (restarted_world P L seen v));
                    scheduled_restart_at = none;
                  };
                }))
                same,
      )
