-- ===== src/Controller/Reconcile.antt =====
-- rightsizingrecommendation_controller.go: the writes of `Reconcile`, and `Reconcile` itself.
use ovro.Server.Overview.{is_excluded}
use ovro.Notifier.{send_all_except}
use ovro.Server.{notification_of, approval_url}
use ovro.Controller.{retry, get_vm, done, Outcome, SizedVm}
use ovro.Controller.Recommend.{
  no_action, analysed, reminder_age, no_metrics, new_recommendation, is_kept, expiry_age, analyse,
  delete_existing, with_findings, rec_key, in_context, expired_status, Analysis, Querier,
}
use ovro.Types.{
  annotation_exclude, pending, is_pending, is_awaiting_approval, NamespacedName, Time,
  Recommendation,
}
use ovro.Token.{Jwt}
use ovro.Prelude.Int.{pos, ◌*ℤ◌, wrap64, ℤ}
use ovro.Controller.AutoApply.{auto_apply, Reconciler}
use ovro.Types.Policy.{default_policy_spec, PolicySpec}
use ovro.Platform.{found, not_found, unavailable, VirtualMachine, Platform}
use ovro.Floats.{Floats}
use ovro.Prelude.{
  is_some, not, [], ◌∷◌, ◌<>◌, ◌&&◌, ltb, if◌then◌else◌, err, ◌-◌, some, ok, none, Result, String,
}

-- `time.Duration(minutes) * time.Minute`.
unfoldable pub requeue_after : PolicySpec → ℤ
requeue_after policy = wrap64 (policy.reconcile_interval_minutes *ℤ pos 60000000000)

module _ {F : Type 0} (P : Platform F) (r : Reconciler P.World) where
  -- The reminder goes to every forwarder but ServiceNow. Its failures are logged.
  unfoldable pub send_reminder : Recommendation F → P.World → P.World
  send_reminder rec w = elim r.notifier [
    | none ↦ w
    | some forwarders ↦
        let url = approval_url r.approval_route_host rec.status.approval_token in
        (send_all_except forwarders (notification_of P rec rec.status.owner url) ("servicenow" ∷ [])
          w).1
  ]

  unfoldable pub remind_owner : Recommendation F → P.World → Result (Recommendation F) × P.World
  unfolding send_reminder
  remind_owner rec w =
      let sent = send_reminder rec w in
      let reminded = record rec.status { reminder_sent_at = some (P.timestamp sent) } in
      let (stored, w') = P.update_status (record rec { status = reminded }) sent in
      (in_context "updating reminder status: " stored, w')

  unfoldable pub expire_approval : Recommendation F → P.World → Result (Recommendation F) × P.World
  expire_approval rec w =
      let (stored, w') = P.update_status (record rec { status = expired_status rec.status }) w in
      (in_context "resetting expired approval: " stored, w')

  -- The age of an approval that was asked for at an instant.
  unfoldable pub check_age : Time → Recommendation F → P.World → Result (Recommendation F) × P.World
  unfolding remind_owner expire_approval
  check_age notified rec w =
      let elapsed = P.now w - notified in
      if ltb expiry_age elapsed
      then expire_approval rec w
      else if ltb reminder_age elapsed && not (is_some rec.status.reminder_sent_at)
      then remind_owner rec w
      else (ok rec, w)

  unfoldable pub check_approval : Recommendation F → P.World → Result (Recommendation F) × P.World
  unfolding check_age
  check_approval rec w =
      let checked : Result (Recommendation F) × P.World = elim rec.status.notified_at [
        | none ↦ (ok rec, w)
        | some notified ↦ check_age notified rec w
      ] in
      if is_awaiting_approval rec.status.state then checked else (ok rec, w)

module _ (Fl : Floats) (show : ℤ → String) (P : Platform Fl.F) (J : Jwt)
    (r : Reconciler P.World) where
  open Fl use {F}

  -- The end of a reconciliation: apply automatically if the policy says so.
  unfoldable pub finish :
      PolicySpec → Recommendation F → VirtualMachine → P.World → Outcome × P.World
  unfolding requeue_after
  finish policy rec vm w =
      let applied_world = auto_apply P J r rec vm w in
      (
        done (requeue_after policy),
        if policy.auto_mode.enabled && is_pending rec.status.state then applied_world else w,
      )

  -- Create the object, then give it its first status.
  unfoldable pub create_recommendation :
      PolicySpec → SizedVm → Recommendation F → P.World → Outcome × P.World
  unfolding finish
  create_recommendation policy vm new w =
      let now = P.timestamp w in
      let (created, w') = P.create_rec new w in
      elim created [
        | err e ↦ (retry ("creating recommendation: " <> e), w')
        | ok rec ↦
            let first = record rec.status { state = pending; last_calculated = some now } in
            let (stored, w'') = P.update_status (record rec { status = first }) w' in
            elim stored [
              | err e ↦ (retry ("updating recommendation status: " <> e), w'')
              | ok rec' ↦ finish policy rec' vm.vm w''
            ]
      ]

  -- Store the findings in an object that is there, then the time of the analysis.
  unfoldable pub store_findings :
      PolicySpec → SizedVm → Analysis F → Time → Recommendation F → P.World → Outcome × P.World
  unfolding finish
  store_findings policy vm a now rec w =
      let (updated, w') =
        P.update_rec (record rec { spec = with_findings Fl show P policy a rec.spec }) w in
      elim updated [
        | err e ↦ (retry ("updating recommendation: " <> e), w')
        | ok rec' ↦
            let (stored, w'') =
              P.update_status
                (record rec' { status = record (rec'.status) { last_calculated = some now } }) w' in
            elim stored [
              | err e ↦ (retry ("updating recommendation status: " <> e), w'')
              | ok rec'' ↦ finish policy rec'' vm.vm w''
            ]
      ]

  unfoldable pub update_recommendation :
      PolicySpec → SizedVm → Analysis F → Recommendation F → P.World → Outcome × P.World
  unfolding store_findings
  update_recommendation policy vm a rec w =
      let now = P.timestamp w in
      let (checked, w') = check_approval P r rec w in
      elim checked [
        | err e ↦ (retry e, w')
        | ok rec' ↦
            if is_kept rec'.status.state
            then (done (requeue_after policy), w')
            else store_findings policy vm a now rec' w'
      ]

  unfoldable pub record_analysis :
      PolicySpec → SizedVm → Analysis F → String → String → P.World → Outcome × P.World
  unfolding create_recommendation update_recommendation
  record_analysis policy vm a name namespace w =
      elim (P.get_rec (rec_key Fl show P name namespace) w) [
        | not_found ↦
            create_recommendation policy vm
              (new_recommendation Fl show P policy vm a name namespace) w
        | unavailable e ↦ (retry ("fetching recommendation: " <> e), w)
        | found rec ↦ update_recommendation policy vm a rec w
      ]

  -- A VM that was read: skip it if it is excluded, otherwise analyse it.
  unfoldable pub reconcile_vm :
      Querier P.World F → PolicySpec → SizedVm → String → String → P.World → Outcome × P.World
  unfolding record_analysis
  reconcile_vm query policy vm name namespace w =
      let requeue = done (requeue_after policy) in
      let skipped : Outcome × P.World = (requeue, delete_existing Fl show P name namespace w) in
      let analysed_world : Outcome × P.World =
        elim (analyse Fl show P r.demo_mode query policy vm name namespace w) [
          | no_metrics ↦ (requeue, w)
          | no_action ↦ skipped
          | analysed a ↦ record_analysis policy vm a name namespace w
        ] in
      if is_excluded (vm.vm.annotations annotation_exclude) then skipped else analysed_world

  unfoldable pub reconcile_with :
      Querier P.World F → PolicySpec → String → String → P.World → Outcome × P.World
  unfolding reconcile_vm
  reconcile_with query policy name namespace w = elim (get_vm P name namespace w) [
    | err e ↦ (done (requeue_after policy), w)
    | ok vm ↦ reconcile_vm query policy vm name namespace w
  ]

  unfoldable pub reconcile : Querier P.World F → NamespacedName → P.World → Outcome × P.World
  unfolding reconcile_with
  reconcile query request w = elim (P.get_policy w) [
    | unavailable e ↦ (retry ("fetching policy: " <> e), w)
    | not_found ↦ reconcile_with query default_policy_spec request.name request.namespace w
    | found policy ↦ reconcile_with query policy request.name request.namespace w
  ]
