-- ===== src/Controller/Expiry.antt =====
-- What becomes of an approval that nobody gave: the 14 days of `checkApproval`.
use ovro.Controller.Demo.{abs}
pub mod Revoked
use ovro.Controller.{done, SizedVm}
use ovro.Types.Policy.{PolicySpec}
use ovro.Controller.AutoApply.{Reconciler}
use ovro.Platform.Laws.{IsLawful}
use ovro.Token.{Jwt}
use ovro.Controller.Recommend.{metrics_of, is_kept, expiry_age, with_findings, Analysis}
use ovro.Prelude.Int.{pos, ℤ}
use ovro.Controller.Reconcile.{
  update_recommendation, requeue_after, finish, store_findings, expire_approval, check_age,
  check_approval,
}
use ovro.Types.{gi, pending, is_awaiting_approval, Time, Recommendation}
use ovro.Platform.{VirtualMachine, Platform}
use ovro.Floats.{Floats}
use ovro.Prelude.{none, ◌-◌, ap, ◌∙◌, arith, ◌<◌, ◌+◌, false, true, ok, ◌≡◌, some, String, refl}

module _ {F : Type 0} (P : Platform F) where
  -- The recommendation as the controller stores it once its approval has lapsed.
  abbrev pub lapsed : Recommendation F → Recommendation F
  lapsed rec = record rec {
    status = record (rec.status) {
      state = pending;
      owner = "";
      approval_token = "";
      notified_at = none;
      reminder_sent_at = none;
    };
  }

  abbrev pub lapsed_world : Recommendation F → P.World → P.World
  lapsed_world rec w = (P.update_status (lapsed rec) w).1

  pub check_approval-lapsed :
      (r : Reconciler P.World) (rec saved : Recommendation F) (notified : Time) (w : P.World)
      → is_awaiting_approval rec.status.state ≡ true
      → rec.status.notified_at ≡ some notified
      → notified + expiry_age < P.now w
      → (P.update_status (lapsed rec) w).0 ≡ ok saved
      → check_approval P r rec w ≡ (ok saved, lapsed_world rec w)
  unfolding check_approval check_age expire_approval
  check_approval-lapsed r rec saved notified w a n old stored = ground arith

module _ (Fl : Floats) (show : ℤ → String) (P : Platform Fl.F) (J : Jwt) (L : IsLawful P)
    (r : Reconciler P.World) where
  open L use {objects}
  open Fl use {F}

  -- The lapsed recommendation with new findings, and then with the time of the analysis.
  abbrev pub refreshed : PolicySpec → Analysis F → Recommendation F → Recommendation F
  refreshed policy a rec = record (lapsed P rec) {
    spec = with_findings Fl show P policy a rec.spec;
  }

  abbrev pub refreshed_world : PolicySpec → Analysis F → Recommendation F → P.World → P.World
  refreshed_world policy a rec w = (P.update_rec (refreshed policy a rec) (lapsed_world P rec w)).1

  abbrev pub asked_again : PolicySpec → Analysis F → Time → Recommendation F → Recommendation F
  asked_again policy a now rec = record rec {
    spec = record (rec.spec) {
      direction = a.result.direction;
      recommended = record {
        cpu = record { cores = a.result.recommended_cpu_cores; sockets = pos 1; threads = pos 1 };
        memory = gi a.result.recommended_memory_gib;
      };
      savings = record { cpu = a.result.cpu_savings; memory = gi (abs a.result.memory_savings) };
      metrics = metrics_of Fl show P policy a.utilization;
      reason = a.result.reason;
    };
    status = record (rec.status) {
      state = pending;
      owner = "";
      approval_token = "";
      notified_at = none;
      reminder_sent_at = none;
      last_calculated = some now;
    };
  }

  finish_manual :
      (policy : PolicySpec) (rec : Recommendation F) (vm : VirtualMachine) (w : P.World)
      → policy.auto_mode.enabled ≡ false
      → finish Fl show P J r policy rec vm w ≡ (done (requeue_after policy), w)
  unfolding finish
  finish_manual policy rec vm w off = ground arith

  abbrev found_again : PolicySpec → Analysis F → Recommendation F → Recommendation F
  found_again policy a rec = record rec { spec = with_findings Fl show P policy a rec.spec }

  abbrev analysed_at : Time → Recommendation F → Recommendation F
  analysed_at now rec = record rec { status = record (rec.status) { last_calculated = some now } }

  store_findings_manual :
      (policy : PolicySpec) (vm : SizedVm) (a : Analysis F) (now : Time)
      (rec stored : Recommendation F) (w : P.World)
      → (P.update_rec (found_again policy a rec) w).0 ≡ ok (found_again policy a rec)
      → (P.update_status
          (analysed_at now (found_again policy a rec))
          (P.update_rec (found_again policy a rec) w).1).0
        ≡ ok stored
      → policy.auto_mode.enabled ≡ false
      → store_findings Fl show P J r policy vm a now rec w ≡ (
        done (requeue_after policy),
        (P.update_status
            (analysed_at now (found_again policy a rec))
            (P.update_rec (found_again policy a rec) w).1).1,
      )
  unfolding store_findings
  store_findings_manual policy vm a now rec stored w u s off =
      rw (u, store_findings) (rw s (finish_manual policy stored vm.vm _ off))

  update_recommendation_checked :
      (policy : PolicySpec) (vm : SizedVm) (a : Analysis F) (rec rec' : Recommendation F)
      (w w' : P.World)
      → check_approval P r rec w ≡ (ok rec', w')
      → is_kept rec'.status.state ≡ false
      → update_recommendation Fl show P J r policy vm a rec w
        ≡ store_findings Fl show P J r policy vm a (P.timestamp w) rec' w'
  unfolding update_recommendation
  update_recommendation_checked policy vm a rec rec' w w' e k =
      let taken : (check_approval P r rec w).0 ≡ ok rec' = ap (λ p. p.0) e in
      let world : (check_approval P r rec w).1 ≡ w' = ap (λ p. p.1) e in
      rw (taken, update_recommendation) (rw k (rw world refl))

  -- In manual mode and on a platform that meets the assumptions of `IsLawful`: an analysis with
  -- findings, of a VM whose recommendation has waited for more than 14 days for its owner, ends
  -- without a retry where its three writes succeed, and the recommendation is then stored as
  -- pending, without an owner, a token, a clock or a reminder, with the time of the analysis and
  -- the direction, size, savings, metrics and reason it found, and is otherwise what it was.
  pub update_recommendation-lapsed :
      (policy : PolicySpec) (vm : SizedVm) (a : Analysis F) (rec s1 s2 s3 : Recommendation F)
      (notified : Time) (w : P.World)
      → objects w rec.meta ≡ some rec
      → is_awaiting_approval rec.status.state ≡ true
      → rec.status.notified_at ≡ some notified
      → notified + expiry_age < P.now w
      → policy.auto_mode.enabled ≡ false
      → (P.update_status (lapsed P rec) w).0 ≡ ok s1
      → (P.update_rec (refreshed policy a rec) (lapsed_world P rec w)).0 ≡ ok s2
      → (P.update_status
          (asked_again policy a (P.timestamp w) rec)
          (refreshed_world policy a rec w)).0
        ≡ ok s3
      → ((update_recommendation Fl show P J r policy vm a rec w).0 ≡ done (requeue_after policy))
        × (objects (update_recommendation Fl show P J r policy vm a rec w).1 rec.meta
            ≡ some (asked_again policy a (P.timestamp w) rec))
  unfolding with_findings
  update_recommendation-lapsed policy vm a rec s1 s2 s3 notified w c waits n old off e1 e2 e3 =
      let (same1, at1) = L.update_status_ok (lapsed P rec) s1 rec w c e1 in
      let at1' = at1 ∙ ap some same1 in
      let (same2, at2) =
        L.update_rec_ok (refreshed policy a rec) s2 (lapsed P rec) (lapsed_world P rec w) at1' e2 in
      let (same3, at3) =
        L.update_status_ok (asked_again policy a (P.timestamp w) rec) s3 (refreshed policy a rec)
          (refreshed_world policy a rec w) (at2 ∙ ap some same2) e3 in
      let run : update_recommendation Fl show P J r policy vm a rec w ≡ (
        done (requeue_after policy),
        (P.update_status (asked_again policy a (P.timestamp w) rec)
            (refreshed_world policy a rec w)).1,
      ) =
        update_recommendation_checked policy vm a rec (lapsed P rec) w (lapsed_world P rec w)
          (check_approval-lapsed P r rec s1 notified w waits n old e1
            ∙ ap (λ x. (ok x, lapsed_world P rec w)) same1)
          refl
        ∙ store_findings_manual policy vm a (P.timestamp w) (lapsed P rec) s3 (lapsed_world P rec w)
            (e2 ∙ ap ok same2) e3 off in
      (ap (λ p. p.0) run, ap (λ p. objects p.1 rec.meta) run ∙ (at3 ∙ ap some same3))
