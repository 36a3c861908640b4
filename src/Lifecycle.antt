-- ===== src/Lifecycle.antt =====
-- The life of a recommendation as the controllers and the handlers of the API server together shape
-- it: the abstract state machine that the stored objects follow. The README's table of states and
-- its approval workflow describe it; the handlers are shown to follow it in `Server.Lifecycle` and
-- `Controller.Lifecycle`.
use ovro.Controller.Recommend.{is_kept}
use ovro.Prelude.{
  ℕ, ◌+◌, ◌<◌, ◌≤◌, suc, String, true, false, ◌≡◌, ◌≢◌, ◌||◌, Option, none, some, is_some,
}
use ovro.Types.{
  Time, ResourceSpec, NamespacedName, Recommendation, RecommendationStatus, pending,
  awaiting_approval, applied_pending_restart, applied, reverted, failed, empty_status, is_applied,
  is_applied_pending_restart,
}
use ovro.Platform.Laws.{Objects}
pub mod Invariant
pub mod Writes

-- The moves of a status at an instant, each with its stage: 0 for the check of an approval, 1 and 2
-- for a new object or a new analysis, 3 for what is decided or done about a recommendation.
pub data Transition (now : Time) (s : RecommendationStatus)
    : ℕ → RecommendationStatus → Type 0 where
  -- The controller: a new object, a new analysis, and the clock of an approval.
  start :
      (t : Time)
      → s ≡ empty_status
      → Transition now s 1 (record s { state = pending; last_calculated = some t })
  recalculate :
      (t : Time)
      → is_kept s.state ≡ false
      → Transition now s 2 (record s { last_calculated = some t })
  -- An approval lapses after 14 days, and is reminded of once, after 7.
  expire :
      (notified : Time)
      → s.state ≡ awaiting_approval
      → s.notified_at ≡ some notified
      → notified + 1209600000000000 < now
      → Transition now s 0 (record s {
        state = pending;
        owner = "";
        approval_token = "";
        notified_at = none;
        reminder_sent_at = none;
      })
  remind :
      (t notified : Time)
      → s.state ≡ awaiting_approval
      → s.notified_at ≡ some notified
      → notified + 604800000000000 < now
      → s.reminder_sent_at ≡ none
      → Transition now s 0 (record s { reminder_sent_at = some t })
  -- A pending recommendation goes to its owner, is applied, or fails.
  route :
      (owner token : String) (t : Time) (current : ResourceSpec)
      → s.state ≡ pending
      → owner ≢ ""
      → Transition now s 3 (record s {
        revert_config = some current;
        state = awaiting_approval;
        owner = owner;
        approval_token = token;
        notified_at = some t;
      })
  apply :
      (t : Time) (current : ResourceSpec)
      → s.state ≡ pending
      → Transition now s 3
          (record s { revert_config = some current; state = applied; applied_at = some t })
  apply_later :
      (scheduled at : Option Time) (current : ResourceSpec)
      → s.state ≡ pending
      → Transition now s 3 (record s {
        revert_config = some current;
        state = applied_pending_restart;
        scheduled_restart_at = scheduled;
        applied_at = at;
      })
  fail :
      (current : ResourceSpec) (text : String)
      → s.state ≡ pending
      → Transition now s 3
          (record s { revert_config = some current; state = failed; message = text })
  -- The owner, or an administrator, decides.
  approve :
      (owner : String) (t : Time)
      → s.state ≡ awaiting_approval
      → Transition now s 3 (record s {
        approved_by = owner;
        approved_at = some t;
        approval_token = "";
        state = applied;
        applied_at = some t;
      })
  approve_later :
      (owner : String) (t : Time) (scheduled at : Option Time)
      → s.state ≡ awaiting_approval
      → Transition now s 3 (record s {
        approved_by = owner;
        approved_at = some t;
        approval_token = "";
        state = applied_pending_restart;
        scheduled_restart_at = scheduled;
        applied_at = at;
      })
  decline :
      (who reason : String) (t : Time)
      → s.state ≡ awaiting_approval
      → Transition now s 3 (record s {
        state = pending;
        rejected_by = who;
        rejected_at = some t;
        rejection_reason = reason;
        owner = "";
        approval_token = "";
        notified_at = none;
      })
  -- The restart controller, and the way back.
  restarted :
      (t : Time)
      → s.state ≡ applied_pending_restart
      → Transition now s 3
          (record s { state = applied; applied_at = some t; scheduled_restart_at = none })
  restart_failed :
      (text : String)
      → s.state ≡ applied_pending_restart
      → Transition now s 3 (record s { state = failed; message = text })
  revert :
      is_applied s.state || is_applied_pending_restart s.state ≡ true
      → is_some s.revert_config ≡ true
      → Transition now s 3 (record s { state = reverted })

module _ {F : Type 0} where
  -- One write to what the server holds under a key, with its stage.
  pub data Step (now : Time)
      : ℕ → Option (Recommendation F) → Option (Recommendation F) → Type 0 where
    born : (r : Recommendation F) → r.status ≡ empty_status → Step now 0 none (some r)
    moved :
        (r : Recommendation F) (k : ℕ) (t : RecommendationStatus)
        → Transition now r.status k t
        → Step now k (some r) (some (record r { status = t }))
    -- The controller rewrites its findings, and nothing else of the object.
    respecified :
        (r r' : Recommendation F)
        → is_kept r.status.state ≡ false
        → r'.status ≡ r.status
        → r'.spec.virtual_machine_ref ≡ r.spec.virtual_machine_ref
        → r'.spec.current ≡ r.spec.current
        → Step now 1 (some r) (some r')
    gone : (r : Recommendation F) → is_kept r.status.state ≡ false → Step now 0 (some r) none

  -- Steps of rising stages, from one on and below another: at most one of each stage.
  pub data Life (now : Time)
      : ℕ → ℕ → Option (Recommendation F) → Option (Recommendation F) → Type 0 where
    stay : {m n : ℕ} {o : Option (Recommendation F)} → Life now m n o o
    next :
        {m k n : ℕ} {o p q : Option (Recommendation F)}
        → m ≤ k
        → k < n
        → Step now k o p
        → Life now (suc k) n p q
        → Life now m n o q

  -- Every object goes its way, at an instant and through the stages from one on and below another.
  abbrev pub Evolves : Time → ℕ → ℕ → Objects F → Objects F → Type 0
  Evolves now m n before after = (k : NamespacedName) → Life now m n (before k) (after k)
