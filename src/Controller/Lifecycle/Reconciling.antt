-- ===== src/Controller/Lifecycle/Reconciling.antt =====
-- The recommendation controller follows the lifecycle.
use ovro.Server.Lifecycle.{is_awaiting_approval_eq}
use ovro.Controller.Lifecycle.{later_status-Evolves}
use ovro.Lifecycle.Invariant.{Evolves-refl}
use ovro.Lifecycle.Writes.{send_filtered-objects, update_status-IsCurrent, IsCurrent}
use ovro.Notifier.{send_all_except}
use ovro.Controller.Recommend.{reminder_age, expiry_age, in_context}
use ovro.Lifecycle.{remind, expire, Transition, Evolves}
use ovro.Controller.Reconcile.{check_approval, send_reminder, check_age}
use ovro.Types.{is_awaiting_approval, awaiting_approval, Time, RecommendationStatus, Recommendation}
use ovro.Server.Lifecycle.Applying.{AreQuiet}
use ovro.Controller.AutoApply.{Reconciler}
use ovro.Platform.Laws.{IsLawful}
use ovro.Platform.{Platform}
use ovro.Prelude.{
  arith, ◌<◌, none, Option, is_some, not, ◌&&◌, ◌-◌, ltb, [], ◌∷◌, sym, Bool-cases, some,
  ok-injective, subst, inr, inl, err, Option-cases, ◌≡◌, ok, String, Result, refl,
}

module _ {F : Type 0} (P : Platform F) (L : IsLawful P) (r : Reconciler P.World)
    (q : AreQuiet P L r.notifier) where
  open L use {objects}

  -- What a write leaves behind for the next: an evolved store, in which a confirmed answer is stored.
  pub record Carries (w : P.World) (s : Result (Recommendation F) × P.World) : Type 0 where
    pub evolved : Evolves (P.now w) 0 1 (objects w) (objects s.1)
    pub current : (rec : Recommendation F) → s.0 ≡ ok rec → IsCurrent P L rec s.1

  in_context-Carries :
      (text : String) (w : P.World) (s : Result (Recommendation F) × P.World)
      → Carries w s
      → Carries w (in_context text s.0, s.1)
  in_context-Carries text w (ok a, w') h = record { evolved = h.evolved; current = h.current }
  in_context-Carries text w (err e, w') h = record { evolved = h.evolved; current = λ rec e. cc }

  -- A status that is written in a world with the same recommendations.
  write_status-Carries :
      (rec : Recommendation F) (u : RecommendationStatus) (w w' : P.World)
      → objects w' ≡ objects w
      → IsCurrent P L rec w
      → Transition (P.now w) rec.status 0 u
      → Carries w (P.update_status (record rec { status = u }) w')
  write_status-Carries rec u w w' same c t = record {
    evolved = later_status-Evolves P L rec u w w' same c t;
    current = λ saved e.
        (update_status-IsCurrent P L rec saved u w'
          (subst (λ o. o rec.meta ≡ some rec) (sym same) c) e).1;
  }

  pub send_reminder-objects :
      (rec : Recommendation F) (w : P.World) → objects (send_reminder P r rec w) ≡ objects w
  unfolding send_reminder send_all_except
  send_reminder-objects rec w = elim (Option-cases r.notifier) [
    | inl e ↦ rw (e, send_reminder)
    | inr (forwarders, e) ↦
        rw (e, send_reminder)
          (send_filtered-objects P L forwarders _ ("servicenow" ∷ []) w (subst (AreQuiet P L) e q))
  ]

  unchanged-Carries :
      (rec : Recommendation F) (w : P.World) → IsCurrent P L rec w → Carries w (ok rec, w)
  unchanged-Carries rec w c = record {
    evolved = Evolves-refl (objects w);
    current =
        λ rec' e. subst (λ (x : Recommendation F). IsCurrent P L x w) (ok-injective rec rec' e) c;
  }

  check_age-Carries :
      (notified : Time) (rec : Recommendation F) (w : P.World)
      → IsCurrent P L rec w
      → rec.status.state ≡ awaiting_approval
      → rec.status.notified_at ≡ some notified
      → Carries w (check_age P r notified rec w)
  unfolding check_age
  check_age-Carries notified rec w c a n = elim (Bool-cases (ltb expiry_age (P.now w - notified))) [
    | inl e ↦
        let age : expiry_age < P.now w - notified = ground arith in
        rw e (
          in_context-Carries _ w _
            (write_status-Carries rec _ w w refl c (expire notified a n (omega (arith, age)))))
    | inr e ↦
        elim (Bool-cases
          (ltb reminder_age (P.now w - notified) && not (is_some rec.status.reminder_sent_at))) [
            | inl f ↦
                let age : reminder_age < P.now w - notified = ground arith in
                let first : rec.status.reminder_sent_at ≡ none = ground arith in
                rw e (
                  rw f (
                    in_context-Carries _ w _ (
                      write_status-Carries rec _ w _ (send_reminder-objects rec w) c
                        (remind _ notified a n (omega (arith, age)) first))))
            | inr f ↦ rw e (rw f (unchanged-Carries rec w c))
          ]
  ]

  pub check_approval-Carries :
      (rec : Recommendation F) (w : P.World)
      → IsCurrent P L rec w
      → Carries w (check_approval P r rec w)
  unfolding check_approval
  check_approval-Carries rec w c = elim (Bool-cases (is_awaiting_approval rec.status.state)) [
    | inr a ↦ rw a (unchanged-Carries rec w c)
    | inl a ↦
        rw a (checked rec.status.notified_at refl (is_awaiting_approval_eq rec.status.state a))
  ]
    where
      checked :
          (o : Option Time)
          → rec.status.notified_at ≡ o
          → rec.status.state ≡ awaiting_approval
          → Carries w (elim o [ none ↦ (ok rec, w) | some notified ↦ check_age P r notified rec w ])
      checked none n a = unchanged-Carries rec w c
      checked (some t) n a = check_age-Carries t rec w c a n
