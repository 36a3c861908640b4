-- ===== src/Controller/Reminder.antt =====
-- The reminder of `checkApproval`: at most one for a request.
use ovro.Controller.Expiry.Revoked.{check_approval-dated, check_age-young}
use ovro.Controller.Recommend.{expiry_age}
use ovro.Controller.Lifecycle.Reconciling.{send_reminder-objects}
use ovro.Controller.Expiry.{lapsed, lapsed_world}
use ovro.Types.{pending, is_awaiting_approval, awaiting_approval, Time, Recommendation}
use ovro.Server.Lifecycle.Applying.{AreQuiet}
use ovro.Controller.Reconcile.{
  send_reminder, remind_owner, expire_approval, check_age, check_approval,
}
use ovro.Platform.Laws.{IsLawful}
use ovro.Controller.AutoApply.{Reconciler}
use ovro.Platform.{Platform}
use ovro.Prelude.{
  sym, ◌-◌, ltb, Option-cases, inl, arith, ◌∙◌, inr, ◌≢◌, ap, Bool-cases, ◌⊎◌, ok, some, ◌≡◌,
}

module _ {F : Type 0} (P : Platform F) (r : Reconciler P.World) where
  check_approval-reminded :
      (rec : Recommendation F) (sent : Time) (w : P.World)
      → rec.status.reminder_sent_at ≡ some sent
      → ((check_approval P r rec w).1 ≡ w) ⊎ ((check_approval P r rec w).1 ≡ lapsed_world P rec w)
  unfolding check_approval check_age expire_approval
  check_approval-reminded rec sent w s = elim (Bool-cases (is_awaiting_approval rec.status.state)) [
    | inr a ↦ inl (ground arith)
    | inl a ↦ elim (Option-cases rec.status.notified_at) [
      | inl n ↦ inl (ground arith)
      | inr (notified, n) ↦ elim (Bool-cases (ltb expiry_age (P.now w - notified))) [
        | inl f ↦ inr (ground arith)
        | inr f ↦ inl (ground arith)
      ]
    ]
  ]

  module _ (L : IsLawful P) (q : AreQuiet P L r.notifier) where
    open L use {objects}

    remind_owner-some :
        (rec checked : Recommendation F) (w : P.World)
        → objects w rec.meta ≡ some rec
        → (remind_owner P r rec w).0 ≡ ok checked
        → checked.status.reminder_sent_at ≡ some (P.timestamp (send_reminder P r rec w))
    unfolding remind_owner
    remind_owner-some rec checked w c e =
        let sent = send_reminder P r rec w in
        let reminded = record rec {
          status = record (rec.status) { reminder_sent_at = some (P.timestamp sent) };
        } in
        let (same, at) =
          L.update_status_ok reminded checked rec sent
            (ap (λ all. all rec.meta) (send_reminder-objects P L r q rec w) ∙ c) (ground arith) in
        ap (λ (x : Recommendation F). x.status.reminder_sent_at) same

    expire_approval-IsPending :
        (rec checked : Recommendation F) (w : P.World)
        → objects w rec.meta ≡ some rec
        → (expire_approval P r rec w).0 ≡ ok checked
        → checked.status.state ≡ pending
    unfolding expire_approval
    expire_approval-IsPending rec checked w c e =
        let (same, at) = L.update_status_ok (lapsed P rec) checked rec w c (ground arith) in
        ap (λ (x : Recommendation F). x.status.state) same

    check_age-some :
        (notified : Time) (rec checked : Recommendation F) (w : P.World)
        → objects w rec.meta ≡ some rec
        → (check_age P r notified rec w).0 ≡ ok checked
        → checked.status.state ≡ awaiting_approval
        → (check_age P r notified rec w).1 ≢ w
        → checked.status.reminder_sent_at ≡ some (P.timestamp (send_reminder P r rec w))
    unfolding check_age
    check_age-some notified rec checked w c e p acts =
        elim (Bool-cases (ltb expiry_age (P.now w - notified))) [
          | inl f ↦
              absurd (ground (arith, expire_approval-IsPending rec checked w c (ground arith)))
          | inr f ↦ elim (check_age-young P L r notified rec w f) [
            | inl g ↦ remind_owner-some rec checked w c (sym (ap (λ p. p.0) g) ∙ e)
            | inr g ↦ absurd (acts (ap (λ p. p.1) g))
          ]
        ]

    -- A check that changed the world and left the recommendation waiting has recorded its reminder.
    check_approval-some :
        (rec checked : Recommendation F) (w : P.World)
        → objects w rec.meta ≡ some rec
        → (check_approval P r rec w).0 ≡ ok checked
        → checked.status.state ≡ awaiting_approval
        → (check_approval P r rec w).1 ≢ w
        → checked.status.reminder_sent_at ≡ some (P.timestamp (send_reminder P r rec w))
    unfolding check_approval
    check_approval-some rec checked w c e p acts =
        elim (Bool-cases (is_awaiting_approval rec.status.state)) [
          | inr a ↦ absurd (acts (ground arith))
          | inl a ↦ elim (Option-cases rec.status.notified_at) [
            | inl n ↦ absurd (acts (ground arith))
            | inr (notified, n) ↦
                let same = check_approval-dated P L r notified rec w a n in
                check_age-some notified rec checked w c (sym (ap (λ p. p.0) same) ∙ e) p
                  (λ k. acts (ap (λ p. p.1) same ∙ k))
          ]
        ]

    -- On a platform that meets the assumptions of `IsLawful`, with forwarders that leave the
    -- recommendations alone: after a check that acted and left the recommendation waiting, a check
    -- of the recommendation as it was stored, in whatever world, sends nothing: it leaves the world
    -- as it is, or does nothing but write that the approval has lapsed.
    pub check_approval-once :
        (rec checked : Recommendation F) (w later : P.World)
        → objects w rec.meta ≡ some rec
        → (check_approval P r rec w).0 ≡ ok checked
        → checked.status.state ≡ awaiting_approval
        → (check_approval P r rec w).1 ≢ w
        → ((check_approval P r checked later).1 ≡ later)
          ⊎ ((check_approval P r checked later).1 ≡ lapsed_world P checked later)
    check_approval-once rec checked w later c e p acts =
        check_approval-reminded checked (P.timestamp (send_reminder P r rec w)) later
          (check_approval-some rec checked w c e p acts)
