-- ===== src/Controller/Expiry/Revoked.antt =====
-- An approval that has lapsed, and the link that was sent for it.
use ovro.Controller.Lifecycle.Reconciling.{send_reminder-objects}
use ovro.Server.{max_age}
use ovro.Controller.Recommend.{reminder_age, expiry_age}
use ovro.Token.RoundTrip.{whole_seconds, validate_token_expired, IsLawfulJwt}
use ovro.Types.{pending, is_awaiting_approval, Time, Recommendation}
use ovro.Token.{validate_token, generate_token, TokenManager, Jwt}
use ovro.Controller.Reconcile.{send_reminder, remind_owner, check_approval, check_age}
use ovro.Server.Lifecycle.Applying.{AreQuiet}
use ovro.Controller.AutoApply.{Reconciler}
use ovro.Platform.Laws.{IsLawful}
use ovro.Platform.{Platform}
use ovro.Prelude.{
  Error, ◌<◌, ok-injective, is_some, not, inr, err, ◌&&◌, sym, ◌∙◌, ◌≤◌, Bool-cases, ◌⊎◌, inl,
  false, ap, ◌-◌, ok, arith, String, true, some, ◌≡◌, ltb, refl,
}

module _ {F : Type 0} (P : Platform F) (L : IsLawful P) (r : Reconciler P.World) where
  open L use {objects}

  remind_owner-IsWaiting :
      (rec checked : Recommendation F) (w : P.World)
      → objects (send_reminder P r rec w) rec.meta ≡ some rec
      → (remind_owner P r rec w).0 ≡ ok checked
      → checked.status.state ≡ rec.status.state
  unfolding remind_owner
  remind_owner-IsWaiting rec checked w c e =
      let sent = send_reminder P r rec w in
      let reminded = record rec {
        status = record (rec.status) { reminder_sent_at = some (P.timestamp sent) };
      } in
      let (same, at) = L.update_status_ok reminded checked rec sent c (ground arith) in
      ap (λ (x : Recommendation F). x.status.state) same

  pub check_age-young :
      (notified : Time) (rec : Recommendation F) (w : P.World)
      → ltb expiry_age (P.now w - notified) ≡ false
      → (check_age P r notified rec w ≡ remind_owner P r rec w)
        ⊎ (check_age P r notified rec w ≡ (ok rec, w))
  unfolding check_age
  check_age-young notified rec w young =
      elim (Bool-cases
        (ltb reminder_age (P.now w - notified) && not (is_some rec.status.reminder_sent_at))) [
          | inl e ↦ inl (rw (young, check_age) (rw e refl))
          | inr e ↦ inr (rw (young, check_age) (rw e refl))
        ]

  pub check_approval-dated :
      (notified : Time) (rec : Recommendation F) (w : P.World)
      → is_awaiting_approval rec.status.state ≡ true
      → rec.status.notified_at ≡ some notified
      → check_approval P r rec w ≡ check_age P r notified rec w
  unfolding check_approval
  check_approval-dated notified rec w a n = ground arith

  module _ (q : AreQuiet P L r.notifier) where
    check_age-IsWaiting :
        (notified : Time) (rec checked : Recommendation F) (w : P.World)
        → objects w rec.meta ≡ some rec
        → ltb expiry_age (P.now w - notified) ≡ false
        → (check_age P r notified rec w).0 ≡ ok checked
        → checked.status.state ≡ rec.status.state
    check_age-IsWaiting notified rec checked w c young e =
        elim (check_age-young notified rec w young) [
          | inl f ↦
              remind_owner-IsWaiting rec checked w
                (ap (λ all. all rec.meta) (send_reminder-objects P L r q rec w) ∙ c)
                (sym (ap (λ p. p.0) f) ∙ e)
          | inr f ↦
              ap (λ (x : Recommendation F). x.status.state)
                (sym (ok-injective rec checked (sym (ap (λ p. p.0) f) ∙ e)))
        ]

    -- On a platform that meets the assumptions of `IsLawful`, with forwarders that leave the
    -- recommendations alone, and under the documented behaviour of golang-jwt: where the check of a
    -- waiting approval makes the recommendation pending again, a token that was generated no later
    -- than the instant that the request was recorded with, of which the stored time keeps the
    -- whole seconds, is refused from that moment on.
    pub check_approval-IsRevoked :
        (J : Jwt) (LJ : IsLawfulJwt J) (tm : TokenManager) (rec checked : Recommendation F)
        (notified issued recorded later : Time) (namespace name owner token : String) (w : P.World)
        → objects w rec.meta ≡ some rec
        → is_awaiting_approval rec.status.state ≡ true
        → rec.status.notified_at ≡ some notified
        → generate_token J tm namespace name owner max_age issued ≡ ok token
        → issued ≤ recorded
        → whole_seconds recorded ≡ notified
        → (check_approval P r rec w).0 ≡ ok checked
        → checked.status.state ≡ pending
        → P.now w ≤ later
        → (e : Error) × (validate_token J tm token later ≡ err e)
    check_approval-IsRevoked J LJ tm rec checked notified issued recorded later namespace name owner
          token w c a n g i s e p l =
        elim (Bool-cases (ltb expiry_age (P.now w - notified))) [
          | inl f ↦
              let old : expiry_age < P.now w - notified = ground arith in
              validate_token_expired J LJ tm namespace name owner token max_age issued later g
                (omega (arith, old, i, s, l))
          | inr f ↦
              let same =
                check_age-IsWaiting notified rec checked w c f
                  (sym (ap (λ p. p.0) (check_approval-dated notified rec w a n)) ∙ e) in
              absurd (ground (arith, same))
        ]
