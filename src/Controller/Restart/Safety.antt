-- ===== src/Controller/Restart/Safety.antt =====
-- When the restart controller acts at all.
use ovro.Lifecycle.Writes.{Fetched-cases}
use ovro.Controller.Restart.{restart_at, reconcile_restart}
use ovro.Types.{is_applied_pending_restart, Time, Recommendation, NamespacedName}
use ovro.Platform.{found, Platform}
use ovro.Prelude.{arith, ◌≤◌, ltb, some, Option-cases, true, Bool-cases, inl, inr, ◌≡◌, ◌≢◌, refl}

module _ {F : Type 0} (P : Platform F) where
  -- A recommendation that the restart controller acts on: it waits for its restart, and the time
  -- that it was scheduled for has come.
  pub record IsDue (request : NamespacedName) (w : P.World) (rec : Recommendation F)
      (scheduled : Time) : Type 0 where
    pub fetched : P.get_rec request w ≡ found rec
    pub waits : is_applied_pending_restart rec.status.state ≡ true
    pub set : rec.status.scheduled_restart_at ≡ some scheduled
    pub passed : scheduled ≤ P.now w

  -- The restart controller changes the world, by a restart or by a write, only for a recommendation
  -- that waits for its restart and whose scheduled time has come. One without a scheduled time is
  -- therefore never restarted.
  pub reconcile_restart-IsDue :
      (request : NamespacedName) (w : P.World)
      → (reconcile_restart P request w).1 ≢ w
      → (rec : Recommendation F) × (scheduled : Time) × IsDue request w rec scheduled
  unfolding reconcile_restart restart_at
  reconcile_restart-IsDue request w acts = elim (Fetched-cases (P.get_rec request w)) [
    | inr (inl e) ↦ absurd (acts (rw (e, reconcile_restart) refl))
    | inr (inr (text, e)) ↦ absurd (acts (rw (e, reconcile_restart) refl))
    | inl (rec, e) ↦ elim (Bool-cases (is_applied_pending_restart rec.status.state)) [
      | inr a ↦ absurd (acts (rw (e, reconcile_restart) (rw a refl)))
      | inl a ↦ elim (Option-cases rec.status.scheduled_restart_at) [
        | inl f ↦ absurd (acts (rw (e, reconcile_restart) (rw a (rw f refl))))
        | inr (t, f) ↦ elim (Bool-cases (ltb (P.now w) t)) [
          | inl g ↦ absurd (acts (rw (e, reconcile_restart) (rw a (rw f (rw g refl)))))
          | inr g ↦ (rec, t, record { fetched = e; waits = a; set = f; passed = ground arith })
        ]
      ]
    ]
  ]
