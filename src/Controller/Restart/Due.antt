-- ===== src/Controller/Restart/Due.antt =====
-- What the restart controller does once a restart is due.
use ovro.Prelude.Int.{pos}
use ovro.Controller.{done}
use ovro.Server.{key}
use ovro.Types.{applied, is_applied_pending_restart, Time, NamespacedName, Recommendation}
use ovro.Platform.Laws.{IsLawful}
use ovro.Platform.{found, restart, Platform}
use ovro.Prelude.{true, ◌≤◌, Option, sym, arith, ◌∙◌, ap, some, ok, none, ◌≡◌, refl}
use ovro.Controller.Restart.{restart_vm, restart_now, restart_at, reconcile_restart}
use ovro.Controller.Restart.Safety.{IsDue}

module _ {F : Type 0} (P : Platform F) (L : IsLawful P) where
  open L use {objects}

  abbrev pub vm_key : Recommendation F → NamespacedName
  vm_key rec = key rec.spec.virtual_machine_ref.namespace rec.spec.virtual_machine_ref.name

  -- The world after the restart itself.
  abbrev pub restarted_world : Recommendation F → P.World → P.World
  restarted_world rec w = (P.patch_vm (vm_key rec) restart w).1

  -- The recommendation as it is stored after the restart.
  abbrev pub after_restart : Recommendation F → P.World → Recommendation F
  after_restart rec w = record rec {
    status = record (rec.status) {
      state = applied;
      applied_at = some (P.timestamp (restarted_world rec w));
      scheduled_restart_at = none;
    };
  }

  restart_now-fine :
      (w : P.World) (rec saved : Recommendation F)
      → (P.patch_vm (vm_key rec) restart w).0 ≡ none
      → (P.update_status (after_restart rec w) (restarted_world rec w)).0 ≡ ok saved
      → restart_now P rec w
        ≡ (done (pos 0), (P.update_status (after_restart rec w) (restarted_world rec w)).1)
  unfolding restart_now restart_vm
  restart_now-fine w rec saved r s = ground arith

  restart_at-passed :
      (time : Option Time) (scheduled : Time) (rec : Recommendation F) (w : P.World)
      → time ≡ some scheduled
      → scheduled ≤ P.now w
      → restart_at P time rec w ≡ restart_now P rec w
  unfolding restart_at
  restart_at-passed time scheduled rec w e p = ground arith

  reconcile_restart-waits :
      (request : NamespacedName) (w : P.World) (rec : Recommendation F)
      → P.get_rec request w ≡ found rec
      → is_applied_pending_restart rec.status.state ≡ true
      → reconcile_restart P request w ≡ restart_at P rec.status.scheduled_restart_at rec w
  unfolding reconcile_restart
  reconcile_restart-waits request w rec e a = rw (e, reconcile_restart) (rw a refl)

  reconcile_restart-due :
      (request : NamespacedName) (w : P.World) (rec saved : Recommendation F) (scheduled : Time)
      → IsDue P request w rec scheduled
      → (P.patch_vm (vm_key rec) restart w).0 ≡ none
      → (P.update_status (after_restart rec w) (restarted_world rec w)).0 ≡ ok saved
      → reconcile_restart P request w
        ≡ (done (pos 0), (P.update_status (after_restart rec w) (restarted_world rec w)).1)
  reconcile_restart-due request w rec saved scheduled due r s =
      reconcile_restart-waits request w rec due.fetched due.waits
      ∙ (restart_at-passed rec.status.scheduled_restart_at scheduled rec w due.set due.passed
          ∙ restart_now-fine w rec saved r s)

  -- On a platform that meets the assumptions of `IsLawful`: one reconciliation of a recommendation
  -- whose restart is due, in which the VM takes the restart and the status can be written, restarts
  -- the VM, and ends without a retry and with the stored recommendation applied, at the time of the
  -- restart, and without a scheduled time.
  pub reconcile_restart-IsApplied :
      (request : NamespacedName) (w : P.World) (rec saved : Recommendation F) (scheduled : Time)
      → IsDue P request w rec scheduled
      → (P.patch_vm
          (key rec.spec.virtual_machine_ref.namespace rec.spec.virtual_machine_ref.name)
          restart
          w).0
        ≡ none
      → (P.update_status (after_restart rec w) (restarted_world rec w)).0 ≡ ok saved
      → ((reconcile_restart P request w).0 ≡ done (pos 0))
        × (objects (reconcile_restart P request w).1 request ≡ some (after_restart rec w))
  reconcile_restart-IsApplied request w rec saved scheduled due r s =
      let (at, meta) = L.get_rec_found request w rec due.fetched in
      let stored =
        ap (λ all. all rec.meta) (L.patch_vm-objects (vm_key rec) restart w)
        ∙ (ap (objects w) meta ∙ at) in
      let (same, kept) =
        L.update_status_ok (after_restart rec w) saved rec (restarted_world rec w) stored s in
      let run = reconcile_restart-due request w rec saved scheduled due r s in
      (
        ap (λ p. p.0) run,
        ap (λ p. objects p.1 request) run
            ∙ (ap (objects (P.update_status (after_restart rec w) (restarted_world rec w)).1)
                  (sym meta)
                ∙ (kept ∙ ap some same)),
      )
