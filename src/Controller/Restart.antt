-- ===== src/Controller/Restart.antt =====
-- restart_controller.go: the reconciler that restarts a VM when its time has come.
pub mod Due
pub mod Safety
use ovro.Prelude.Int.{pos}
use ovro.Server.{key}
use ovro.Controller.{retry, done, Outcome}
use ovro.Types.{
  is_applied_pending_restart, failed, applied, RecommendationStatus, Time, Recommendation,
  NamespacedName,
}
use ovro.Platform.{found, unavailable, not_found, restart, Platform}
use ovro.Prelude.{◌-◌, ok, ltb, if◌then◌else◌, err, ◌<>◌, none, some, Option, Error, String}

-- The states of the world in which the restart of a VM is one call, `Applier.RestartVM`.
module _ {F : Type 0} (P : Platform F) where
  -- applier.go: `RestartVM`.
  unfoldable pub restart_vm : String → String → P.World → Option Error × P.World
  restart_vm name namespace w =
      let (e, w') = P.patch_vm (key namespace name) restart w in
      elim e [
        | none ↦ (none, w')
        | some text ↦ (some ("restarting VM " <> namespace <> "/" <> name <> ": " <> text), w')
      ]

  -- The status after the restart, and that after one that failed.
  abbrev pub restarted_status : Time → RecommendationStatus → RecommendationStatus
  restarted_status now s = record s {
    state = applied;
    applied_at = some now;
    scheduled_restart_at = none;
  }

  abbrev pub failed_restart_status : Error → RecommendationStatus → RecommendationStatus
  failed_restart_status e s = record s { state = failed; message = "restart failed: " <> e }

  -- The time has passed: restart, and store what came of it.
  unfoldable pub restart_now : Recommendation F → P.World → Outcome × P.World
  unfolding restart_vm
  restart_now rec w =
      let vm = rec.spec.virtual_machine_ref in
      let (e, w') = restart_vm vm.name vm.namespace w in
      elim e [
        | some text ↦ (
          retry ("restarting VM: " <> text),
          (P.update_status (record rec { status = failed_restart_status text rec.status }) w').1,
        )
        | none ↦
            let (r, w'') =
              P.update_status (record rec { status = restarted_status (P.timestamp w') rec.status })
                w' in
            elim r [
              | err text ↦ (retry ("updating status after restart: " <> text), w'')
              | ok saved ↦ (done (pos 0), w'')
            ]
      ]

  -- A recommendation that waits for its restart, by its scheduled time. `now` is read twice in the
  -- source, here once.
  unfoldable pub restart_at : Option Time → Recommendation F → P.World → Outcome × P.World
  unfolding restart_now
  restart_at none rec w = (done (pos 300000000000), w)
  restart_at (some scheduled) rec w =
      let now = P.now w in
      if ltb now scheduled then (done (pos (scheduled - now)), w) else restart_now rec w

  unfoldable pub reconcile_restart : NamespacedName → P.World → Outcome × P.World
  unfolding restart_at
  reconcile_restart request w = elim (P.get_rec request w) [
    | not_found ↦ (done (pos 0), w)
    | unavailable e ↦ (retry ("fetching recommendation: " <> e), w)
    | found rec ↦
        if is_applied_pending_restart rec.status.state
        then restart_at rec.status.scheduled_restart_at rec w
        else (done (pos 0), w)
  ]
