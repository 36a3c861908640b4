-- ===== src/Tests/Histories.antt =====
-- Whole histories of the cluster.
use ovro.Controller.Lifecycle.Writing.{reconcile-Evolves}
use ovro.Controller.Reconcile.{reconcile}
use ovro.Server.Apply.{handle_revert, handle_apply}
use ovro.Prelude.Int.{ℤ}
use ovro.Tests.{
  web, no_metrics_query, at_schedule, show, reconciler, plain_jwt, direct_server, with_pending,
  before_all, coarse,
}
use ovro.System.{next, reverts, applies, begin, Action-Evolves, Run-AllSound, Setup, Run}
use ovro.Lifecycle.{Evolves}
use ovro.Platform.Memory.{memory, memory-IsLawful, Cluster}
use ovro.Lifecycle.Invariant.{AllSound}
use ovro.Prelude.{some, arith, refl}

abbrev setup : Setup coarse memory
setup = record {
  server = direct_server;
  reconciler = reconciler;
  query = no_metrics_query;
  show = show;
}

abbrev applied_world : Cluster ℤ
applied_world =
    (handle_apply memory plain_jwt direct_server "shop" "web" (some at_schedule) with_pending).1

abbrev reverted_world : Cluster ℤ
reverted_world = (handle_revert memory "shop" "web" applied_world).1

-- The pending recommendation is applied for a later restart, and reverted.
abbrev history : Run coarse memory plain_jwt memory-IsLawful setup with_pending reverted_world
history = next (next begin (applies "shop" "web" (some at_schedule))) (reverts "shop" "web")

pub with_pending-AllSound : AllSound (memory-IsLawful.objects with_pending)
unfolding memory-IsLawful
with_pending-AllSound k = ground arith

Action-Evolves_example :
    Evolves
      (memory.now with_pending)
      3
      4
      (memory-IsLawful.objects with_pending)
      (memory-IsLawful.objects applied_world)
unfolding memory-IsLawful
Action-Evolves_example =
    Action-Evolves coarse memory plain_jwt memory-IsLawful setup (λ n w. refl, tt) tt
      (applies "shop" "web" (some at_schedule))

Run-AllSound_example : AllSound (memory-IsLawful.objects reverted_world)
unfolding memory-IsLawful
Run-AllSound_example =
    Run-AllSound coarse memory plain_jwt memory-IsLawful setup (λ n w. refl, tt) tt history
      with_pending-AllSound

reconcile-Evolves_example :
    Evolves (memory.now before_all) 0 4 (memory-IsLawful.objects before_all) (
      memory-IsLawful.objects
        (reconcile coarse show memory plain_jwt reconciler no_metrics_query web before_all).1)
unfolding memory-IsLawful
reconcile-Evolves_example =
    reconcile-Evolves coarse show memory plain_jwt memory-IsLawful reconciler tt no_metrics_query
      web before_all
