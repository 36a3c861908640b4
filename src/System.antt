-- ===== src/System.antt =====
-- The whole program at work on one cluster: the API server's handlers, the proxy before them, the two
-- controllers, and the rest of the world, in any order.
pub mod Started
use ovro.Proxy.Cluster.{in_cluster}
use ovro.Proxy.{handle_post_approve, Form, Backend}
use ovro.Proxy.Decisions.{handle_post_approve-Evolves}
use ovro.Controller.Restart.{reconcile_restart}
use ovro.Controller.Reconcile.{reconcile}
use ovro.Controller.Lifecycle.{reconcile_restart-Evolves}
use ovro.Controller.Lifecycle.Writing.{reconcile-Evolves}
use ovro.Types.{NamespacedName, annotation_exclude}
use ovro.Server.Decide.{
  handle_owner_reject, OwnerRejectRequest, handle_owner_approve, handle_reject, RejectRequest,
}
use ovro.Server.Lifecycle.{
  handle_owner_reject-Evolves, handle_owner_approve-Evolves, handle_reject-Evolves,
  handle_revert-Evolves,
}
use ovro.Server.Apply.{handle_revert, handle_apply}
use ovro.Types.Policy.{PolicySpec}
use ovro.Prelude.Int.{ℤ}
use ovro.Lifecycle.{Evolves}
use ovro.Lifecycle.Invariant.{Evolves-of_eq, Evolves-AllSound, AllSound}
use ovro.Server.Exclusion.{handle_remove_exclusion, handle_exclude, patch_exclusion}
use ovro.Server.PolicyApi.{policy_error, handle_update_policy}
use ovro.Controller.Recommend.{Querier}
use ovro.Server.Lifecycle.Applying.{handle_apply-Evolves, AreQuiet}
use ovro.Controller.AutoApply.{Reconciler}
use ovro.Platform.Laws.{IsLawful}
use ovro.Server.{UserInfo, key, ApplyRequest, Server}
use ovro.Token.{TokenManager, Jwt}
use ovro.Platform.{annotation, Platform}
use ovro.Floats.{Floats}
use ovro.Prelude.{ℕ, refl, none, some, arith, ◌≡◌, Option, String}

-- What the program is started with.
pub record Setup (Fl : Floats) (P : Platform Fl.F) : Type 0 where
  pub server : Server P.World
  pub reconciler : Reconciler P.World
  pub query : Querier P.World Fl.F
  pub show : ℤ → String

module _ (Fl : Floats) (P : Platform Fl.F) (J : Jwt) (L : IsLawful P) (c : Setup Fl P) where
  open L use {objects}

  -- One request, one reconciliation, or something outside that leaves the recommendations alone,
  -- such as time that passes, a VM that changes, or a fault that comes or goes.
  pub data Action (w : P.World) : P.World → Type 0 where
    applies :
        (namespace name : String) (body : Option ApplyRequest)
        → Action w (handle_apply P J c.server namespace name body w).1
    reverts : (namespace name : String) → Action w (handle_revert P namespace name w).1
    rejects :
        (user : UserInfo) (namespace name : String) (body : Option RejectRequest)
        → Action w (handle_reject P user namespace name body w).1
    owner_approves :
        (owner namespace name : String) (body : Option ApplyRequest)
        → Action w (handle_owner_approve P owner namespace name body w).1
    owner_rejects :
        (owner namespace name : String) (body : Option OwnerRejectRequest)
        → Action w (handle_owner_reject P c.server owner namespace name body w).1
    -- The owner, through the proxy.
    decides :
        (tm : TokenManager) (B : Backend Fl.F P.World) (body : Option Form)
        → Action w (handle_post_approve P J tm (in_cluster P c.server B) body w).1
    excludes : (namespace name : String) → Action w (handle_exclude P c.server namespace name w).1
    includes :
        (namespace name : String) → Action w (handle_remove_exclusion P c.server namespace name w).1
    sets_policy : (body : Option PolicySpec) → Action w (handle_update_policy P body w).1
    reconciles :
        (request : NamespacedName)
        → Action w (reconcile Fl c.show P J c.reconciler c.query request w).1
    restarts : (request : NamespacedName) → Action w (reconcile_restart P request w).1
    waits : (w' : P.World) → objects w' ≡ objects w → Action w w'

  -- The first stage of an action: only the recommendation controller checks approvals and analyses.
  abbrev pub first_stage : {w w' : P.World} → Action w w' → ℕ
  first_stage (reconciles request) = 0
  first_stage _ = 3

  -- Any number of actions.
  pub data Run (w : P.World) : P.World → Type 0 where
    begin : Run w w
    next : {u v : P.World} → Run w u → Action u v → Run w v

  patch_exclusion-objects :
      (value : Option String) (failure finished namespace name : String) (w : P.World)
      → objects (patch_exclusion P c.server value failure finished namespace name w).1 ≡ objects w
  unfolding patch_exclusion
  patch_exclusion-objects value failure finished namespace name w =
      ground
        (arith, L.patch_vm-objects (key namespace name) (annotation annotation_exclude value) w)

  update_policy-objects :
      (body : Option PolicySpec) (w : P.World)
      → objects (handle_update_policy P body w).1 ≡ objects w
  unfolding handle_update_policy policy_error
  update_policy-objects none w = refl
  update_policy-objects (some p) w = ground (arith, L.update_policy-objects p w)

  module _ (qs : AreQuiet P L c.server.notifier) (qr : AreQuiet P L c.reconciler.notifier) where
    -- On a platform that meets the assumptions of `IsLawful`, and with forwarders that leave the
    -- recommendations alone: each action of a history, whatever calls fail, takes every stored
    -- recommendation only along the moves of its lifecycle, of each stage at most one and in the
    -- order of the stages: from the check of an approval on for a reconciliation of the
    -- recommendation controller, and at most a single decision for every other action. An approval
    -- lapses only once its 14 days have passed.
    pub Action-Evolves :
        {w w' : P.World} (a : Action w w')
        → Evolves (P.now w) (first_stage a) 4 (objects w) (objects w')
    unfolding handle_exclude handle_remove_exclusion
    Action-Evolves {w} (applies ns name body) =
        handle_apply-Evolves P L J c.server ns name body w qs
    Action-Evolves {w} (reverts ns name) = handle_revert-Evolves P L ns name w
    Action-Evolves {w} (rejects user ns name body) = handle_reject-Evolves P L user ns name body w
    Action-Evolves {w} (owner_approves owner ns name body) =
        handle_owner_approve-Evolves P L owner ns name body w
    Action-Evolves {w} (owner_rejects owner ns name body) =
        handle_owner_reject-Evolves P L c.server owner ns name body w
    Action-Evolves {w} (decides tm B body) = handle_post_approve-Evolves P J tm L c.server B body w
    Action-Evolves {w} (excludes ns name) =
        Evolves-of_eq (patch_exclusion-objects (some "true") _ _ ns name w)
    Action-Evolves {w} (includes ns name) =
        Evolves-of_eq (patch_exclusion-objects none _ _ ns name w)
    Action-Evolves {w} (sets_policy body) = Evolves-of_eq (update_policy-objects body w)
    Action-Evolves {w} (reconciles request) =
        reconcile-Evolves Fl c.show P J L c.reconciler qr c.query request w
    Action-Evolves {w} (restarts request) = reconcile_restart-Evolves P L request w
    Action-Evolves (waits w' same) = Evolves-of_eq same

    -- On a platform that meets the assumptions of `IsLawful`, and with forwarders that leave the
    -- recommendations alone: any history of requests, reconciliations of both controllers and
    -- other events that leave the recommendations alone takes a store of sound recommendations
    -- to one of sound recommendations: who waits has an owner and a start of the clock, whoever
    -- is not asked yet has neither owner, token nor clock, and what was applied has a
    -- configuration to revert to.
    pub Run-AllSound : {w w' : P.World} → Run w w' → AllSound (objects w) → AllSound (objects w')
    Run-AllSound begin h = h
    Run-AllSound (next r a) h = Evolves-AllSound (Action-Evolves a) (Run-AllSound r h)
