-- ===== src/Controller/Excluded.antt =====
-- What a reconciliation does for a VM that is excluded.
use ovro.Server.Overview.{is_excluded}
use ovro.Server.{key}
use ovro.Types.Policy.{default_policy_spec, PolicySpec}
use ovro.Controller.{get_vm}
use ovro.Controller.Reconcile.{reconcile_with, reconcile_vm, reconcile}
use ovro.Controller.Recommend.{is_kept, rec_key, Querier, delete_existing}
use ovro.Types.{annotation_exclude, Recommendation, NamespacedName}
use ovro.Controller.AutoApply.{Reconciler}
use ovro.Platform.Laws.{IsLawful}
use ovro.Token.{Jwt}
use ovro.Platform.{found, VirtualMachine, Platform}
use ovro.Prelude.Int.{ℤ}
use ovro.Floats.{Floats}
use ovro.Lifecycle.Writes.{Fetched-cases}
use ovro.Prelude.{
  sym, subst, ap, ◌∙◌, true, false, some, Bool-cases, none, inl, ◌⊎◌, inr, ◌≡◌, String, refl,
}

module _ (Fl : Floats) (show : ℤ → String) (P : Platform Fl.F) (J : Jwt) (L : IsLawful P)
    (r : Reconciler P.World) where
  open L use {objects}
  open Fl use {F}

  -- What is held under a key stays, or it was the VM's own recommendation, neither waiting for its
  -- owner nor applied or waiting for its restart, and is gone.
  abbrev pub IsSpared : String → String → P.World → P.World → NamespacedName → Type 0
  IsSpared name namespace before after j =
      (objects after j ≡ objects before j)
      ⊎ ((j ≡ rec_key Fl show P name namespace)
          × (objects after j ≡ none)
          × ((rec : Recommendation F) × (objects before j ≡ some rec)
              × (is_kept rec.status.state ≡ false)))

  delete_existing-IsSpared :
      (name namespace : String) (w : P.World) (j : NamespacedName)
      → IsSpared name namespace w (delete_existing Fl show P name namespace w) j
  unfolding delete_existing
  delete_existing-IsSpared name namespace w j =
      let k = rec_key Fl show P name namespace in
      elim (Fetched-cases (P.get_rec k w)) [
        | inr (inl e) ↦ inl (rw (e, delete_existing) refl)
        | inr (inr (text, e)) ↦ inl (rw (e, delete_existing) refl)
        | inl (rec, e) ↦ elim (Bool-cases (is_kept rec.status.state)) [
          | inl f ↦ inl (rw (e, delete_existing) (rw f refl))
          | inr f ↦
              let (at, meta) = L.get_rec_found k w rec e in
              elim (L.delete_rec-Writes rec w j) [
                | inl same ↦ inl (rw (e, delete_existing) (rw f same))
                | inr (own, gone) ↦
                    let here : j ≡ k = own ∙ meta in
                    inr (
                      here,
                      rw (e, delete_existing) (rw f gone),
                      (rec, ap (objects w) here ∙ at, f),
                    )
              ]
        ]
      ]

  reconcile_with-excluded :
      (query : Querier P.World F) (policy : PolicySpec) (name namespace : String)
      (vm : VirtualMachine) (w : P.World)
      → P.get_vm (key namespace name) w ≡ found vm
      → is_excluded (vm.annotations annotation_exclude) ≡ true
      → (reconcile_with Fl show P J r query policy name namespace w).1
        ≡ delete_existing Fl show P name namespace w
  unfolding reconcile_with get_vm reconcile_vm
  reconcile_with-excluded query policy name namespace vm w f e =
      rw (f, reconcile_with, get_vm) (rw e refl)

  -- On a platform that meets the assumptions of `IsLawful`, a reconciliation of a VM that is
  -- excluded leaves every recommendation as it is, but for the VM's own one where that neither
  -- waits for its owner nor is applied or waits for its restart: this one may be gone. So it neither analyses nor applies anything, whatever the policy,
  -- the metrics and the reconciler are.
  pub reconcile-IsSpared :
      (query : Querier P.World F) (request : NamespacedName) (vm : VirtualMachine) (w : P.World)
      (j : NamespacedName)
      → P.get_vm (key request.namespace request.name) w ≡ found vm
      → is_excluded (vm.annotations annotation_exclude) ≡ true
      → IsSpared request.name request.namespace w (reconcile Fl show P J r query request w).1 j
  unfolding reconcile
  reconcile-IsSpared query request vm w j f e =
      let name = request.name in
      let namespace = request.namespace in
      let spared = delete_existing-IsSpared name namespace w j in
      elim (Fetched-cases (P.get_policy w)) [
        | inr (inr (text, p)) ↦ inl (rw (p, reconcile) refl)
        | inr (inl p) ↦
            rw (p, reconcile)
              (subst (λ v. IsSpared name namespace w v j)
                (sym (reconcile_with-excluded query default_policy_spec name namespace vm w f e))
                spared)
        | inl (policy, p) ↦
            rw (p, reconcile)
              (subst (λ v. IsSpared name namespace w v j)
                (sym (reconcile_with-excluded query policy name namespace vm w f e)) spared)
      ]
