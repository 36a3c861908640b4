-- ===== src/Controller/Lifecycle/Writing.antt =====
-- The writes of a new and of a known recommendation, and the whole of `Reconcile`.
use ovro.Controller.Lifecycle.Reconciling.{check_approval-Carries}
use ovro.Server.Lifecycle.{is_pending_eq}
use ovro.Server.Overview.{is_excluded}
use ovro.Controller.Lifecycle.{auto_apply-Evolves}
use ovro.Lifecycle.Invariant.{Evolves-within, Evolves-trans, Writes-Evolves, Evolves-refl}
use ovro.Lifecycle.Writes.{
  update_status-IsCurrent, update_status-Evolves, get_rec-IsCurrent, IsCurrent, Fetched-cases,
}
use ovro.Server.{key}
use ovro.Controller.{done, Outcome, get_vm, SizedVm}
use ovro.Types.{
  pending, annotation_exclude, is_pending, empty_status, Time, Recommendation, NamespacedName,
}
use ovro.Types.Policy.{PolicySpec}
use ovro.Lifecycle.{start, recalculate, respecified, gone, born, Step, Evolves}
use ovro.Controller.Recommend.{
  no_action, analyse, analysed, no_metrics, is_kept, Found, Analysis, with_findings,
  new_recommendation, Querier, delete_existing,
}
use ovro.Controller.Reconcile.{
  check_approval, requeue_after, update_recommendation, store_findings, record_analysis,
  reconcile_with, reconcile_vm, reconcile, finish, create_recommendation,
}
use ovro.Server.Lifecycle.Applying.{AreQuiet}
use ovro.Controller.AutoApply.{Reconciler}
use ovro.Platform.Laws.{IsLawful}
use ovro.Token.{Jwt}
use ovro.Platform.{VirtualMachine, Platform}
use ovro.Prelude.Int.{ℤ}
use ovro.Floats.{Floats}
use ovro.Prelude.{
  ◌∙◌, arith, ap, sym, ◌&&◌, subst, some, false, inl, Bool-cases, none, inr, ◌≡◌, ◌<>◌,
  Result-cases, String, refl,
}

module _ (Fl : Floats) (show : ℤ → String) (P : Platform Fl.F) (J : Jwt) (L : IsLawful P)
    (r : Reconciler P.World) (q : AreQuiet P L r.notifier) where
  open L use {objects}
  open Fl use {F}

  finish-Evolves :
      {now : Time} (policy : PolicySpec) (rec : Recommendation F) (vm : VirtualMachine)
      (w : P.World)
      → IsCurrent P L rec w
      → Evolves now 3 4 (objects w) (objects (finish Fl show P J r policy rec vm w).1)
  unfolding finish
  finish-Evolves policy rec vm w c =
      elim (Bool-cases (policy.auto_mode.enabled && is_pending rec.status.state)) [
        | inr e ↦ rw e (Evolves-refl (objects w))
        | inl e ↦ rw e (
            auto_apply-Evolves P L r q J rec vm w c (is_pending_eq rec.status.state (ground arith)))
      ]

  create_recommendation-Evolves :
      {now : Time} (policy : PolicySpec) (vm : SizedVm) (new : Recommendation F) (w : P.World)
      → objects w new.meta ≡ none
      → Evolves now 0 4
          (objects w)
          (objects (create_recommendation Fl show P J r policy vm new w).1)
  unfolding create_recommendation
  create_recommendation-Evolves {now} policy vm new w missing =
      let created =
        Writes-Evolves new.meta (some (record new { status = empty_status }))
          (L.create_rec-Writes new w missing)
          (subst (λ o. Step now 0 o (some (record new { status = empty_status }))) (sym missing)
            (born (record new { status = empty_status }) refl)) in
      elim (Result-cases (P.create_rec new w).0) [
        | inr (e, f) ↦
            rw (f, create_recommendation)
              (Evolves-within (omega arith) (omega arith) (omega arith) created)
        | inl (rec, f) ↦
            let (same, stored) = L.create_rec_ok new rec w f in
            let w' = (P.create_rec new w).1 in
            let first = record (rec.status) {
              state = pending;
              last_calculated = some (P.timestamp w);
            } in
            let c : IsCurrent P L rec w' =
              ap (objects w') (ap (λ (x : Recommendation F). x.meta) same) ∙ stored in
            let step =
              update_status-Evolves P L rec first w' c
                (start (P.timestamp w) (ap (λ (x : Recommendation F). x.status) same)) in
            elim (Result-cases (P.update_status (record rec { status = first }) w').0) [
              | inr (e, g) ↦
                  rw (f, create_recommendation)
                    (rw g (
                      Evolves-within (omega arith) (omega arith) (omega arith)
                        (Evolves-trans (omega arith) (omega arith) created step)))
              | inl (saved, g) ↦
                  rw (f, create_recommendation)
                    (rw g (
                      Evolves-trans (omega arith) (omega arith) created (
                        Evolves-trans (omega arith) (omega arith) step (
                          Evolves-within (omega arith) (omega arith) (omega arith) (
                            finish-Evolves policy saved vm.vm _
                              (update_status-IsCurrent P L rec saved first w' c g).1)))))
            ]
      ]

  store_findings-Evolves :
      {clock : Time} (policy : PolicySpec) (vm : SizedVm) (a : Analysis F) (now : Time)
      (rec : Recommendation F) (w : P.World)
      → IsCurrent P L rec w
      → is_kept rec.status.state ≡ false
      → Evolves clock 1 4
          (objects w)
          (objects (store_findings Fl show P J r policy vm a now rec w).1)
  unfolding store_findings with_findings
  store_findings-Evolves {clock} policy vm a now rec w c free =
      let new = record rec { spec = with_findings Fl show P policy a rec.spec } in
      let updated = Writes-Evolves rec.meta (some new) (L.update_rec-Writes new rec w c) (
        subst (λ o. Step clock 1 o (some new)) (sym c) (respecified rec new free refl refl refl)) in
      elim (Result-cases (P.update_rec new w).0) [
        | inr (e, f) ↦
            rw (f, store_findings)
              (Evolves-within (omega arith) (omega arith) (omega arith) updated)
        | inl (rec', f) ↦
            let (same, stored) = L.update_rec_ok new rec' rec w c f in
            let w' = (P.update_rec new w).1 in
            let u = record (rec'.status) { last_calculated = some now } in
            let c' : IsCurrent P L rec' w' =
              ap (objects w') (ap (λ (x : Recommendation F). x.meta) same) ∙ stored in
            let free' : is_kept rec'.status.state ≡ false =
              ap (λ (x : Recommendation F). is_kept x.status.state) same ∙ free in
            let step = update_status-Evolves P L rec' u w' c' (recalculate now free') in
            elim (Result-cases (P.update_status (record rec' { status = u }) w').0) [
              | inr (e, g) ↦
                  rw (f, store_findings)
                    (rw g (
                      Evolves-within (omega arith) (omega arith) (omega arith)
                        (Evolves-trans (omega arith) (omega arith) updated step)))
              | inl (saved, g) ↦
                  rw (f, store_findings)
                    (rw g (
                      Evolves-trans (omega arith) (omega arith) updated (
                        Evolves-trans (omega arith) (omega arith) step (
                          finish-Evolves policy saved vm.vm _
                            (update_status-IsCurrent P L rec' saved u w' c' g).1))))
            ]
      ]

  update_recommendation-Evolves :
      (policy : PolicySpec) (vm : SizedVm) (a : Analysis F) (rec : Recommendation F) (w : P.World)
      → IsCurrent P L rec w
      → Evolves
          (P.now w)
          0
          4
          (objects w)
          (objects (update_recommendation Fl show P J r policy vm a rec w).1)
  unfolding update_recommendation
  update_recommendation-Evolves policy vm a rec w c =
      let checked = check_approval-Carries P L r q rec w c in
      elim (Result-cases (check_approval P r rec w).0) [
        | inr (e, f) ↦
            rw (f, update_recommendation)
              (Evolves-within (omega arith) (omega arith) (omega arith) checked.evolved)
        | inl (rec', f) ↦ elim (Bool-cases (is_kept rec'.status.state)) [
          | inl k ↦
              rw (f, update_recommendation)
                (rw k (Evolves-within (omega arith) (omega arith) (omega arith) checked.evolved))
          | inr k ↦
              rw (f, update_recommendation)
                (rw k (
                  Evolves-trans (omega arith) (omega arith) checked.evolved (
                    store_findings-Evolves policy vm a (P.timestamp w) rec' _
                      (checked.current rec' f) k)))
        ]
      ]

  record_analysis-Evolves :
      (policy : PolicySpec) (vm : SizedVm) (a : Analysis F) (name namespace : String) (w : P.World)
      → Evolves
          (P.now w)
          0
          4
          (objects w)
          (objects (record_analysis Fl show P J r policy vm a name namespace w).1)
  unfolding record_analysis new_recommendation
  record_analysis-Evolves policy vm a name namespace w =
      let k = key namespace ("vm-" <> name) in
      elim (Fetched-cases (P.get_rec k w)) [
        | inr (inl e) ↦
            rw (e, record_analysis)
              (create_recommendation-Evolves policy vm _ w (L.get_rec_missing k w e))
        | inr (inr (text, e)) ↦ rw (e, record_analysis) (Evolves-refl (objects w))
        | inl (rec, e) ↦
            rw (e, record_analysis)
              (update_recommendation-Evolves policy vm a rec w (get_rec-IsCurrent P L k w rec e))
      ]

  delete_existing-Evolves :
      (name namespace : String) (w : P.World)
      → Evolves (P.now w) 0 4 (objects w) (objects (delete_existing Fl show P name namespace w))
  unfolding delete_existing
  delete_existing-Evolves name namespace w =
      let k = key namespace ("vm-" <> name) in
      elim (Fetched-cases (P.get_rec k w)) [
        | inr (inl e) ↦ rw (e, delete_existing) (Evolves-refl (objects w))
        | inr (inr (text, e)) ↦ rw (e, delete_existing) (Evolves-refl (objects w))
        | inl (rec, e) ↦ elim (Bool-cases (is_kept rec.status.state)) [
          | inl f ↦ rw (e, delete_existing) (rw f (Evolves-refl (objects w)))
          | inr f ↦
              rw (e, delete_existing)
                (rw f (
                  Evolves-within (omega arith) (omega arith) (omega arith) (
                    Writes-Evolves rec.meta none (L.delete_rec-Writes rec w) (
                      subst (λ o. Step (P.now w) 0 o none) (sym (get_rec-IsCurrent P L k w rec e))
                        (gone rec f)))))
        ]
      ]

  reconcile_vm-Evolves :
      (query : Querier P.World F) (policy : PolicySpec) (vm : SizedVm) (name namespace : String)
      (w : P.World)
      → Evolves
          (P.now w)
          0
          4
          (objects w)
          (objects (reconcile_vm Fl show P J r query policy vm name namespace w).1)
  unfolding reconcile_vm
  reconcile_vm-Evolves query policy vm name namespace w =
      elim (Bool-cases (is_excluded (vm.vm.annotations annotation_exclude))) [
        | inl e ↦ rw e (delete_existing-Evolves name namespace w)
        | inr e ↦
            rw e (by_analysis (analyse Fl show P r.demo_mode query policy vm name namespace w))
      ]
    where
      by_analysis :
          (f : Found F)
          → Evolves (P.now w) 0 4 (objects w) (
              objects
                (elim f as (λ _. Outcome × P.World) [
                  | no_metrics ↦ (done (requeue_after policy), w)
                  | no_action ↦
                      (done (requeue_after policy), delete_existing Fl show P name namespace w)
                  | analysed a ↦ record_analysis Fl show P J r policy vm a name namespace w
                ]).1)
      by_analysis no_metrics = Evolves-refl (objects w)
      by_analysis no_action = delete_existing-Evolves name namespace w
      by_analysis (analysed a) = record_analysis-Evolves policy vm a name namespace w

  reconcile_with-Evolves :
      (query : Querier P.World F) (policy : PolicySpec) (name namespace : String) (w : P.World)
      → Evolves
          (P.now w)
          0
          4
          (objects w)
          (objects (reconcile_with Fl show P J r query policy name namespace w).1)
  unfolding reconcile_with
  reconcile_with-Evolves query policy name namespace w =
      elim (Result-cases (get_vm P name namespace w)) [
        | inr (e, f) ↦ rw (f, reconcile_with) (Evolves-refl (objects w))
        | inl (vm, f) ↦
            rw (f, reconcile_with) (reconcile_vm-Evolves query policy vm name namespace w)
      ]

  -- On a platform that meets the assumptions of `IsLawful`, and with forwarders that leave the
  -- recommendations alone: a reconciliation of the recommendation controller, on every branch,
  -- takes every stored recommendation through at most one move of each stage, in their order: the
  -- check of its approval, which lapses only after 14 days and is reminded of once and after 7, or
  -- a creation or a deletion; new findings; a new calculation; and one decision. What waits for its
  -- owner is not deleted, and is asked for again only where it has lapsed; what was applied or
  -- waits for its restart is neither deleted nor analysed anew.
  pub reconcile-Evolves :
      (query : Querier P.World F) (request : NamespacedName) (w : P.World)
      → Evolves (P.now w) 0 4 (objects w) (objects (reconcile Fl show P J r query request w).1)
  unfolding reconcile
  reconcile-Evolves query request w = elim (Fetched-cases (P.get_policy w)) [
    | inr (inl e) ↦
        rw (e, reconcile) (reconcile_with-Evolves query _ request.name request.namespace w)
    | inr (inr (text, e)) ↦ rw (e, reconcile) (Evolves-refl (objects w))
    | inl (policy, e) ↦
        rw (e, reconcile) (reconcile_with-Evolves query policy request.name request.namespace w)
  ]
