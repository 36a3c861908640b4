-- ===== src/Server/Outcomes/Once.antt =====
-- A decision is taken once: after an approval that succeeded, the link decides nothing more.
use ovro.Server.Outcomes.{save_status_stored}
use ovro.Lifecycle.Writes.{get_rec-IsCurrent, Fetched-cases}
use ovro.Types.{is_awaiting_approval, RecommendationStatus, Time, Recommendation}
use ovro.Server.Decide.{
  OwnerRejectRequest, with_awaiting, handle_owner_reject, handle_owner_approve, approved_status,
}
use ovro.Server.{save_status, key, Response, ApplyRequest, choose_restart, Server}
use ovro.Platform.Laws.{Objects, IsLawful}
use ovro.Platform.{found, Platform}
use mathlib.Core.Option.{some-injective}
use ovro.Prelude.{
  true, subst, Option-cases, sym, Bool-cases, inl, none, inr, ◌∙◌, arith, false, ap, ◌≤◌, some, ◌≡◌,
  ◌<◌, Option, String, refl,
}

module _ {F : Type 0} (P : Platform F) (L : IsLawful P) where
  open L use {objects}

  -- A recommendation that does not wait is refused by everything that decides on one that does.
  with_awaiting_refuses :
      (namespace name : String) (v : P.World) (next : Recommendation F → Response F × P.World)
      (r : Recommendation F)
      → objects v (key namespace name) ≡ some r
      → is_awaiting_approval r.status.state ≡ false
      → ((with_awaiting P namespace name v next).1 ≡ v)
        × (400 ≤ (with_awaiting P namespace name v next).0.code)
  unfolding with_awaiting
  with_awaiting_refuses namespace name v next r stored no_wait =
      elim (Fetched-cases (P.get_rec (key namespace name) v)) [
        | inr (inl e) ↦ rw (e, with_awaiting) (refl, omega arith)
        | inr (inr (text, e)) ↦ rw (e, with_awaiting) (refl, omega arith)
        | inl (x, e) ↦
            let (held, meta) = L.get_rec_found (key namespace name) v x e in
            let same : r ≡ x = some-injective r x (sym stored ∙ held) in
            let no_wait' : is_awaiting_approval x.status.state ≡ false =
              ap (λ (y : Recommendation F). is_awaiting_approval y.status.state) (sym same)
              ∙ no_wait in
            rw (e, with_awaiting) (rw no_wait' (refl, omega arith))
      ]

  approved_status_decided :
      (rec : Recommendation F) (owner : String) (req : ApplyRequest) (now : Time)
      (u : RecommendationStatus)
      → approved_status P rec owner req now ≡ some u
      → is_awaiting_approval u.state ≡ false
  unfolding approved_status choose_restart
  approved_status_decided rec owner req now u e = ground arith

  -- One that waits is handed to what comes next.
  with_awaiting_run :
      (namespace name : String) (w : P.World) (next : Recommendation F → Response F × P.World)
      (rec : Recommendation F)
      → P.get_rec (key namespace name) w ≡ found rec
      → is_awaiting_approval rec.status.state ≡ true
      → with_awaiting P namespace name w next ≡ next rec
  unfolding with_awaiting
  with_awaiting_run namespace name w next rec e a = rw (e, with_awaiting) (rw a refl)

  -- An approval that is not refused ends in the update of the status.
  pub owner_approve_run :
      (owner namespace name : String) (req : ApplyRequest) (rec : Recommendation F)
      (u : RecommendationStatus) (w : P.World)
      → P.get_rec (key namespace name) w ≡ found rec
      → is_awaiting_approval rec.status.state ≡ true
      → approved_status P rec owner req (P.timestamp w) ≡ some u
      → handle_owner_approve P owner namespace name (some req) w
        ≡ save_status P (record rec { status = u }) w
  unfolding handle_owner_approve
  owner_approve_run owner namespace name req rec u w e a f =
      with_awaiting_run namespace name w _ rec e a ∙ rw f refl

  -- A successful approval leaves a recommendation that no longer waits.
  approved_stored :
      (owner namespace name : String) (body : Option ApplyRequest) (w : P.World)
      → (handle_owner_approve P owner namespace name body w).0.code < 300
      → (r : Recommendation F) × (objects
            (handle_owner_approve P owner namespace name body w).1
            (key namespace name)
          ≡ some r)
        × (is_awaiting_approval r.status.state ≡ false)
  unfolding handle_owner_approve with_awaiting
  approved_stored owner namespace name none w h = absurd (ground arith)
  approved_stored owner namespace name (some req) w h =
      elim (Fetched-cases (P.get_rec (key namespace name) w)) [
        | inr (inl e) ↦ absurd (ground arith)
        | inr (inr (text, e)) ↦ absurd (ground arith)
        | inl (rec, e) ↦ elim (Bool-cases (is_awaiting_approval rec.status.state)) [
          | inr a ↦ absurd (ground arith)
          | inl a ↦ elim (Option-cases (approved_status P rec owner req (P.timestamp w))) [
            | inl f ↦ absurd (ground arith)
            | inr (u, f) ↦
                let run = owner_approve_run owner namespace name req rec u w e a f in
                let meta = (L.get_rec_found (key namespace name) w rec e).1 in
                (
                  record rec { status = u },
                  ap (λ (x : Response F × P.World). objects x.1 (key namespace name)) run
                      ∙ (ap (objects (save_status P (record rec { status = u }) w).1) (sym meta)
                          ∙ save_status_stored P L rec u w (get_rec-IsCurrent P L _ w rec e)
                              (subst (λ (x : Response F × P.World). x.0.code < 300) run h)),
                  approved_status_decided rec owner req (P.timestamp w) u f,
                )
          ]
        ]
      ]

  approve_refused :
      (owner namespace name : String) (body : Option ApplyRequest) (v : P.World)
      (r : Recommendation F)
      → objects v (key namespace name) ≡ some r
      → is_awaiting_approval r.status.state ≡ false
      → ((handle_owner_approve P owner namespace name body v).1 ≡ v)
        × (400 ≤ (handle_owner_approve P owner namespace name body v).0.code)
  unfolding handle_owner_approve
  approve_refused owner namespace name none v r held n = (refl, omega arith)
  approve_refused owner namespace name (some req) v r held n =
      with_awaiting_refuses namespace name v _ r held n

  reject_refused :
      (s : Server P.World) (owner namespace name : String) (body : Option OwnerRejectRequest)
      (v : P.World) (r : Recommendation F)
      → objects v (key namespace name) ≡ some r
      → is_awaiting_approval r.status.state ≡ false
      → ((handle_owner_reject P s owner namespace name body v).1 ≡ v)
        × (400 ≤ (handle_owner_reject P s owner namespace name body v).0.code)
  unfolding handle_owner_reject
  reject_refused s owner namespace name none v r held n = (refl, omega arith)
  reject_refused s owner namespace name (some req) v r held n =
      with_awaiting_refuses namespace name v _ r held n

  -- On a platform that meets the assumptions: after an approval that was answered with a code
  -- below 300, in any world that still holds the same recommendations, a second approval and a
  -- rejection by an owner are refused and leave the world as it is, whatever they ask for.
  pub owner_approve_once :
      (s : Server P.World) (owner owner' namespace name : String) (body again : Option ApplyRequest)
      (reply : Option OwnerRejectRequest) (w v : P.World)
      → (handle_owner_approve P owner namespace name body w).0.code < 300
      → objects v ≡ objects (handle_owner_approve P owner namespace name body w).1
      → ((handle_owner_approve P owner' namespace name again v).1 ≡ v)
        × (400 ≤ (handle_owner_approve P owner' namespace name again v).0.code)
        × ((handle_owner_reject P s owner' namespace name reply v).1 ≡ v)
        × (400 ≤ (handle_owner_reject P s owner' namespace name reply v).0.code)
  owner_approve_once s owner owner' namespace name body again reply w v h same =
      let (r, stored, no_wait) = approved_stored owner namespace name body w h in
      let held : objects v (key namespace name) ≡ some r =
        ap (λ (o : Objects F). o (key namespace name)) same ∙ stored in
      let (a, b) = approve_refused owner' namespace name again v r held no_wait in
      let (c, d) = reject_refused s owner' namespace name reply v r held no_wait in (a, b, c, d)
