-- ===== src/Lifecycle/Writes.antt =====
-- What one call of the platform does to the store, as steps of the lifecycle.
use ovro.Prelude.{
  suc, ℕ, ◌∙◌, String, Error, ◌≡◌, ◌⊎◌, inl, inr, refl, sym, subst, ap, some, List, [], ◌∷◌, ok,
  arith, All,
}
use ovro.Types.{Time, NamespacedName, Recommendation, RecommendationStatus}
use ovro.Platform.{Fetched, found, not_found, unavailable, Platform}
use ovro.Platform.Laws.{IsLawful}
use ovro.Notifier.{Notification, Forwarder, send_filtered}
use ovro.Lifecycle.{Transition, Step, Evolves, moved}
use ovro.Lifecycle.Invariant.{Writes-Evolves}
use ovro.Server.{save_status}

pub Fetched-cases {ℓ} :
    {A : Type ℓ} (f : Fetched A)
    → ((a : A) × (f ≡ found a)) ⊎ ((f ≡ not_found) ⊎ ((e : Error) × (f ≡ unavailable e)))
Fetched-cases (found a) = inl (a, refl)
Fetched-cases not_found = inr (inl refl)
Fetched-cases (unavailable e) = inr (inr (e, refl))

module _ {F : Type 0} (P : Platform F) (L : IsLawful P) where
  open L use {objects}

  -- The object at hand is the stored one.
  abbrev pub IsCurrent : Recommendation F → P.World → Type 0
  IsCurrent r w = objects w r.meta ≡ some r

  pub get_rec-IsCurrent :
      (k : NamespacedName) (w : P.World) (r : Recommendation F)
      → P.get_rec k w ≡ found r
      → IsCurrent r w
  get_rec-IsCurrent k w r e =
      let (stored, meta) = L.get_rec_found k w r e in ap (objects w) meta ∙ stored

  pub update_status-Evolves :
      {now : Time} {j : ℕ} (r : Recommendation F) (u : RecommendationStatus) (w : P.World)
      → IsCurrent r w
      → Transition now r.status j u
      → Evolves now j (suc j) (objects w) (objects (P.update_status (record r { status = u }) w).1)
  update_status-Evolves {now} {j} r u w c t =
      Writes-Evolves r.meta (some (record r { status = u }))
        (L.update_status-Writes (record r { status = u }) r w c)
        (subst (λ o. Step now j o (some (record r { status = u }))) (sym c) (moved r j u t))

  -- After a write that the server confirmed, the answer is the object with the new status, stored.
  pub update_status-IsCurrent :
      (r r' : Recommendation F) (u : RecommendationStatus) (w : P.World)
      → IsCurrent r w
      → (P.update_status (record r { status = u }) w).0 ≡ ok r'
      → (r' ≡ record r { status = u })
        × IsCurrent r' (P.update_status (record r { status = u }) w).1
  update_status-IsCurrent r r' u w c e =
      let (same, stored) = L.update_status_ok (record r { status = u }) r' r w c e in
      let after = objects (P.update_status (record r { status = u }) w).1 in
      (same, ap after (ap (λ (x : Recommendation F). x.meta) same) ∙ stored)

  pub save_status-Evolves :
      {now : Time} {j : ℕ} (r : Recommendation F) (u : RecommendationStatus) (w : P.World)
      → IsCurrent r w
      → Transition now r.status j u
      → Evolves now j (suc j) (objects w) (objects (save_status P (record r { status = u }) w).1)
  unfolding save_status
  save_status-Evolves {now} {j} r u w c t = ground (arith, update_status-Evolves r u w c t)

  -- A forwarder talks to other systems, and leaves the recommendations alone.
  abbrev pub IsQuiet : Forwarder P.World → Type 0
  IsQuiet fwd = (n : Notification) (w : P.World) → objects (fwd.send n w).1 ≡ objects w

  pub send_filtered-objects :
      (forwarders : List (Forwarder P.World)) (n : Notification) (exclude : List String)
      (w : P.World)
      → All IsQuiet forwarders
      → objects (send_filtered forwarders n exclude w).1 ≡ objects w
  unfolding send_filtered
  send_filtered-objects [] n exclude w q = refl
  send_filtered-objects (fwd ∷ rest) n exclude w (q, qs) = ground (
    arith,
    q n w,
    send_filtered-objects rest n exclude w qs,
    send_filtered-objects rest n exclude (fwd.send n w).1 qs,
  )
