-- ===== src/Platform/Laws.antt =====
-- What the proofs rely on of the API server: an object store with a status subresource.
use ovro.Prelude.{◌≡◌, ◌⊎◌, Option, none, some, ok}
use ovro.Types.{NamespacedName, Recommendation, empty_status}
use ovro.Types.Policy.{PolicySpec}
use ovro.Platform.{found, not_found, VmPatch, Platform}

-- The recommendations that the server holds.
abbrev pub Objects : Type 0 → Type 0
Objects F = NamespacedName → Option (Recommendation F)

-- A write to one key: every object stays, or is the one of that key and the new one.
abbrev pub Writes {ℓ} : {K A : Type ℓ} → (K → A) → (K → A) → K → A → Type ℓ
Writes {K} before after key new = (j : K) → (after j ≡ before j) ⊎ ((j ≡ key) × (after j ≡ new))

pub record IsLawful {F : Type 0} (P : Platform F) : Type 0 where
  pub objects : P.World → Objects F
  -- A read that finds an object finds the one that the server holds.
  pub get_rec_found :
      (k : NamespacedName) (w : P.World) (r : Recommendation F)
      → P.get_rec k w ≡ found r
      → (objects w k ≡ some r) × (r.meta ≡ k)
  pub get_rec_missing :
      (k : NamespacedName) (w : P.World) → P.get_rec k w ≡ not_found → objects w k ≡ none
  -- A new object is stored without its status, and an object that is there is not created again.
  pub create_rec-Writes :
      (r : Recommendation F) (w : P.World)
      → objects w r.meta ≡ none
      → Writes
          (objects w)
          (objects (P.create_rec r w).1)
          r.meta
          (some (record r { status = empty_status }))
  pub create_rec_ok :
      (r r' : Recommendation F) (w : P.World)
      → (P.create_rec r w).0 ≡ ok r'
      → (r' ≡ record r { status = empty_status }) × (objects (P.create_rec r w).1 r.meta ≡ some r')
  -- An update of an object keeps the status, one of the status keeps all else. An update that
  -- failed may have been stored or not.
  pub update_rec-Writes :
      (r old : Recommendation F) (w : P.World)
      → objects w r.meta ≡ some old
      → Writes
          (objects w)
          (objects (P.update_rec r w).1)
          r.meta
          (some (record r { status = old.status }))
  pub update_rec_ok :
      (r r' old : Recommendation F) (w : P.World)
      → objects w r.meta ≡ some old
      → (P.update_rec r w).0 ≡ ok r'
      → (r' ≡ record r { status = old.status }) × (objects (P.update_rec r w).1 r.meta ≡ some r')
  pub update_status-Writes :
      (r old : Recommendation F) (w : P.World)
      → objects w r.meta ≡ some old
      → Writes
          (objects w)
          (objects (P.update_status r w).1)
          r.meta
          (some (record old { status = r.status }))
  pub update_status_ok :
      (r r' old : Recommendation F) (w : P.World)
      → objects w r.meta ≡ some old
      → (P.update_status r w).0 ≡ ok r'
      → (r' ≡ record old { status = r.status }) × (objects (P.update_status r w).1 r.meta ≡ some r')
  pub delete_rec-Writes :
      (r : Recommendation F) (w : P.World)
      → Writes (objects w) (objects (P.delete_rec r w).1) r.meta none
  -- The other writes leave the recommendations alone.
  pub update_policy-objects :
      (p : PolicySpec) (w : P.World) → objects (P.update_policy p w).1 ≡ objects w
  pub patch_vm-objects :
      (k : NamespacedName) (p : VmPatch) (w : P.World) → objects (P.patch_vm k p w).1 ≡ objects w
