-- ===== src/Server/Overview/Sums.antt =====
-- The sums of the overview: a loop that wraps at every step wraps the exact sum once.
use ovro.Server.Overview.Counts.{is_candidate}
use ovro.Server.{OverviewResponse}
use ovro.Types.{Time, Recommendation}
use ovro.Server.Overview.{count_items, count_direction, count_item}
use ovro.Prelude.Int.{+ℤ-assoc, +ℤ-zero, wrap64, wrap32, pos, ◌+ℤ◌, ℤ}
use ovro.Platform.{Platform}
use ovro.Prelude.{
  inr, inl, Bool-cases, ◌∙◌, ap, sym, filter, arith, if◌then◌else◌, [], ◌∷◌, ◌≡◌, List, refl,
}

abbrev pub sum_ℤ {ℓ} : {A : Type ℓ} → (A → ℤ) → List A → ℤ
sum_ℤ f [] = pos 0
sum_ℤ f (x ∷ xs) = f x +ℤ sum_ℤ f xs

module _ {F : Type 0} (P : Platform F) where
  -- The savings of a candidate are added once, and wrapped at each step.
  pub count_item-cpu :
      (today : Time) (x : Recommendation F) (o : OverviewResponse)
      → (count_item P today x o).total_cpu_savings ≡ (
          if is_candidate P x
          then wrap32 (o.total_cpu_savings +ℤ x.spec.savings.cpu)
          else o.total_cpu_savings)
  unfolding count_item count_direction
  count_item-cpu today x o = ground arith

  pub count_item-memory :
      (today : Time) (x : Recommendation F) (o : OverviewResponse)
      → (count_item P today x o).total_memory_savings ≡ (
          if is_candidate P x
          then wrap64 (o.total_memory_savings +ℤ P.quantity_value x.spec.savings.memory)
          else o.total_memory_savings)
  unfolding count_item count_direction
  count_item-memory today x o = ground arith

  -- A sum that wraps at every candidate of the loop.
  module _ (wrap : ℤ → ℤ) (onto : (a b : ℤ) → wrap (wrap a +ℤ b) ≡ wrap (a +ℤ b))
      (again : (a : ℤ) → wrap (wrap a) ≡ wrap a) (amount : Recommendation F → ℤ)
      (total : OverviewResponse → ℤ) (today : Time)
      (added : (x : Recommendation F) (o : OverviewResponse)
        → total (count_item P today x o)
          ≡ (if is_candidate P x then wrap (total o +ℤ amount x) else total o)) where
    pub count_items-total :
        (items : List (Recommendation F)) (o : OverviewResponse)
        → wrap (total o) ≡ total o
        → total (count_items P today items o)
          ≡ wrap (total o +ℤ sum_ℤ amount (filter (is_candidate P) items))
    unfolding count_items
    count_items-total [] o h = sym (ap wrap (+ℤ-zero (total o)) ∙ h)
    count_items-total (x ∷ items) o h =
        let o' = count_item P today x o in
        let rest = sum_ℤ amount (filter (is_candidate P) items) in
        elim (Bool-cases (is_candidate P x)) [
          | inl e ↦
              let now : total o' ≡ wrap (total o +ℤ amount x) = rw (added x o, e) refl in
              count_items-total items o' (ap wrap now ∙ (again (total o +ℤ amount x) ∙ sym now))
              ∙ (ap (λ t. wrap (t +ℤ rest)) now
                  ∙ (onto (total o +ℤ amount x) rest
                      ∙ (ap wrap (+ℤ-assoc (total o) (amount x) rest) ∙ rw e refl)))
          | inr e ↦
              let now : total o' ≡ total o = rw (added x o, e) refl in
              count_items-total items o' (ap wrap now ∙ (h ∙ sym now))
              ∙ (ap (λ t. wrap (t +ℤ rest)) now ∙ rw e refl)
        ]
