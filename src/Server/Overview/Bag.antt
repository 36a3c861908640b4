-- ===== src/Server/Overview/Bag.antt =====
-- The overview as a function of the items that a user may read, whatever their order.
use ovro.Server.Overview.Sums.{count_item-memory, count_item-cpu, sum_ℤ, count_items-total}
use ovro.Server.Access.Cache.{filter_by_namespace_access_lem}
use ovro.Server.Access.{can_user_access_namespace}
use ovro.Server.Overview.Counts.{count_items_lem, is_recent, is_needed, is_candidate}
use ovro.Server.Overview.{
  midnight, zero_overview, handle_overview, count_direction, count_items, count_item,
}
use ovro.Types.{Recommendation, Time}
use ovro.Prelude.Int.{
  zero-+ℤ, wrap64-wrap64, wrap64-+ℤ, wrap32-wrap32, wrap32-+ℤ, wrap64, wrap32, wrap64-swap,
  wrap32-swap,
}
use ovro.Platform.{Platform}
use ovro.Server.{overview, write_json, http_error, UserInfo, Server, OverviewResponse}
use mathlib.Core.List.{Perm}
use mathlib.Core.List.{foldr}
use mathlib.Core.List.Perm
use mathlib.Core.Quot
use mathlib.Core.Quot.{Quot}
use ovro.Prelude.{
  Result-cases, length-Perm, ok, err, Option, inr, inl, sym, length, ap, ◌∙◌, arith, [], ◌≡◌, ◌∷◌,
  filter, List, refl,
}

pub OverviewResponse-set : IsSet OverviewResponse
OverviewResponse-set = hlevel

module _ {F : Type 0} (P : Platform F) where
  -- What the overview says of some items: their number, the lengths of three selections, and the
  -- savings of the first, each wrapped once.
  abbrev pub summary : Time → List (Recommendation F) → OverviewResponse
  summary today items =
      let candidates = filter (is_candidate P) items in
      record {
        total_vms = length items;
        downsize_candidates = length candidates;
        upsize_needed = length (filter (is_needed P) items);
        applied_today = length (filter (is_recent P today) items);
        total_cpu_savings = wrap32 (sum_ℤ (λ r. r.spec.savings.cpu) candidates);
        total_memory_savings =
            wrap64 (sum_ℤ (λ r. P.quantity_value r.spec.savings.memory) candidates);
      }

  count_item-swap :
      (today : Time) (x y : Recommendation F) (o : OverviewResponse)
      → count_item P today x (count_item P today y o)
        ≡ count_item P today y (count_item P today x o)
  unfolding count_item count_direction
  count_item-swap today x y o = ground (
    arith,
    wrap32-swap o.total_cpu_savings x.spec.savings.cpu y.spec.savings.cpu,
    wrap64-swap o.total_memory_savings (P.quantity_value x.spec.savings.memory)
        (P.quantity_value y.spec.savings.memory),
  )

  -- The loop, as a fold of the steps.
  abbrev step :
      Time
      → Recommendation F
      → (OverviewResponse → OverviewResponse)
      → OverviewResponse
      → OverviewResponse
  step today item rest o = rest (count_item P today item o)

  count_items-foldr :
      (today : Time) (items : List (Recommendation F)) (o : OverviewResponse)
      → count_items P today items o ≡ foldr (step today) (λ o. o) items o
  unfolding count_items
  count_items-foldr today [] o = refl
  count_items-foldr today (x ∷ items) o = count_items-foldr today items (count_item P today x o)

  steps-set : IsSet (OverviewResponse → OverviewResponse)
  steps-set = hlevel OverviewResponse-set

  count_items-Perm :
      (today : Time) (xs ys : List (Recommendation F)) (o : OverviewResponse)
      → Perm xs ys
      → count_items P today xs o ≡ count_items P today ys o
  count_items-Perm today xs ys o p =
      count_items-foldr today xs o
      ∙ (ap (λ f. f o)
            (Perm.foldr-eq steps-set (step today)
              (λ x y k. (λ i o. k (count_item-swap today y x o i))) p (λ o. o))
          ∙ sym (count_items-foldr today ys o))

  -- The loop computes the summary.
  count_items-summary :
      (today : Time) (items : List (Recommendation F))
      → count_items P today items (record zero_overview { total_vms = length items })
        ≡ summary today items
  unfolding wrap32 wrap64
  count_items-summary today items =
      let start = record zero_overview { total_vms = length items } in
      let (down, up, recent, number) = count_items_lem P today items start in
      let cpu =
        count_items-total P wrap32 wrap32-+ℤ wrap32-wrap32 (λ r. r.spec.savings.cpu)
          (λ o. o.total_cpu_savings) today (count_item-cpu P today) items start refl in
      let memory =
        count_items-total P wrap64 wrap64-+ℤ wrap64-wrap64
          (λ r. P.quantity_value r.spec.savings.memory) (λ o. o.total_memory_savings) today
          (count_item-memory P today) items start refl in
      let loop = count_items P today items start in
      let down' : loop.downsize_candidates ≡ length (filter (is_candidate P) items) =
        omega (arith, down) in
      let up' : loop.upsize_needed ≡ length (filter (is_needed P) items) = omega (arith, up) in
      let recent' : loop.applied_today ≡ length (filter (is_recent P today) items) =
        omega (arith, recent) in
      λ i. record {
        total_vms = number i;
        downsize_candidates = down' i;
        upsize_needed = up' i;
        applied_today = recent' i;
        total_cpu_savings = (cpu ∙ ap wrap32 (zero-+ℤ _)) i;
        total_memory_savings = (memory ∙ ap wrap64 (zero-+ℤ _)) i;
      }

  pub summary-Perm :
      (today : Time) (xs ys : List (Recommendation F))
      → Perm xs ys
      → summary today xs ≡ summary today ys
  summary-Perm today xs ys p =
      sym (count_items-summary today xs)
      ∙ (count_items-Perm today xs ys (record zero_overview { total_vms = length xs }) p
          ∙ (ap (λ n. count_items P today ys (record zero_overview { total_vms = n }))
                (length-Perm xs ys p)
              ∙ count_items-summary today ys))

  -- Recommendations without an order.
  abbrev pub Bag : Type 0
  Bag = Quot (Perm {A = Recommendation F})

  unfoldable pub overview_of : Time → Bag → OverviewResponse
  overview_of today = Quot.lift OverviewResponse-set (summary today) (summary-Perm today)

  -- On every branch the overview is the error of the listing, or the summary of the bag of the
  -- listed recommendations that the user may read: it does not depend on their order. The
  -- savings are those of the pending reductions, each sum wrapped once however the loop wrapped it.
  pub handle_overview_lem :
      (s : Server P.World) (user : Option UserInfo) (w : P.World)
      → handle_overview P s user w ≡ (elim (P.list_recs "" w) [
        | err e ↦ http_error 500 "internal server error"
        | ok listed ↦ write_json (
            overview (
              overview_of (midnight P (P.now w)) (
                Quot.mk (
                  filter
                    (λ item. can_user_access_namespace s user item.meta.namespace "get" w)
                    listed))))
      ])
  unfolding handle_overview overview_of
  handle_overview_lem s user w = elim (Result-cases (P.list_recs "" w)) [
    | inr (text, e) ↦ rw (e, handle_overview) refl
    | inl (listed, e) ↦
        rw (e, handle_overview)
          (ap
              (λ items. write_json (
                overview (
                  count_items P (midnight P (P.now w)) items
                    (record zero_overview { total_vms = length items }))))
              (filter_by_namespace_access_lem s user listed w)
            ∙ ap (λ o. write_json (overview o))
                (count_items-summary (midnight P (P.now w)) (
                  filter (λ item. can_user_access_namespace s user item.meta.namespace "get" w)
                    listed)))
  ]
