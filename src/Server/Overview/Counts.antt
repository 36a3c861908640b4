-- ===== src/Server/Overview/Counts.antt =====
-- What the numbers of the overview count.
use ovro.Server.{OverviewResponse}
use ovro.Server.Overview.{count_item, applied_after, count_items}
use ovro.Platform.{Platform}
use ovro.Types.{upsize, downsize, is_pending, Time, Recommendation, Direction}
use ovro.Prelude.{
  [], ◌∷◌, arith, filter, length, ◌+◌, ◌≡◌, false, ◌&&◌, true, not, List, Bool, refl,
}

abbrev is_downsize : Direction → Bool
is_downsize downsize = true
is_downsize upsize = false

module _ {F : Type 0} (P : Platform F) where
  abbrev pub is_candidate : Recommendation F → Bool
  is_candidate r = is_downsize r.spec.direction && is_pending r.status.state

  abbrev pub is_needed : Recommendation F → Bool
  is_needed r = not (is_downsize r.spec.direction) && is_pending r.status.state

  abbrev pub is_recent : Time → Recommendation F → Bool
  is_recent today r = applied_after P today r.status.applied_at

  -- Over a list of items, the loop of the overview adds to the three counters the lengths of
  -- three selections: the pending reductions, the pending enlargements, and what was applied
  -- since midnight; it leaves the number of VMs as it is.
  pub count_items_lem :
      (today : Time) (items : List (Recommendation F)) (o : OverviewResponse)
      → ((count_items P today items o).downsize_candidates
          ≡ o.downsize_candidates + length (filter is_candidate items))
        × ((count_items P today items o).upsize_needed
            ≡ o.upsize_needed + length (filter is_needed items))
        × ((count_items P today items o).applied_today
            ≡ o.applied_today + length (filter (is_recent today) items))
        × ((count_items P today items o).total_vms ≡ o.total_vms)
  unfolding count_items
  count_items_lem today [] o = (omega arith, omega arith, omega arith, refl)
  count_items_lem today (x ∷ items) o =
      ground (arith, count_items_lem today items (count_item P today x o))
