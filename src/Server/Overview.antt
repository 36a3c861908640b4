-- ===== src/Server/Overview.antt =====
-- handlers.go: the reading handlers, `handleListRecommendations`, `handleGetRecommendation`,
-- `handleOverview` and `handleListVMs`.
pub mod Counts
pub mod Sums
pub mod Bag
use ovro.Prelude.{
  ◌+◌, ◌-◌, ◌%◌, String, Bool, false, Option, none, some, List, [], ◌∷◌, Result, ok, err, str_eq,
  if◌then◌else◌, ltb, length, filter,
}
use ovro.Prelude.Int.{ℤ, pos, ◌+ℤ◌, wrap32, wrap64}
use ovro.Types.{
  Time, Direction, downsize, upsize, Recommendation, is_pending, direction_text, state_text,
  annotation_exclude,
}
use ovro.Platform.{found, not_found, unavailable, VirtualMachine, Platform}
use ovro.Server.{
  Server, UserInfo, Response, OverviewResponse, VmListItem, http_error, write_json, one, several,
  overview, vms, key,
}
use ovro.Server.Access.{filter_by_namespace_access, can_user_access_namespace, filter_checked}

-- A filter of the query: the empty text filters nothing.
unfoldable pub filter_query {ℓ} : {A : Type ℓ} → String → (A → String) → List A → List A
filter_query value text items =
    if str_eq value "" then items else filter (λ item. str_eq (text item) value) items

abbrev pub zero_overview : OverviewResponse
zero_overview = record {
  total_vms = 0;
  downsize_candidates = 0;
  upsize_needed = 0;
  applied_today = 0;
  total_cpu_savings = pos 0;
  total_memory_savings = pos 0;
}

module _ {F : Type 0} (P : Platform F) where
  -- A nil slice is made an empty one before it is encoded.
  unfoldable pub handle_list_recommendations :
      Server P.World → Option UserInfo → String → String → String → P.World → Response F
  unfolding filter_query
  handle_list_recommendations s user namespace direction state w = elim (P.list_recs namespace w) [
    | err e ↦ http_error 500 "internal server error"
    | ok listed ↦
        let items = filter_by_namespace_access s user listed w in
        let items' = filter_query direction (λ r. direction_text r.spec.direction) items in
        write_json (several (filter_query state (λ r. state_text r.status.state) items'))
  ]

  unfoldable pub handle_get_recommendation : String → String → P.World → Response F
  handle_get_recommendation namespace name w = elim (P.get_rec (key namespace name) w) [
    | found rec ↦ write_json (one rec)
    | not_found ↦ http_error 404 "not found"
    | unavailable e ↦ http_error 404 "not found"
  ]

  -- `AppliedAt != nil && AppliedAt.After(today)`.
  abbrev pub applied_after : Time → Option Time → Bool
  applied_after today none = false
  applied_after today (some t) = ltb today t

  -- The `switch` over the direction, for one item.
  unfoldable pub count_direction :
      Direction → Recommendation F → OverviewResponse → OverviewResponse
  count_direction downsize item o =
      if is_pending item.status.state
      then record o {
        downsize_candidates = o.downsize_candidates + 1;
        total_cpu_savings = wrap32 (o.total_cpu_savings +ℤ item.spec.savings.cpu);
        total_memory_savings =
            wrap64 (o.total_memory_savings +ℤ P.quantity_value item.spec.savings.memory);
      }
      else o
  count_direction upsize item o =
      if is_pending item.status.state then record o { upsize_needed = o.upsize_needed + 1 } else o

  unfoldable pub count_item : Time → Recommendation F → OverviewResponse → OverviewResponse
  unfolding count_direction
  count_item today item o =
      let o' = count_direction item.spec.direction item o in
      if applied_after today item.status.applied_at
      then record o' { applied_today = o'.applied_today + 1 }
      else o'

  unfoldable pub count_items : Time → List (Recommendation F) → OverviewResponse → OverviewResponse
  unfolding count_item
  count_items today [] o = o
  count_items today (item ∷ items) o = count_items today items (count_item today item o)

  -- `time.Now().Truncate(24 * time.Hour)`: midnight, in UTC.
  abbrev pub midnight : Time → Time
  midnight now = now - now % 86400000000000

  unfoldable pub handle_overview : Server P.World → Option UserInfo → P.World → Response F
  unfolding count_items
  handle_overview s user w = elim (P.list_recs "" w) [
    | err e ↦ http_error 500 "internal server error"
    | ok listed ↦
        let items = filter_by_namespace_access s user listed w in
        write_json (
          overview (
            count_items (midnight (P.now w)) items
              (record zero_overview { total_vms = length items })))
  ]

-- The third value of `NestedInt64` and `NestedString` is ignored: what is absent is zero or empty.
abbrev pub int_or_zero : Result (Option ℤ) → ℤ
int_or_zero (ok (some n)) = n
int_or_zero (ok none) = pos 0
int_or_zero (err e) = pos 0

abbrev pub text_or_empty : Result (Option String) → String
text_or_empty (ok (some s)) = s
text_or_empty (ok none) = ""
text_or_empty (err e) = ""

abbrev pub is_excluded : Option String → Bool
is_excluded none = false
is_excluded (some v) = str_eq v "true"

unfoldable pub vm_list_item : VirtualMachine → VmListItem
vm_list_item vm =
    let memory = text_or_empty (
      vm.nested_string
        ("spec" ∷ "template" ∷ "spec" ∷ "domain" ∷ "resources" ∷ "requests" ∷ "memory" ∷ [])) in
    record {
      name = vm.meta.name;
      namespace = vm.meta.namespace;
      excluded = is_excluded (vm.annotations annotation_exclude);
      running =
          str_eq (text_or_empty (vm.nested_string ("status" ∷ "printableStatus" ∷ []))) "Running";
      cpu_cores =
          int_or_zero
            (vm.nested_int64 ("spec" ∷ "template" ∷ "spec" ∷ "domain" ∷ "cpu" ∷ "cores" ∷ []));
      memory = if str_eq memory "" then "0" else memory;
    }

abbrev pub list_items : List VirtualMachine → List VmListItem
list_items [] = []
list_items (vm ∷ rest) = vm_list_item vm ∷ list_items rest

module _ {F : Type 0} (P : Platform F) where
  unfoldable pub handle_list_vms : Server P.World → Option UserInfo → P.World → Response F
  unfolding vm_list_item
  handle_list_vms s user w =
      if s.dynamic_client
      then elim user [
        | none ↦ http_error 401 "unauthorized"
        | some u ↦ elim (P.list_vms w) [
          | err e ↦ http_error 500 "internal server error"
          | ok listed ↦ write_json (
              vms (
                list_items (
                  filter_checked (λ vm. vm.meta.namespace)
                    (λ ns. can_user_access_namespace s (some u) ns "get" w) [] listed)))
        ]
      ]
      else http_error 500 "internal server error"
