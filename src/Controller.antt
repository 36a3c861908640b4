-- ===== src/Controller.antt =====
-- internal/controller: the two reconcilers. This file has what they share: the result of a
-- reconciliation, and the reads of a VM (`getVM`, and `IsHotplugCapable` of internal/applier).
use ovro.Server.{key}
use ovro.Prelude.Int.{quot, wrap32, ltb_ℤ, pos, ℤ}
use ovro.Platform.{found, unavailable, not_found_text, not_found, VirtualMachine, Platform}
pub mod Expiry
pub mod Reminder
pub mod Excluded
pub mod Demo
pub mod AutoApply
pub mod Recommend
pub mod Reconcile
pub mod Restart
pub mod Lifecycle
use ovro.Prelude.{
  ◌<>◌, none, false, err, some, ok, [], ◌∷◌, Option, Error, Bool, Result, List, String,
}

-- `ctrl.Result` with no error, or an error, upon which the manager retries. The time is a Go
-- duration, 0 for no requeue.
pub data Outcome : Type 0 where
  done : ℤ → Outcome
  retry : Error → Outcome

-- A VM with the sizes that were read from it.
pub record SizedVm : Type 0 where
  pub vm : VirtualMachine
  pub cpu_cores : ℤ
  pub memory_gib : ℤ

abbrev domain : List String → List String
domain rest = "spec" ∷ "template" ∷ "spec" ∷ "domain" ∷ rest

-- `int32(cores)` if the path is there. The error of `NestedInt64` is ignored.
abbrev pub cores_of : Result (Option ℤ) → ℤ
cores_of (ok (some cores)) = wrap32 cores
cores_of (ok none) = pos 0
cores_of (err e) = pos 0

-- The first text that is found; the second path is read only if the first has none.
abbrev pub first_text : Result (Option String) → Result (Option String) → Option String
first_text (ok (some s)) other = some s
first_text (ok none) (ok t) = t
first_text (ok none) (err e) = none
first_text (err d) (ok t) = t
first_text (err d) (err e) = none

module _ {F : Type 0} (P : Platform F) where
  -- `int32(q.Value() / (1024 * 1024 * 1024))` if the text parses.
  unfoldable pub memory_of : Option String → ℤ
  memory_of none = pos 0
  memory_of (some text) = elim (P.parse_quantity text) [
    | none ↦ pos 0
    | some bytes ↦ wrap32 (quot bytes 1073741824)
  ]

  unfoldable pub get_vm : String → String → P.World → Result SizedVm
  unfolding memory_of
  get_vm name namespace w = elim (P.get_vm (key namespace name) w) [
    | not_found ↦ err ("fetching VM: " <> not_found_text)
    | unavailable e ↦ err ("fetching VM: " <> e)
    | found vm ↦ ok (record {
      vm = vm;
      cpu_cores = cores_of (vm.nested_int64 (domain ("cpu" ∷ "cores" ∷ [])));
      memory_gib = memory_of (
          first_text (vm.nested_string (domain ("resources" ∷ "requests" ∷ "memory" ∷ [])))
            (vm.nested_string (domain ("memory" ∷ "guest" ∷ []))));
    })
  ]

-- `maxSockets > 0` where the path is there.
abbrev is_positive : Result (Option ℤ) → Bool
is_positive (ok (some n)) = ltb_ℤ (pos 0) n
is_positive (ok none) = false
is_positive (err e) = false

unfoldable pub is_hotplug_capable : VirtualMachine → Bool
is_hotplug_capable vm = is_positive (vm.nested_int64 (domain ("cpu" ∷ "maxSockets" ∷ [])))
