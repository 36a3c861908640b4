-- ===== src/Platform.antt =====
-- What the program calls and does not implement, as one interface: the Kubernetes API server with
-- the custom resources and the VMs in it (controller-runtime's client, the dynamic client), the
-- clock, the quantities of apimachinery and the time parser. A call that changes something takes a
-- world and returns the next one; a read returns what it found.
--
-- `Laws` states what the proofs rely on, `Memory` is an instance that meets it.
pub mod Laws
pub mod Memory
use ovro.Prelude.{String, Option, List, Error, Result}
use ovro.Prelude.Int.{ℤ}
use ovro.Types.{Time, Labels, Quantity, NamespacedName, Recommendation}
use ovro.Types.Policy.{PolicySpec}

-- What `client.Get` ends in. `not_found` is the error that `errors.IsNotFound` recognises.
pub data Fetched {ℓ} (A : Type ℓ) : Type ℓ where
  found : A → Fetched A
  not_found : Fetched A
  unavailable : Error → Fetched A

-- The text of the error that a failed `Get` returned.
abbrev pub not_found_text : Error
not_found_text = "not found"

-- An unstructured VirtualMachine. `nested_int64` and `nested_string` are `unstructured.NestedInt64`
-- and `NestedString` of its object: an error, or the value if the path is there.
pub record VirtualMachine : Type 0 where
  pub meta : NamespacedName
  pub labels : Labels
  pub annotations : Labels
  pub nested_int64 : List String → Result (Option ℤ)
  pub nested_string : List String → Result (Option String)

-- The bodies that the program patches a VirtualMachine with.
pub data VmPatch : Type 0 where
  -- `spec.template.spec.domain` with `cpu.cores` and `memory.guest`.
  resources : ℤ → Quantity → VmPatch
  -- `metadata.annotations` with one key, its value or `null`.
  annotation : String → Option String → VmPatch
  -- An empty patch of the subresource `restart`.
  restart : VmPatch

pub record Platform (F : Type 0) : Type 1 where
  pub World : Type 0
  -- `time.Now()`, and `metav1.Now()`, which the API server keeps.
  pub now : World → Time
  pub timestamp : World → Time
  -- The policy named "default".
  pub get_policy : World → Fetched PolicySpec
  pub update_policy : PolicySpec → World → Result PolicySpec × World
  pub get_rec : NamespacedName → World → Fetched (Recommendation F)
  -- In a namespace, or in all for the empty text.
  pub list_recs : String → World → Result (List (Recommendation F))
  -- The writes return the object as the server answered it, which the client decodes into the
  -- object that it was given.
  pub create_rec : Recommendation F → World → Result (Recommendation F) × World
  pub update_rec : Recommendation F → World → Result (Recommendation F) × World
  pub update_status : Recommendation F → World → Result (Recommendation F) × World
  pub delete_rec : Recommendation F → World → Option Error × World
  pub get_vm : NamespacedName → World → Fetched VirtualMachine
  pub list_vms : World → Result (List VirtualMachine)
  pub get_namespace : String → World → Fetched Labels
  pub patch_vm : NamespacedName → VmPatch → World → Option Error × World
  -- `Quantity.Value()`, and `resource.ParseQuantity` of a text followed by `Value()`.
  pub quantity_value : Quantity → ℤ
  pub parse_quantity : String → Option ℤ
  -- `time.Parse(time.RFC3339, s)`.
  pub parse_rfc3339 : String → Option Time
