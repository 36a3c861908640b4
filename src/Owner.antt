-- ===== src/Owner.antt =====
-- internal/owner/resolver.go: the owner of a VM, from the VM's labels, then its namespace's.
use ovro.Prelude.{String, ◌<>◌, none, some, Error, Result, ok, err}
use ovro.Types.{label_owner}
use ovro.Platform.{found, not_found, unavailable, not_found_text, Platform}

-- The error text of `Get`, in the wrapping that `ResolveOwner` gives it.
abbrev pub vm_error : String → String → Error → Error
vm_error namespace vm_name e =
    "failed to get VirtualMachine " <> namespace <> "/" <> vm_name <> ": " <> e

abbrev pub namespace_error : String → Error → Error
namespace_error namespace e = "failed to get Namespace " <> namespace <> ": " <> e

module _ {F : Type 0} (P : Platform F) where
  -- The second half: the namespace's label, or no owner.
  unfoldable pub resolve_namespace_owner : String → P.World → Result String
  resolve_namespace_owner namespace w = elim (P.get_namespace namespace w) [
    | not_found ↦ err (namespace_error namespace not_found_text)
    | unavailable e ↦ err (namespace_error namespace e)
    | found labels ↦ elim (labels label_owner) [ some owner ↦ ok owner | none ↦ ok "" ]
  ]

  unfoldable pub resolve_owner : String → String → P.World → Result String
  unfolding resolve_namespace_owner
  resolve_owner vm_name namespace w =
      elim (P.get_vm (record { namespace = namespace; name = vm_name }) w) [
        | not_found ↦ err (vm_error namespace vm_name not_found_text)
        | unavailable e ↦ err (vm_error namespace vm_name e)
        | found vm ↦ elim (vm.labels label_owner) [
          | some owner ↦ ok owner
          | none ↦ resolve_namespace_owner namespace w
        ]
      ]
