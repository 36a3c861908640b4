-- ===== src/Notifier/Smtp/Message.antt =====
-- internal/notifier/smtp.go: the text of the message, and the addressee.
use ovro.Prelude.Int.{ℤ}
use Prim.Native.Char.{code}
use Prim.Native.Nat.{zero, suc}
use ovro.Notifier.{Notification}
use ovro.Prelude.{◌==◌, if◌then◌else◌, none, ◌<>◌, some, ℕ, Option, String}

-- The rest of a text after a prefix.
unfoldable pub strip_prefix : String → String → Option String
strip_prefix String.[] s = some s
strip_prefix (String.◌∷◌ c p) String.[] = none
strip_prefix (String.◌∷◌ c p) (String.◌∷◌ d s) =
    let rest = strip_prefix p s in if code c == code d then rest else none

-- `strings.ReplaceAll(s, "{{owner}}", owner)`; the number counts the characters of a match that
-- are still to be left out.
unfoldable pub fill_owner : String → ℕ → String → String
unfolding strip_prefix
fill_owner owner skip String.[] = ""
fill_owner owner (suc skip) (String.◌∷◌ c s) = fill_owner owner skip s
fill_owner owner zero (String.◌∷◌ c s) =
    let matched = fill_owner owner 8 s in
    let other = fill_owner owner 0 s in
    elim (strip_prefix "{{owner}}" (String.◌∷◌ c s)) [
      | some rest ↦ owner <> matched
      | none ↦ String.◌∷◌ c other
    ]

module _ (show : ℤ → String) where
  unfoldable pub smtp_body : Notification → String
  smtp_body n =
      "VM Rightsizing Recommendation\n\nVM: "
      <> n.vm_name
      <> "\nNamespace: "
      <> n.namespace
      <> "\nOwner: "
      <> n.owner
      <> "\nDirection: "
      <> n.direction
      <> "\nCurrent: "
      <> show n.current_cpu
      <> " CPU, "
      <> show n.current_memory
      <> " GiB Memory\nRecommended: "
      <> show n.rec_cpu
      <> " CPU, "
      <> show n.rec_memory
      <> " GiB Memory\n\nApprove or reject this recommendation at:\n"
      <> n.approval_url

  unfoldable pub smtp_message : String → String → Notification → String
  unfolding smtp_body
  smtp_message from to n =
      "From: "
      <> from
      <> "\r\nTo: "
      <> to
      <> "\r\nSubject: VM Rightsizing Recommendation: "
      <> n.vm_name
      <> "\r\nMIME-Version: 1.0\r\nContent-Type: text/plain; charset=UTF-8\r\n\r\n"
      <> smtp_body n
      <> "\r\n"
