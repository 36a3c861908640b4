-- ===== src/Notifier.antt =====
-- internal/notifier/notifier.go: the notification, and the dispatcher that sends it to every
-- registered forwarder. A forwarder is what the source's interface is: a name, and a send that acts
-- on the world and may fail. The log lines are left out.
pub mod Delivery
pub mod Dispatch
pub mod Http
pub mod ServiceNow
pub mod RocketChat
pub mod PagerDuty
pub mod Registry
pub mod Snmp
pub mod Smtp
pub mod Teams
pub mod Slack
use ovro.Prelude.{
  String, ◌<>◌, Bool, true, false, Option, none, some, List, [], ◌∷◌, Error, str_eq, if◌then◌else◌,
}
use ovro.Prelude.Int.{ℤ}

pub record ForwarderConfig : Type 0 where
  pub kind : String
  pub enabled : Bool
  pub channel : String
  pub secret_ref : String
  pub from : String
  pub to : String
  pub smtp_server : String
  pub smtp_port : ℤ
  pub smtp_tls : String
  pub smtp_tls_skip_verify : Bool
  pub host : String
  pub port : ℤ
  pub community : String
  pub server_url : String
  pub instance_url : String
  pub assignment_group : String
  pub category : String

pub record Notification : Type 0 where
  pub vm_name : String
  pub namespace : String
  pub owner : String
  pub direction : String
  pub current_cpu : ℤ
  pub current_memory : ℤ
  pub rec_cpu : ℤ
  pub rec_memory : ℤ
  pub approval_url : String

pub record Forwarder (W : Type 0) : Type 0 where
  pub name : String
  pub send : Notification → W → Option Error × W

-- `exclude[name]` of the map that `SendAllExcept` builds from the list.
abbrev pub contains : List String → String → Bool
contains [] name = false
contains (t ∷ ts) name = let rest = contains ts name in if str_eq t name then true else rest

-- `append(errors, fmt.Errorf("%s: %w", fwd.Name(), err))`.
abbrev pub append_error : String → Option Error → List Error → List Error
append_error name none errors = errors
append_error name (some e) errors = (name <> ": " <> e) ∷ errors

module _ {W : Type 0} where
  -- The loop. The errors of the later forwarders follow that of the first.
  unfoldable pub send_filtered :
      List (Forwarder W) → Notification → List String → W → List Error × W
  send_filtered [] n exclude w = ([], w)
  send_filtered (fwd ∷ forwarders) n exclude w = elim (contains exclude fwd.name) [
    | true ↦ send_filtered forwarders n exclude w
    | false ↦
        let (e, w') = fwd.send n w in
        let (errors, w'') = send_filtered forwarders n exclude w' in
        (append_error fwd.name e errors, w'')
  ]

  -- With a nil map nothing is excluded.
  unfoldable pub send_all : List (Forwarder W) → Notification → W → List Error × W
  unfolding send_filtered
  send_all forwarders n w = send_filtered forwarders n [] w

  unfoldable pub send_all_except :
      List (Forwarder W) → Notification → List String → W → List Error × W
  unfolding send_filtered
  send_all_except forwarders n exclude_types w = send_filtered forwarders n exclude_types w
