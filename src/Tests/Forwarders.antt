-- ===== src/Tests/Forwarders.antt =====
-- Forwarders of a configuration, with servers that accept everything.
use ovro.Notifier.Smtp.Secrecy.{send_smtp-is_secret, recording, is_secret}
use ovro.Server.Middleware.{equal_fold}
use ovro.Notifier.Registry.Excluded.{new_dispatcher-send_all_except, configs_without}
use ovro.Notifier.Snmp.{new_snmp_forwarder}
use ovro.Prelude.Int.{ℤ, pos}
use ovro.Platform.Memory.{Cluster}
use ovro.Notifier.Smtp.{
  send_smtp, tls_mode_of, start_tls, smtp_secret, new_smtp_forwarder, SmtpForwarder, Smtp,
}
use ovro.Notifier.Registry.{new_forwarder, new_dispatcher, Outside}
use ovro.Notifier.Http.{Http}
use ovro.Notifier.{send_all, send_all_except, Forwarder, Notification, ForwarderConfig}
use mathlib.Core.Path.{refl}
use ovro.Tests.{show, before_all}
use ovro.Prelude.{none, err, [], ok, false, ◌∷◌, true, Result, List, ◌≡◌}

abbrev pub blank : ForwarderConfig
blank = record {
  kind = "";
  enabled = true;
  channel = "#vms";
  secret_ref = "";
  from = "ovro@example.com";
  to = "{{owner}}@example.com";
  smtp_server = "mail.example.com";
  smtp_port = pos 0;
  smtp_tls = "";
  smtp_tls_skip_verify = false;
  host = "traps.example.com";
  port = pos 0;
  community = "public";
  server_url = "";
  instance_url = "";
  assignment_group = "";
  category = "";
}

-- Mail, an unknown type, a disabled one, and SNMP.
abbrev pub configs : List ForwarderConfig
configs =
    record blank { kind = "smtp" }
    ∷ record blank { kind = "fax" }
    ∷ record blank { kind = "slack"; enabled = false }
    ∷ record blank { kind = "snmp" }
    ∷ []

abbrev pub accepting : Http (Cluster ℤ)
accepting = record {
  new_request = λ url. none;
  send = λ request w. (ok (record { status = 200; body = ""; json = none }), w);
  query_escape = λ s. s;
  basic_auth = λ user password. "Basic";
}

abbrev pub mail_server : Smtp (Cluster ℤ)
mail_server = record { run = λ command w. (none, w); host_of = λ s. s }

abbrev pub outside : Outside (Cluster ℤ)
outside = record {
  http = accepting;
  smtp = mail_server;
  secrets = λ name namespace w. err "no secrets";
  show = show;
}

abbrev pub list_of : Result (List (Forwarder (Cluster ℤ))) → List (Forwarder (Cluster ℤ))
list_of (ok fs) = fs
list_of (err e) = []

abbrev forwarders : List (Forwarder (Cluster ℤ))
forwarders = list_of (new_dispatcher outside configs before_all)

abbrev pub note : Notification
note = record {
  vm_name = "web";
  namespace = "shop";
  owner = "ann";
  direction = "downsize";
  current_cpu = pos 8;
  current_memory = pos 16;
  rec_cpu = pos 4;
  rec_memory = pos 8;
  approval_url = "https://approve.example.com/approve?token=t";
}

new_dispatcher-send_all_except_example :
    (gs : List (Forwarder (Cluster ℤ))) × ((new_dispatcher outside
          (configs_without ("snmp" ∷ []) configs)
          before_all
        ≡ ok gs)
      × (send_all_except forwarders note ("snmp" ∷ []) before_all ≡ send_all gs note before_all))
unfolding new_dispatcher new_forwarder new_smtp_forwarder smtp_secret new_snmp_forwarder
new_dispatcher-send_all_except_example =
    new_dispatcher-send_all_except outside configs ("snmp" ∷ []) note before_all before_all
      forwarders refl

abbrev mailer : SmtpForwarder
mailer = record {
  from = "ovro@example.com";
  to = "{{owner}}@example.com";
  smtp_server = "mail.example.com";
  smtp_port = pos 587;
  tls_mode = start_tls;
  tls_skip_verify = false;
  username = "";
  password = "";
}

send_smtp-is_secret_example :
    is_secret (send_smtp (recording mail_server) show mailer note ([], before_all)).1.0 ≡ true
unfolding new_smtp_forwarder smtp_secret tls_mode_of equal_fold
send_smtp-is_secret_example =
    send_smtp-is_secret mail_server show blank outside.secrets before_all mailer note before_all
      refl refl
