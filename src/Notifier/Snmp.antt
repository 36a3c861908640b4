-- ===== src/Notifier/Snmp.antt =====
-- internal/notifier/snmp.go. `Send` writes a log line, which is left out, and sends nothing.
use ovro.Prelude.Int.{pos, eqb_ℤ, ℤ}
use ovro.Notifier.{Notification, ForwarderConfig}
use ovro.Prelude.{ok, err, str_eq, none, if◌then◌else◌, Error, Result, Option, String}

pub record SnmpForwarder : Type 0 where
  pub host : String
  pub port : ℤ
  pub community : String

unfoldable pub new_snmp_forwarder : ForwarderConfig → Result SnmpForwarder
new_snmp_forwarder cfg =
    if str_eq cfg.host ""
    then err "snmp forwarder requires host"
    else ok (record {
      host = cfg.host;
      port = if eqb_ℤ cfg.port (pos 0) then pos 162 else cfg.port;
      community = cfg.community;
    })

unfoldable pub send_snmp : {W : Type 0} → SnmpForwarder → Notification → W → Option Error × W
send_snmp s n w = (none, w)
