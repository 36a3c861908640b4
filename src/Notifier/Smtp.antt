-- ===== src/Notifier/Smtp.antt =====
-- internal/notifier/smtp.go. What net/smtp and crypto/tls do is one command each.
use ovro.Notifier.Smtp.Message.{smtp_message, fill_owner}
pub mod Message
pub mod Secrecy
use ovro.Notifier.Teams.{or_empty}
use ovro.Types.{Labels}
use ovro.Server.Middleware.{equal_fold}
use ovro.Notifier.Http.{SecretGetter, with_secret}
use ovro.Prelude.Int.{pos, eqb_ℤ, ℤ}
use ovro.Notifier.{Notification, ForwarderConfig}
use ovro.Prelude.{
  ◌<>◌, Result, List, Bool, ok, err, ◌||◌, [], ◌∷◌, ◌++◌, str_eq, some, none, if◌then◌else◌, Option,
  Error, String,
}

-- The three cases of the switch on `tlsMode`: "tls", "none", and every other text.
pub data TlsMode : Type 0 where
  implicit_tls : TlsMode
  no_tls : TlsMode
  start_tls : TlsMode

-- `strings.ToLower` yields "tls" and "none" for no texts but those that differ by ASCII case.
unfoldable pub tls_mode_of : String → ℤ → TlsMode
unfolding equal_fold
tls_mode_of text port =
    if str_eq text ""
    then (if eqb_ℤ port (pos 465) then implicit_tls else start_tls)
    else if equal_fold text "tls"
    then implicit_tls
    else if equal_fold text "none"
    then no_tls
    else start_tls

pub record SmtpForwarder : Type 0 where
  pub from : String
  pub to : String
  pub smtp_server : String
  pub smtp_port : ℤ
  pub tls_mode : TlsMode
  pub tls_skip_verify : Bool
  pub username : String
  pub password : String

abbrev pub submission_port : ℤ → ℤ
submission_port port = if eqb_ℤ port (pos 0) then pos 587 else port

-- No secret at all where there is no reference to one.
unfoldable pub smtp_secret : {W : Type 0} → ForwarderConfig → SecretGetter W → W → Result Labels
smtp_secret cfg secrets w =
    if str_eq cfg.secret_ref ""
    then ok (λ key. none)
    else with_secret (secrets cfg.secret_ref "ovro-system" w) λ secret. ok secret

unfoldable pub new_smtp_forwarder :
    {W : Type 0} → ForwarderConfig → SecretGetter W → W → Result SmtpForwarder
unfolding tls_mode_of smtp_secret
new_smtp_forwarder cfg secrets w =
    if str_eq cfg.from "" || str_eq cfg.to ""
    then err "smtp forwarder requires from and to addresses"
    else if str_eq cfg.smtp_server ""
    then err "smtp forwarder requires smtpServer"
    else elim (smtp_secret cfg secrets w) [
      | err e ↦ err e
      | ok secret ↦ ok (record {
        from = cfg.from;
        to = cfg.to;
        smtp_server = cfg.smtp_server;
        smtp_port = submission_port cfg.smtp_port;
        tls_mode = tls_mode_of cfg.smtp_tls (submission_port cfg.smtp_port);
        tls_skip_verify = cfg.smtp_tls_skip_verify;
        username = or_empty (secret "username");
        password = or_empty (secret "password");
      })
    ]

-- A TLS configuration is a server name and `InsecureSkipVerify`.
pub data SmtpCommand : Type 0 where
  dial : String → SmtpCommand
  tls_dial : String → String → Bool → SmtpCommand
  new_client : String → SmtpCommand
  upgrade : String → Bool → SmtpCommand
  plain_auth : String → String → String → SmtpCommand
  mail : String → SmtpCommand
  rcpt : String → SmtpCommand
  open_data : SmtpCommand
  write : String → SmtpCommand
  close_data : SmtpCommand
  quit : SmtpCommand
  close : SmtpCommand

-- net/smtp, crypto/tls, and the host that `net.SplitHostPort` finds in an address.
pub record Smtp (W : Type 0) : Type 0 where
  pub run : SmtpCommand → W → Option Error × W
  pub host_of : String → String

-- `smtp.PlainAuth` of a host, where both texts are there.
abbrev pub auth_step : SmtpForwarder → List (SmtpCommand × Error)
auth_step s =
    if str_eq s.username "" || str_eq s.password ""
    then []
    else (plain_auth s.username s.password s.smtp_server, "auth: ") ∷ []

-- The commands of `deliver`, each with the text its error is wrapped in.
unfoldable pub deliver : SmtpForwarder → String → String → List (SmtpCommand × Error)
deliver s to message =
    auth_step s
    ++ ((mail s.from, "MAIL FROM: ")
        ∷ (rcpt to, "RCPT TO: ")
        ∷ (open_data, "DATA: ")
        ∷ (write message, "writing message: ")
        ∷ (close_data, "closing DATA: ")
        ∷ (quit, "")
        ∷ [])

module _ (show : ℤ → String) where
  unfoldable pub address : SmtpForwarder → String
  address s = s.smtp_server <> ":" <> show s.smtp_port

module _ {W : Type 0} (smtp : Smtp W) where
  -- Commands in order, up to the first that fails.
  unfoldable pub perform : List (SmtpCommand × Error) → W → Option Error × W
  perform [] w = (none, w)
  perform ((command, prefix) ∷ script) w =
      let (e, w') = smtp.run command w in
      elim e [ none ↦ perform script w' | some e ↦ (some (prefix <> e), w') ]

  -- A connection, what is done on it, and the deferred `Close`, whose error is dropped.
  unfoldable pub connected : SmtpCommand × Error → List (SmtpCommand × Error) → W → Option Error × W
  unfolding perform
  connected (connect, prefix) script w =
      let (e, w') = smtp.run connect w in
      elim e [
        | some e ↦ (some (prefix <> e), w')
        | none ↦ let (result, w'') = perform script w' in (result, (smtp.run close w'').1)
      ]

  module _ (show : ℤ → String) where
    -- How a mode connects, and what it does before it delivers.
    unfoldable pub connect_step : SmtpForwarder → TlsMode → SmtpCommand × Error
    unfolding address
    connect_step s implicit_tls = (
      tls_dial (address show s) s.smtp_server s.tls_skip_verify,
      "TLS dial " <> address show s <> ": ",
    )
    connect_step s no_tls = (dial (address show s), "dialing " <> address show s <> ": ")
    connect_step s start_tls = (dial (address show s), "dialing " <> address show s <> ": ")

    unfoldable pub secure_steps : SmtpForwarder → TlsMode → List (SmtpCommand × Error)
    unfolding address
    secure_steps s implicit_tls =
        (new_client (smtp.host_of (address show s)), "creating SMTP client: ") ∷ []
    secure_steps s no_tls = []
    secure_steps s start_tls = (upgrade s.smtp_server s.tls_skip_verify, "STARTTLS: ") ∷ []

    unfoldable pub send_smtp : SmtpForwarder → Notification → W → Option Error × W
    unfolding fill_owner deliver connected connect_step secure_steps smtp_message
    send_smtp s n w =
        let to = fill_owner n.owner 0 s.to in
        connected (connect_step s s.tls_mode)
          (secure_steps s s.tls_mode ++ deliver s to (smtp_message show s.from to n)) w
