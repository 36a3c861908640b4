-- ===== src/Notifier/Smtp/Secrecy.antt =====
-- What goes over a mail server's connection, and in which order, for any mail server.
use ovro.Prelude.{refl}
use ovro.Server.Middleware.{equal_fold}
use ovro.Notifier.Http.{SecretGetter}
use ovro.Notifier.{ForwarderConfig, Notification}
use ovro.Prelude.Int.{ℤ}
use ovro.Notifier.Smtp.{
  start_tls, implicit_tls, address, dial, tls_mode_of, new_smtp_forwarder, TlsMode, no_tls,
  SmtpForwarder, secure_steps, connect_step, connected, send_smtp, write, rcpt, upgrade, mail,
  tls_dial, plain_auth, perform, SmtpCommand, Smtp,
}
use ovro.Prelude.{
  ◌++◌, ok, ◌≢◌, String, arith, inr, inl, Option-cases, ◌||◌, none, ◌&&◌, some, not, [], true,
  false, Error, ◌∷◌, Option, List, Bool, ◌≡◌,
}

-- What has been run, the latest first, with its outcome.
abbrev pub Log : Type 0
Log = List (SmtpCommand × Option Error)

-- A mail server that also keeps a log.
abbrev pub recording : {W : Type 0} → Smtp W → Smtp (Log × W)
recording smtp = record {
  run = λ command v.
      let (log, w) = v in let (e, w') = smtp.run command w in (e, ((command, e) ∷ log, w'));
  host_of = smtp.host_of;
}

-- The commands that make a connection encrypted.
abbrev pub encrypts : SmtpCommand → Bool
encrypts (tls_dial a server skip) = true
encrypts (upgrade server skip) = true
encrypts _ = false

-- The commands that carry the password, the addresses or the message with its approval link.
abbrev pub carries : SmtpCommand → Bool
carries (plain_auth username password host) = true
carries (mail a) = true
carries (rcpt a) = true
carries (write message) = true
carries _ = false

abbrev pub is_none : {A : Type 0} → Option A → Bool
is_none none = true
is_none (some a) = false

-- An encrypting command has succeeded.
abbrev pub is_encrypted : Log → Bool
is_encrypted [] = false
is_encrypted ((command, e) ∷ log) = (encrypts command && is_none e) || is_encrypted log

-- Everything that carries something was run after an encrypting command had succeeded.
abbrev pub is_secret : Log → Bool
is_secret [] = true
is_secret ((command, e) ∷ log) = (not (carries command) || is_encrypted log) && is_secret log

-- A configuration that does not ask for no encryption yields a mode that encrypts.
configured-mode :
    {V : Type 0} (config : ForwarderConfig) (secrets : SecretGetter V) (v : V) (s : SmtpForwarder)
    → new_smtp_forwarder config secrets v ≡ ok s
    → equal_fold config.smtp_tls "none" ≡ false
    → s.tls_mode ≢ no_tls
unfolding new_smtp_forwarder tls_mode_of
configured-mode config secrets v s e h m = ground arith

module _ {W : Type 0} (smtp : Smtp W) where
  abbrev pub logged : List (SmtpCommand × Error) → Log × W → Log
  logged script v = (perform (recording smtp) script v).1.0

  -- A command that succeeds, and one that fails.
  logged-none :
      (command : SmtpCommand) (prefix : Error) (script : List (SmtpCommand × Error)) (log : Log)
      (w : W)
      → (smtp.run command w).0 ≡ none
      → logged ((command, prefix) ∷ script) (log, w)
        ≡ logged script ((command, none) ∷ log, (smtp.run command w).1)
  unfolding perform
  logged-none command prefix script log w e = ground arith

  logged-some :
      (command : SmtpCommand) (prefix : Error) (script : List (SmtpCommand × Error)) (log : Log)
      (w : W) (x : Error)
      → (smtp.run command w).0 ≡ some x
      → logged ((command, prefix) ∷ script) (log, w) ≡ (command, some x) ∷ log
  unfolding perform
  logged-some command prefix script log w x e = ground arith

  -- Over an encrypted connection nothing can go wrong.
  perform-encrypted :
      (script : List (SmtpCommand × Error)) (log : Log) (w : W)
      → is_encrypted log ≡ true
      → is_secret log ≡ true
      → is_secret (logged script (log, w)) ≡ true
  unfolding perform
  perform-encrypted [] log w e s = s
  perform-encrypted ((command, prefix) ∷ script) log w e s =
      elim (Option-cases (smtp.run command w).0) [
        | inl n ↦ rw (logged-none command prefix script log w n) (
            perform-encrypted script ((command, none) ∷ log) (smtp.run command w).1 (ground arith)
              (ground arith))
        | inr (x, m) ↦ rw (logged-some command prefix script log w x m) (ground arith)
      ]

  -- A connection that is opened, used and closed.
  connected-is_secret :
      (command : SmtpCommand) (prefix : Error) (script : List (SmtpCommand × Error)) (w : W)
      → carries command ≡ false
      → ((smtp.run command w).0 ≡ none
          → is_secret (logged script ((command, none) ∷ [], (smtp.run command w).1)) ≡ true)
      → is_secret (connected (recording smtp) (command, prefix) script ([], w)).1.0 ≡ true
  unfolding connected
  connected-is_secret command prefix script w c h = elim (Option-cases (smtp.run command w).0) [
    | inl n ↦ ground (arith, h n)
    | inr (x, m) ↦ ground arith
  ]

  mode-is_secret :
      (show : ℤ → String) (s : SmtpForwarder) (mode : TlsMode) (rest : List (SmtpCommand × Error))
      (w : W)
      → mode ≢ no_tls
      → is_secret
          (connected
            (recording smtp)
            (connect_step (recording smtp) show s mode)
            (secure_steps (recording smtp) show s mode ++ rest)
            ([], w)).1.0
        ≡ true
  unfolding connect_step secure_steps
  mode-is_secret show s implicit_tls rest w h =
      connected-is_secret _ _ _ w refl (λ n. perform-encrypted _ _ _ refl refl)
  mode-is_secret show s no_tls rest w h = absurd (h refl)
  mode-is_secret show s start_tls rest w h = connected-is_secret _ _ _ w refl λ n.
      elim (Option-cases
        (smtp.run (upgrade s.smtp_server s.tls_skip_verify)
          (smtp.run (dial (address show s)) w).1).0) [
            | inl fine ↦ rw (logged-none _ _ _ _ _ fine) (perform-encrypted _ _ _ refl refl)
            | inr (x, failed) ↦ rw (logged-some _ _ _ _ _ x failed) refl
          ]

  -- Whatever the mail server answers: a forwarder that was configured with another TLS mode than
  -- "none", in any case of the letters, sends the password, the addresses and the message, which
  -- holds the approval link, only after the connection was opened over TLS or a STARTTLS on it
  -- has succeeded.
  pub send_smtp-is_secret :
      (show : ℤ → String) (config : ForwarderConfig) {V : Type 0} (secrets : SecretGetter V) (v : V)
      (s : SmtpForwarder) (n : Notification) (w : W)
      → new_smtp_forwarder config secrets v ≡ ok s
      → equal_fold config.smtp_tls "none" ≡ false
      → is_secret (send_smtp (recording smtp) show s n ([], w)).1.0 ≡ true
  unfolding send_smtp
  send_smtp-is_secret show config secrets v s n w e h =
      mode-is_secret show s s.tls_mode _ w (configured-mode config secrets v s e h)
