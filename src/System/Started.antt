-- ===== src/System/Started.antt =====
-- The program as `main` starts it: what `System` shows, with the forwarders of the configuration.
use ovro.Server.Lifecycle.Applying.{AreQuiet}
use ovro.Program.Wiring.{no_dispatcher, from_configs, start-IsConsistent, Origin}
use ovro.Notifier.{Forwarder}
use ovro.Lifecycle.Invariant.{AllSound}
use ovro.Notifier.Smtp.{SmtpCommand}
use ovro.Notifier.Registry.Quiet.{new_dispatcher-IsSilent, Keeps}
use ovro.Notifier.Http.{HttpRequest}
use ovro.Controller.Recommend.{Querier}
use ovro.Prelude.{none, some, sym, subst, ok, List, ◌≡◌, Option, String}
use ovro.Server.{Clientset}
use ovro.Prelude.Int.{ℤ}
use ovro.Notifier.Registry.{Outside}
use ovro.Platform.Laws.{IsLawful}
use ovro.Token.{Jwt}
use ovro.Platform.{Platform}
use ovro.Floats.{Floats}
use ovro.System.{Run-AllSound, Setup, Run}
use ovro.Program.{Wired, Settings, start}

module _ (Fl : Floats) (P : Platform Fl.F) (J : Jwt) (L : IsLawful P) where
  open L use {objects}

  Origin-AreQuiet :
      (o : Outside P.World) (clientset : Clientset P.World) (e : Settings) (w : P.World)
      → ((request : HttpRequest) → Keeps objects (o.http.send request))
      → ((command : SmtpCommand) → Keeps objects (o.smtp.run command))
      → (d : Option (List (Forwarder P.World))) → Origin o clientset e w d
      → AreQuiet P L d
  Origin-AreQuiet o clientset e w h k none no_dispatcher = tt
  Origin-AreQuiet o clientset e w h k (some d) (from_configs configs fs r) =
      new_dispatcher-IsSilent objects o h k configs w fs r

  -- A set-up of what a start yields.
  abbrev pub setup_of : (ℤ → String) → Querier P.World Fl.F → Wired P.World → Setup Fl P
  setup_of show query p = record {
    server = p.server;
    reconciler = p.reconciler;
    query = query;
    show = show;
  }

  -- On a platform that meets the assumptions of `IsLawful`, where HTTP requests and mail leave the
  -- recommendations alone: whatever the flags, the environment, the secrets and the notification
  -- file hold, a program that starts takes a store of sound recommendations only to stores of
  -- sound recommendations, by any history of requests, reconciliations and other events that leave
  -- the recommendations alone.
  pub start-AllSound :
      (o : Outside P.World) (clientset : Clientset P.World) (e : Settings) (w : P.World)
      (show : ℤ → String) (query : Querier P.World Fl.F) (p : Wired P.World)
      → ((request : HttpRequest) → Keeps objects (o.http.send request))
      → ((command : SmtpCommand) → Keeps objects (o.smtp.run command))
      → start o clientset e w ≡ ok p
      → {u v : P.World} → Run Fl P J L (setup_of show query p) u v
      → AllSound (objects u)
      → AllSound (objects v)
  start-AllSound o clientset e w show query p h k r run sound =
      let c = start-IsConsistent o clientset e w p r in
      let q = Origin-AreQuiet o clientset e w h k p.reconciler.notifier c.1.1.1.1 in
      Run-AllSound Fl P J L (setup_of show query p) (subst (AreQuiet P L) (sym c.1.0) q) q run sound
