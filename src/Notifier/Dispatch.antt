-- ===== src/Notifier/Dispatch.antt =====
-- What a dispatch does, for any forwarders.
use ovro.Prelude.{◌≡◌, refl, ◌<>◌, String, not, none, some, List, [], ◌∷◌, arith, Error, filter}
use ovro.Notifier.{send_all, Notification, Forwarder, contains, append_error, send_all_except}

module _ {W : Type 0} (n : Notification) where
  -- A world through which every forwarder of the list has sent, in order, whatever failed before.
  abbrev pub after_sends : List (Forwarder W) → W → W
  after_sends [] w = w
  after_sends (fwd ∷ forwarders) w = after_sends forwarders (fwd.send n w).1

  -- The failures of these sends, in order, each under its forwarder's name.
  abbrev pub failures : List (Forwarder W) → W → List Error
  failures [] w = []
  failures (fwd ∷ forwarders) w =
      let (e, w') = fwd.send n w in
      elim e [
        | none ↦ failures forwarders w'
        | some text ↦ (fwd.name <> ": " <> text) ∷ failures forwarders w'
      ]

  -- The forwarders that an exclusion leaves.
  abbrev pub without : List String → List (Forwarder W) → List (Forwarder W)
  without exclude = filter (λ fwd. not (contains exclude fwd.name))

  append_error-failures :
      (fwd : Forwarder W) (forwarders : List (Forwarder W)) (w : W)
      → append_error fwd.name (fwd.send n w).0 (failures forwarders (fwd.send n w).1)
        ≡ failures (fwd ∷ forwarders) w
  append_error-failures fwd forwarders w = ground arith

  -- A dispatch that excludes some names sends through exactly the other forwarders, once each
  -- and in order, also after one of them has failed, and returns exactly the failures, in order.
  pub send_all_except-without :
      (forwarders : List (Forwarder W)) (exclude : List String) (w : W)
      → send_all_except forwarders n exclude w
        ≡ (failures (without exclude forwarders) w, after_sends (without exclude forwarders) w)
  unfolding send_all_except
  send_all_except-without [] exclude w = refl
  send_all_except-without (fwd ∷ forwarders) exclude w = ground (
    arith,
    send_all_except-without forwarders exclude w,
    send_all_except-without forwarders exclude (fwd.send n w).1,
  )

  -- A dispatch to all forwarders, likewise.
  pub send_all-failures :
      (forwarders : List (Forwarder W)) (w : W)
      → (failures forwarders w, after_sends forwarders w) ≡ send_all forwarders n w
  unfolding send_all
  send_all-failures [] w = refl
  send_all-failures (fwd ∷ forwarders) w =
      ground (arith, send_all-failures forwarders (fwd.send n w).1)
