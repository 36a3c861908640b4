-- ===== src/Notifier/Registry/Excluded.antt =====
-- The forwarders of a configuration by their names, and what an exclusion leaves of them.
use ovro.Notifier.Dispatch.{send_all-failures, send_all_except-without, without}
use ovro.Notifier.Registry.Configured.{
  no_configs, new_forwarder-name, registers, unknown, new_forwarder-known, new_dispatcher-Builds,
  disabled, Builds-new_dispatcher, is_registered, Builds,
}
use ovro.Notifier.{contains, send_all, Notification, send_all_except, ForwarderConfig, Forwarder}
use ovro.Prelude.{
  sym, inr, inl, ap, ◌∙◌, Bool-cases, ◌∷◌, some, arith, true, ok, not, none, false, ◌≡◌, map,
  filter, String, Bool, List, refl,
}
use ovro.Notifier.Registry.{new_forwarder, Outside, new_dispatcher}

-- The configurations of a type that is not excluded.
abbrev pub configs_without : List String → List ForwarderConfig → List ForwarderConfig
configs_without exclude = filter (λ c. not (contains exclude c.kind))

abbrev pub names : {W : Type 0} → List (Forwarder W) → List String
names = map (λ f. f.name)

abbrev pub kinds : List ForwarderConfig → List String
kinds = map (λ c. c.kind)

module _ {W : Type 0} (o : Outside W) where
  filter-skip :
      {A : Type 0} (keep : A → Bool) (a : A) (xs : List A)
      → keep a ≡ false
      → filter keep (a ∷ xs) ≡ filter keep xs
  filter-skip keep a xs e = rw e refl

  filter-keep :
      {A : Type 0} (keep : A → Bool) (a : A) (xs : List A)
      → keep a ≡ true
      → filter keep (a ∷ xs) ≡ a ∷ filter keep xs
  filter-keep keep a xs e = rw e refl

  unknown-is_registered :
      (c : ForwarderConfig) (w : W) → new_forwarder o c w ≡ none → is_registered o c ≡ false
  unknown-is_registered c w e = ground (arith, new_forwarder-known o c w)

  known-is_registered :
      (c : ForwarderConfig) (w : W) (f : Forwarder W)
      → c.enabled ≡ true
      → new_forwarder o c w ≡ some (ok f)
      → is_registered o c ≡ true
  known-is_registered c w f on e = ground (arith, new_forwarder-known o c w)

  Builds-names :
      {w : W} {configs : List ForwarderConfig} {fs : List (Forwarder W)}
      → Builds o w configs fs
      → names fs ≡ kinds (filter (is_registered o) configs)
  Builds-names no_configs = refl
  Builds-names (disabled c {configs} off b) =
      Builds-names b ∙ ap kinds (sym (filter-skip (is_registered o) c configs (ground arith)))
  Builds-names {w} (unknown c {configs} missing b) =
      Builds-names b
      ∙ ap kinds (sym (filter-skip (is_registered o) c configs (unknown-is_registered c w missing)))
  Builds-names {w} (registers c f {configs} {fs} on m b) =
      ap (λ n. n ∷ names fs) (new_forwarder-name o c w f m)
      ∙ (ap (λ ns. c.kind ∷ ns) (Builds-names b)
          ∙ ap kinds
              (sym (filter-keep (is_registered o) c configs (known-is_registered c w f on m))))

  Builds-without :
      (exclude : List String) {w : W} {configs : List ForwarderConfig} {fs : List (Forwarder W)}
      (n : Notification)
      → Builds o w configs fs
      → Builds o w (configs_without exclude configs) (without n exclude fs)
  Builds-without exclude n no_configs = no_configs
  Builds-without exclude n (disabled c off b) = elim (Bool-cases (contains exclude c.kind)) [
    | inl x ↦ rw x (Builds-without exclude n b)
    | inr y ↦ rw y (disabled c off (Builds-without exclude n b))
  ]
  Builds-without exclude n (unknown c missing b) = elim (Bool-cases (contains exclude c.kind)) [
    | inl x ↦ rw x (Builds-without exclude n b)
    | inr y ↦ rw y (unknown c missing (Builds-without exclude n b))
  ]
  Builds-without exclude {w} n (registers c f on m b) =
      elim (Bool-cases (contains exclude c.kind)) [
        | inl x ↦
            rw (x, ap (contains exclude) (new_forwarder-name o c w f m) ∙ x)
              (Builds-without exclude n b)
        | inr y ↦
            rw (y, ap (contains exclude) (new_forwarder-name o c w f m) ∙ y)
              (registers c f on m (Builds-without exclude n b))
      ]

  -- The forwarders that a configuration yields are named by the types of its enabled entries of a
  -- known type, in order: disabled entries and those of an unknown type yield none.
  pub new_dispatcher-names :
      (configs : List ForwarderConfig) (w : W) (fs : List (Forwarder W))
      → new_dispatcher o configs w ≡ ok fs
      → names fs ≡ kinds (filter (is_registered o) configs)
  new_dispatcher-names configs w fs e = Builds-names (new_dispatcher-Builds o configs w fs e)

  -- Where a configuration yields a dispatcher, a dispatch that excludes some types does exactly
  -- what a dispatch to all would do with the dispatcher that the configuration without the entries
  -- of these types yields, and that configuration yields one.
  pub new_dispatcher-send_all_except :
      (configs : List ForwarderConfig) (exclude : List String) (n : Notification) (w v : W)
      (fs : List (Forwarder W))
      → new_dispatcher o configs w ≡ ok fs
      → (gs : List (Forwarder W)) × ((new_dispatcher o (configs_without exclude configs) w ≡ ok gs)
          × (send_all_except fs n exclude v ≡ send_all gs n v))
  unfolding send_all_except send_all
  new_dispatcher-send_all_except configs exclude n w v fs e = (
    without n exclude fs,
    (
      Builds-new_dispatcher o (Builds-without exclude n (new_dispatcher-Builds o configs w fs e)),
      send_all_except-without n fs exclude v ∙ send_all-failures n (without n exclude fs) v,
    ),
  )
