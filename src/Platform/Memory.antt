-- ===== src/Platform/Memory.antt =====
-- A cluster in memory, which meets the assumptions: the recommendations and the VMs are functions,
-- the clock stands still, and no call fails unless the world says that writes do.
use ovro.Prelude.Int.{pos, ◌*ℤ◌}
use ovro.Types.Policy.{PolicySpec}
use ovro.Platform.{Platform, VmPatch, found, not_found, VirtualMachine, Fetched}
use ovro.Platform.Laws.{IsLawful, Writes, Objects}
use ovro.Types.{quantity, gi, empty_status, Labels, Time, Recommendation, NamespacedName}
use mathlib.Core.Option.{some-injective}
use ovro.Prelude.{
  ◌∷◌, err-ne-ok, ◌∙◌, [], ok-injective, refl, subst, inr, sym, inl, Bool-cases, ap, ok, eq_iff,
  List, ◌&&◌, err, arith, true, str_eq, none, ◌≡◌, some, if◌then◌else◌, Result, Bool, Option,
  String,
}

module _ (F : Type 0) where
  pub record Cluster : Type 0 where
    pub clock : Time
    pub items : Objects F
    pub policy : Option PolicySpec
    pub vms : NamespacedName → Option VirtualMachine
    pub namespaces : String → Option Labels
    -- What the VMs were patched with, newest first.
    pub patches : List (NamespacedName × VmPatch)
    pub writable : Bool

abbrev pub same_name : NamespacedName → NamespacedName → Bool
same_name a b = str_eq a.namespace b.namespace && str_eq a.name b.name

same_name_eq : (a b : NamespacedName) → same_name a b ≡ true → a ≡ b
same_name_eq a b h = ground (arith, eq_iff a.namespace b.namespace, eq_iff a.name b.name)

pub same_name_refl : (a : NamespacedName) → same_name a a ≡ true
same_name_refl a = ground (arith, eq_iff a.namespace a.namespace, eq_iff a.name a.name)

abbrev pub fetched {ℓ} : {A : Type ℓ} → Option A → Fetched A
fetched none = not_found
fetched (some a) = found a

pub fetched-found {ℓ} : {A : Type ℓ} (o : Option A) (a : A) → fetched o ≡ found a → o ≡ some a
fetched-found none a h = cc
fetched-found (some b) a h = cc

pub fetched-not_found {ℓ} : {A : Type ℓ} (o : Option A) → fetched o ≡ not_found → o ≡ none
fetched-not_found none h = refl
fetched-not_found (some b) h = cc

module _ {F : Type 0} where
  -- An object is stored under its own name.
  abbrev pub named : NamespacedName → Option (Recommendation F) → Option (Recommendation F)
  named k none = none
  named k (some r) = some (record r { meta = k })

  abbrev pub held : Cluster F → Objects F
  held c k = named k (c.items k)

  abbrev pub put : NamespacedName → Option (Recommendation F) → Cluster F → Cluster F
  put k o c = record c { items = λ j. if same_name j k then o else c.items j }

  -- A write that needs the object, and one that needs its absence.
  abbrev pub rewrite :
      (Recommendation F → Recommendation F)
      → NamespacedName
      → Cluster F
      → Result (Recommendation F) × Cluster F
  rewrite f k c =
      let o = held c k in
      if c.writable
      then elim o [ none ↦ (err "not found", c) | some old ↦ (ok (f old), put k (some (f old)) c) ]
      else (err "unavailable", c)

  put-Writes :
      (k : NamespacedName) (o : Option (Recommendation F)) (c : Cluster F)
      → Writes (held c) (held (put k o c)) k (named k o)
  put-Writes k o c j = elim (Bool-cases (same_name j k)) [
    | inl e ↦ inr (same_name_eq j k e, rw e (ap (λ i. named i o) (same_name_eq j k e)))
    | inr e ↦ inl (rw e)
  ]

  held-put :
      (k : NamespacedName) (o : Option (Recommendation F)) (c : Cluster F)
      → held (put k o c) k ≡ named k o
  held-put k o c = rw (same_name_refl k)

  keep-Writes :
      (k : NamespacedName) (o : Option (Recommendation F)) (c : Cluster F)
      → Writes (held c) (held c) k o
  keep-Writes k o c j = inl refl

  pub named_meta :
      (k : NamespacedName) (o : Option (Recommendation F)) (r : Recommendation F)
      → named k o ≡ some r
      → r.meta ≡ k
  named_meta k none r e = cc
  named_meta k (some x) r e = ap (λ (y : Recommendation F). y.meta) (sym (some-injective _ r e))

  named-some : (k : NamespacedName) (r : Recommendation F) → r.meta ≡ k → named k (some r) ≡ some r
  named-some k r m = ap (λ i. some (record r { meta = i })) (sym m)

  -- Rewriting what is held is a write of the rewritten object, which keeps its name.
  pub rewrite-Writes :
      (f : Recommendation F → Recommendation F) (k : NamespacedName) (c : Cluster F)
      (old : Recommendation F)
      → held c k ≡ some old
      → (f old).meta ≡ k
      → Writes (held c) (held (rewrite f k c).1) k (some (f old))
  rewrite-Writes f k c old e m = elim (Bool-cases c.writable) [
    | inl w ↦
        rw (e, w)
          (subst (Writes (held c) (held (put k (some (f old)) c)) k) (named-some k (f old) m)
            (put-Writes k (some (f old)) c))
    | inr w ↦ rw w (keep-Writes k (some (f old)) c)
  ]

  pub rewrite_ok :
      (f : Recommendation F → Recommendation F) (k : NamespacedName) (c : Cluster F)
      (old r : Recommendation F)
      → held c k ≡ some old
      → (f old).meta ≡ k
      → (rewrite f k c).0 ≡ ok r
      → (r ≡ f old) × (held (rewrite f k c).1 k ≡ some r)
  rewrite_ok f k c old r e m h = elim (Bool-cases c.writable) [
    | inl w ↦
        let same = ok-injective (f old) r (rw (e, w) at h) in
        (sym same, rw (e, w) (held-put k (some (f old)) c ∙ named-some k (f old) m ∙ ap some same))
    | inr w ↦ elim (err-ne-ok "unavailable" r (rw w at h)) [ ]
  ]

  abbrev pub created : Recommendation F → Cluster F → Result (Recommendation F) × Cluster F
  created r c =
      let new = record r { status = empty_status } in
      if c.writable then (ok new, put r.meta (some new) c) else (err "unavailable", c)

  pub created-Writes :
      (r : Recommendation F) (c : Cluster F)
      → Writes (held c) (held (created r c).1) r.meta (some (record r { status = empty_status }))
  created-Writes r c = elim (Bool-cases c.writable) [
    | inl w ↦ rw w (put-Writes r.meta (some (record r { status = empty_status })) c)
    | inr w ↦ rw w (keep-Writes r.meta _ c)
  ]

  pub created_ok :
      (r r' : Recommendation F) (c : Cluster F)
      → (created r c).0 ≡ ok r'
      → (r' ≡ record r { status = empty_status }) × (held (created r c).1 r.meta ≡ some r')
  created_ok r r' c h = elim (Bool-cases c.writable) [
    | inl w ↦
        let same = ok-injective (record r { status = empty_status }) r' (rw w at h) in
        (
          sym same,
          rw w (held-put r.meta (some (record r { status = empty_status })) c ∙ ap some same),
        )
    | inr w ↦ elim (err-ne-ok "unavailable" r' (rw w at h)) [ ]
  ]

  abbrev pub memory : Platform F
  memory = record {
    World = Cluster F;
    now = λ c. c.clock;
    timestamp = λ c. c.clock;
    get_policy = λ c. fetched c.policy;
    update_policy =
        λ p c. if c.writable then (ok p, record c { policy = some p }) else (err "unavailable", c);
    get_rec = λ k c. fetched (held c k);
    list_recs = λ ns c. ok [];
    create_rec = created;
    update_rec = λ r c. rewrite (λ old. record r { status = old.status }) r.meta c;
    update_status = λ r c. rewrite (λ old. record old { status = r.status }) r.meta c;
    delete_rec = λ r c. if c.writable then (none, put r.meta none c) else (some "unavailable", c);
    get_vm = λ k c. fetched (c.vms k);
    list_vms = λ c. ok [];
    get_namespace = λ n c. fetched (c.namespaces n);
    patch_vm = λ k p c.
        if c.writable
        then (none, record c { patches = (k, p) ∷ c.patches })
        else (some "unavailable", c);
    quantity_value = elim [ gi n ↦ n *ℤ pos 1073741824 | quantity s ↦ pos 0 ];
    parse_quantity = λ s. none;
    parse_rfc3339 = λ s. if str_eq s "2026-01-01T00:00:00Z" then some 5000 else none;
  }

  pub deleted-Writes :
      (r : Recommendation F) (c : Cluster F)
      → Writes (held c) (held (memory.delete_rec r c).1) r.meta none
  deleted-Writes r c = elim (Bool-cases c.writable) [
    | inl w ↦ rw w (put-Writes r.meta none c)
    | inr w ↦ rw w (keep-Writes r.meta none c)
  ]

  pub policy-held : (p : PolicySpec) (c : Cluster F) → held (memory.update_policy p c).1 ≡ held c
  policy-held p c = ground arith

  pub patch-held :
      (k : NamespacedName) (p : VmPatch) (c : Cluster F) → held (memory.patch_vm k p c).1 ≡ held c
  patch-held k p c = ground arith

  -- The cluster in memory meets the assumptions.
  unfoldable pub memory-IsLawful : IsLawful memory
  memory-IsLawful = record {
    objects = held;
    get_rec_found =
        λ k c r h. let e = fetched-found (held c k) r h in (e, named_meta k (c.items k) r e);
    get_rec_missing = λ k c h. fetched-not_found (held c k) h;
    create_rec-Writes = λ r c h. created-Writes r c;
    create_rec_ok = created_ok;
    update_rec-Writes = λ r old c e. rewrite-Writes _ r.meta c old e refl;
    update_rec_ok = λ r r' old c e h. rewrite_ok _ r.meta c old r' e refl h;
    update_status-Writes = λ r old c e. rewrite-Writes _ r.meta c old e (named_meta r.meta _ old e);
    update_status_ok =
        λ r r' old c e h. rewrite_ok _ r.meta c old r' e (named_meta r.meta _ old e) h;
    delete_rec-Writes = deleted-Writes;
    update_policy-objects = policy-held;
    patch_vm-objects = patch-held;
  }
