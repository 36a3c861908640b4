-- ===== src/Server/Access/Cache.antt =====
-- The cache of access answers is transparent.
use ovro.Types.{Recommendation}
use ovro.Server.{UserInfo, Server}
use ovro.Server.Access.{
  lookup, filter_checked, check, Checked, can_user_access_namespace, filter_by_namespace_access,
}
use ovro.Prelude.{
  none, if◌then◌else◌, sym, eq_iff, inr, arith, ap, [], ◌∷◌, inl, some, filter, Option-cases, ◌≡◌,
  Option, List, Bool, String, refl,
}

-- What the cache holds agrees with what the server would answer.
abbrev pub Agrees : (String → Bool) → Checked → Type 0
Agrees ask [] = Unit
Agrees ask ((k, allowed) ∷ checked) = (ask k ≡ allowed) × Agrees ask checked

module _ (ask : String → Bool) where
  lookup-Agrees :
      (ns : String) (checked : Checked) (allowed : Bool)
      → Agrees ask checked
      → lookup ns checked ≡ some allowed
      → ask ns ≡ allowed
  unfolding lookup
  lookup-Agrees ns [] allowed a e = cc
  lookup-Agrees ns ((k, b) ∷ checked) allowed (a, as_) e =
      ground (arith, eq_iff k ns, lookup-Agrees ns checked allowed as_)

  check_lem :
      (ns : String) (checked : Checked)
      → Agrees ask checked
      → ((check ask ns checked).0 ≡ ask ns) × Agrees ask (check ask ns checked).1
  unfolding check
  check_lem ns checked a = elim (Option-cases (lookup ns checked)) [
    | inl e ↦ rw (e, check) (refl, (refl, a))
    | inr (b, e) ↦ rw (e, check) (sym (lookup-Agrees ns checked b a e), a)
  ]

  filter_checked_onto :
      {A : Type 0} (namespace_of : A → String) (checked : Checked) (items : List A)
      → Agrees ask checked
      → filter_checked namespace_of ask checked items
        ≡ filter (λ item. ask (namespace_of item)) items
  unfolding filter_checked
  filter_checked_onto namespace_of checked [] a = refl
  filter_checked_onto namespace_of checked (x ∷ items) a =
      let (hit, a') = check_lem (namespace_of x) checked a in
      rw hit (
        ap (λ rest. if ask (namespace_of x) then x ∷ rest else rest)
          (filter_checked_onto namespace_of (check ask (namespace_of x) checked).1 items a'))

module _ {F : Type 0} {W : Type 0} where
  -- The items that a user is shown are exactly those of the namespaces that the user may read,
  -- in their order and with every repetition; without a user there are none.
  pub filter_by_namespace_access_lem :
      (s : Server W) (user : Option UserInfo) (items : List (Recommendation F)) (w : W)
      → filter_by_namespace_access s user items w
        ≡ filter (λ item. can_user_access_namespace s user item.meta.namespace "get" w) items
  unfolding filter_by_namespace_access can_user_access_namespace
  filter_by_namespace_access_lem s none [] w = refl
  filter_by_namespace_access_lem s none (x ∷ items) w =
      filter_by_namespace_access_lem s none items w
  filter_by_namespace_access_lem s (some user) items w = filter_checked_onto _ _ [] items tt
