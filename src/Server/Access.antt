-- ===== src/Server/Access.antt =====
-- handlers.go: `canUserAccessNamespace`, and `filterByNamespaceAccess` with its cache of answers.
pub mod Cache
use ovro.Prelude.{
  String, Bool, false, Option, none, some, List, [], ◌∷◌, ok, err, str_eq, if◌then◌else◌,
}
use ovro.Types.{Recommendation}
use ovro.Server.{Server, UserInfo}

module _ {W : Type 0} where
  -- `user` is nil where the middleware has put none into the context.
  unfoldable pub can_user_access_namespace : Server W → Option UserInfo → String → String → W → Bool
  can_user_access_namespace s none namespace verb w = false
  can_user_access_namespace s (some user) namespace verb w = elim s.clientset [
    | none ↦ false
    | some clientset ↦
        elim (clientset.access_review
          (record {
            user = user.username;
            groups = user.groups;
            verb = verb;
            group = "rightsizing.redhatconsulting.io";
            resource = "rightsizingrecommendations";
            namespace = namespace;
          })
          w) [ ok allowed ↦ allowed | err e ↦ false ]
  ]

-- `checked[ns]` of the cache, a map from namespaces to answers.
abbrev pub Checked : Type 0
Checked = List (String × Bool)

unfoldable pub lookup : String → Checked → Option Bool
lookup ns [] = none
lookup ns ((k, allowed) ∷ checked) = if str_eq k ns then some allowed else lookup ns checked

-- The answer for a namespace, and the cache that holds it.
unfoldable pub check : (String → Bool) → String → Checked → Bool × Checked
unfolding lookup
check ask ns checked = elim (lookup ns checked) [
  | some allowed ↦ (allowed, checked)
  | none ↦ (ask ns, (ns, ask ns) ∷ checked)
]

-- The loop over the items, which asks once for each namespace.
module _ {A : Type 0} (namespace_of : A → String) (ask : String → Bool) where
  unfoldable pub filter_checked : Checked → List A → List A
  unfolding check
  filter_checked checked [] = []
  filter_checked checked (item ∷ items) =
      let (allowed, checked') = check ask (namespace_of item) checked in
      let rest = filter_checked checked' items in if allowed then item ∷ rest else rest

module _ {F : Type 0} {W : Type 0} where
  unfoldable pub filter_by_namespace_access :
      Server W → Option UserInfo → List (Recommendation F) → W → List (Recommendation F)
  unfolding filter_checked
  filter_by_namespace_access s none items w = []
  filter_by_namespace_access s (some user) items w =
      filter_checked (λ item. item.meta.namespace)
        (λ ns. can_user_access_namespace s (some user) ns "get" w) [] items
