-- ===== src/Notifier/Slack/Channel.antt =====
-- Where a Slack message goes.
use ovro.Server.Middleware.{cut_at}
use mathlib.Core.Bool.{false≢true}
use ovro.Notifier.Http.{Http}
use ovro.Notifier.Slack.{
  lookup_user_by_email, found_user, has_first, SlackForwarder, lookup_owner, resolve_channel,
}
use ovro.Prelude.{
  eq_iff, subst, Option-cases, inl, err, ◌||◌, inr, some, Result, Bool-cases, ok, arith, true,
  false, ◌≡◌, str_eq, ℕ, String,
}

module _ {W : Type 0} (http : Http W) where
  has_first-empty : (s : String) (n : ℕ) → has_first n s ≡ true → str_eq s "" ≡ false
  has_first-empty s n h = elim (Bool-cases (str_eq s "")) [
    | inr f ↦ f
    | inl e ↦ absurd (false≢true (subst (λ t. has_first n t ≡ true) ((eq_iff s "").0 e) h))
  ]

  found_user-some :
      (r : Result String) (id : String) → found_user http r ≡ some id → str_eq id "" ≡ false
  found_user-some (err e) id h = ground arith
  found_user-some (ok a) id h = ground arith

  lookup_owner-some :
      (s : SlackForwarder) (owner id : String) (w : W)
      → (lookup_owner http s owner w).0 ≡ some id
      → str_eq id "" ≡ false
  unfolding lookup_owner
  lookup_owner-some s owner id w h = elim (Option-cases (cut_at 64 owner)) [
    | inl n ↦ ground arith
    | inr ((username, domain), e) ↦
        let first = lookup_user_by_email http s username w in
        let second = lookup_user_by_email http s owner first.1 in
        elim (Option-cases (found_user http first.0)) [
          | inr (id', f) ↦
              subst (λ i. str_eq i "" ≡ false) (ground arith) (found_user-some first.0 id' f)
          | inl n ↦ found_user-some second.0 id (ground arith)
        ]
  ]

  -- Whatever Slack answers: a message goes to a channel that is not empty, and with a fallback
  -- channel there is always one.
  pub resolve_channel_some :
      (s : SlackForwarder) (owner : String) (w : W)
      → str_eq s.fallback_channel "" ≡ false
      → (channel : String) × (((resolve_channel http s owner w).0 ≡ ok channel)
          × (str_eq channel "" ≡ false))
  unfolding resolve_channel
  resolve_channel_some s owner w h = elim (Bool-cases (has_first 35 owner || has_first 67 owner)) [
    | inl direct ↦ (
      owner,
      (
        ground arith,
        elim (Bool-cases (has_first 35 owner)) [
          | inl y ↦ has_first-empty owner 35 y
          | inr n ↦ has_first-empty owner 67 (ground arith)
        ],
      ),
    )
    | inr other ↦ elim (Option-cases (lookup_owner http s owner w).0) [
      | inl nobody ↦ (s.fallback_channel, (ground arith, h))
      | inr (id, found) ↦ (id, (ground arith, lookup_owner-some s owner id w found))
    ]
  ]
