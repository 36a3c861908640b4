-- ===== src/Lifecycle/Invariant.antt =====
-- What holds of every recommendation through its life.
use ovro.Platform.Laws.{Writes, Objects}
use ovro.Prelude.{
  ◌≤◌, suc, ℕ, inr, some, inl, sym, subst, Option, Bool, true, false, ◌≡◌, ◌≢◌, none, arith,
  is_some,
}
use ovro.Types.{
  Time, Recommendation, NamespacedName, empty_status, RecommendationState, RecommendationStatus,
  unset, pending, awaiting_approval, applied_pending_restart, applied, reverted, failed,
}
use ovro.Lifecycle.{
  gone, respecified, moved, stay, next, born, Step, Life, Evolves, Transition, start, recalculate,
  expire, remind, route, apply, apply_later, fail, approve, approve_later, decline, restarted,
  restart_failed, revert,
}

-- The states before anybody was asked.
abbrev pub is_open : RecommendationState → Bool
is_open unset = true
is_open pending = true
is_open _ = false

-- The states that can only be reached once the configuration to revert to was recorded.
abbrev pub is_recorded : RecommendationState → Bool
is_recorded awaiting_approval = true
is_recorded applied_pending_restart = true
is_recorded applied = true
is_recorded reverted = true
is_recorded failed = true
is_recorded _ = false

pub record IsSound (s : RecommendationStatus) : Type 0 where
  -- Who waits has an owner, and a time from which the approval's clock runs.
  pub owned : s.state ≡ awaiting_approval → s.owner ≢ ""
  pub notified : s.state ≡ awaiting_approval → is_some s.notified_at ≡ true
  -- No owner, link or clock is left over where nobody is asked.
  pub no_owner : is_open s.state ≡ true → s.owner ≡ ""
  pub no_token : is_open s.state ≡ true → s.approval_token ≡ ""
  pub no_clock : is_open s.state ≡ true → s.notified_at ≡ none
  -- Whatever was applied can be reverted, and says when it was applied.
  pub recorded : is_recorded s.state ≡ true → is_some s.revert_config ≡ true
  pub dated : s.state ≡ applied → is_some s.applied_at ≡ true

-- Every move of the lifecycle takes a sound status to a sound one.
pub Transition-IsSound :
    {now : Time} {s t : RecommendationStatus} {k : ℕ} → Transition now s k t → IsSound s → IsSound t
Transition-IsSound (start t e) h = ground arith
Transition-IsSound (recalculate t e) h = ground arith
Transition-IsSound (expire t a e f) h = ground arith
Transition-IsSound (remind t n a e f g) h = ground arith
Transition-IsSound (route o k t c e n) h = ground arith
Transition-IsSound (apply t c e) h = ground arith
Transition-IsSound (apply_later x y c e) h = ground arith
Transition-IsSound (fail c m e) h = ground arith
Transition-IsSound (approve o t e) h = ground arith
Transition-IsSound (approve_later o t x y e) h = ground arith
Transition-IsSound (decline w r t e) h = ground arith
Transition-IsSound (restarted t e) h = ground arith
Transition-IsSound (restart_failed m e) h = ground arith
Transition-IsSound (revert e f) h = ground arith

born-IsSound : (s : RecommendationStatus) → s ≡ empty_status → IsSound s
born-IsSound s e = ground arith

module _ {F : Type 0} where
  -- The object under a key, if there is one, is sound.
  abbrev pub Holds : Option (Recommendation F) → Type 0
  Holds none = Unit
  Holds (some r) = IsSound r.status

  abbrev pub AllSound : Objects F → Type 0
  AllSound objects = (k : NamespacedName) → Holds (objects k)

  Step-Holds :
      {now : Time} {k : ℕ} {o p : Option (Recommendation F)} → Step now k o p → Holds o → Holds p
  Step-Holds (born r e) h = born-IsSound r.status e
  Step-Holds (moved r k t m) h = Transition-IsSound m h
  Step-Holds (respecified r r' e s v c) h = subst IsSound (sym s) h
  Step-Holds (gone r e) h = tt

  pub Life-Holds :
      {now : Time} {m n : ℕ} {o p : Option (Recommendation F)}
      → Life now m n o p
      → Holds o
      → Holds p
  Life-Holds stay h = h
  Life-Holds (next a b s l) h = Life-Holds l (Step-Holds s h)

  -- Soundness of the whole store survives whatever evolves it.
  pub Evolves-AllSound :
      {now : Time} {m n : ℕ} {before after : Objects F}
      → Evolves now m n before after
      → AllSound before
      → AllSound after
  Evolves-AllSound e h k = Life-Holds (e k) (h k)

  Life-later :
      {now : Time} {m n l : ℕ} {o p : Option (Recommendation F)}
      → m ≤ n
      → Life now n l o p
      → Life now m l o p
  Life-later h stay = stay
  Life-later h (next a b s l) = next (omega (arith, h, a)) b s l

  Life-trans :
      {now : Time} {m n l : ℕ} {o p q : Option (Recommendation F)}
      → m ≤ n
      → n ≤ l
      → Life now m n o p
      → Life now n l p q
      → Life now m l o q
  Life-trans h i stay g = Life-later h g
  Life-trans h i (next a b s f) g =
      next a (omega (arith, b, i)) s (Life-trans (omega (arith, b)) i f g)

  -- What is done through some stages, and then through later ones.
  pub Evolves-trans :
      {now : Time} {m n l : ℕ} {before between after : Objects F}
      → m ≤ n
      → n ≤ l
      → Evolves now m n before between
      → Evolves now n l between after
      → Evolves now m l before after
  Evolves-trans h i e f k = Life-trans h i (e k) (f k)

  pub Evolves-refl : {now : Time} {m n : ℕ} (objects : Objects F) → Evolves now m n objects objects
  Evolves-refl objects k = stay

  -- Fewer stages are among more.
  pub Evolves-within :
      {now : Time} {m n l o : ℕ} {before after : Objects F}
      → l ≤ m
      → m ≤ n
      → n ≤ o
      → Evolves now m n before after
      → Evolves now l o before after
  Evolves-within {now} {m} {n} {l} {o} {before} {after} g h i e k =
      Life-later g (Life-trans h i (e k) stay)

  pub Evolves-of_eq :
      {now : Time} {m n : ℕ} {before after : Objects F}
      → after ≡ before
      → Evolves now m n before after
  Evolves-of_eq {now} {m} {n} {before} {after} e =
      subst (Evolves now m n before) (sym e) (Evolves-refl before)

  -- One write under one key, whose effect is a step, evolves the store.
  pub Writes-Evolves :
      {now : Time} {j : ℕ} {before after : Objects F} (key : NamespacedName)
      (new : Option (Recommendation F))
      → Writes before after key new
      → Step now j (before key) new
      → Evolves now j (suc j) before after
  Writes-Evolves {now} {j} {before} {after} key new wr st k = elim (wr k) [
    | inl same ↦ rw same stay
    | inr (at, e) ↦ rw (e, at) (next (omega arith) (omega arith) st stay)
  ]
