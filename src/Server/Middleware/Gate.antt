-- ===== src/Server/Middleware/Gate.antt =====
-- Who gets through the gate.
use ovro.Server.Middleware.{review_of, extract_bearer_token, Request, auth_middleware}
use ovro.Server.{Response, UserInfo, Clientset}
use ovro.Prelude.{
  ap, ◌∙◌, Result-cases, Option-cases, inr, arith, inl, str_eq, true, Bool-cases, some, ◌⊎◌, ok,
  ◌≤◌, ◌≡◌, Option, refl,
}

module _ {W : Type 0} where
  -- A request of a user whom the API server knows by the request's token, and whom it allows what the
  -- request's method and path ask for.
  pub record IsAdmitted (c : Clientset W) (r : Request) (w : W) (user : UserInfo) : Type 0 where
    pub known : c.token_review (extract_bearer_token r) w ≡ ok (some user)
    pub allowed : c.access_review (review_of user r) w ≡ ok true

module _ {F W : Type 0} where
  -- Every request is either answered with a code from 400 on and leaves the world as it is, or it is
  -- that of an admitted user and is what the handler makes of it with this user.
  pub auth_middleware-IsAdmitted :
      (clientset : Option (Clientset W)) (next : UserInfo → W → Response F × W) (r : Request)
      (w : W)
      → ((400 ≤ (auth_middleware clientset next r w).0.code)
          × ((auth_middleware clientset next r w).1 ≡ w))
        ⊎ ((c : Clientset W) × (user : UserInfo) × (clientset ≡ some c)
            × IsAdmitted c r w user
            × (auth_middleware clientset next r w ≡ next user w))
  unfolding auth_middleware
  auth_middleware-IsAdmitted clientset next r w =
      elim (Bool-cases (str_eq (extract_bearer_token r) "")) [
        | inl e ↦ inl (rw (e, auth_middleware) (omega arith, refl))
        | inr e ↦ elim (Option-cases clientset) [
          | inl f ↦ inl (rw (e, auth_middleware) (rw f (omega arith, refl)))
          | inr (c, f) ↦ elim (Result-cases (c.token_review (extract_bearer_token r) w)) [
            | inr (text, k) ↦ inl (rw (e, auth_middleware) (rw f (rw k (omega arith, refl))))
            | inl (review, k) ↦ elim (Option-cases review) [
              | inl m ↦ inl (rw (e, auth_middleware) (rw f (rw k (rw m (omega arith, refl)))))
              | inr (user, m) ↦ elim (Result-cases (c.access_review (review_of user r) w)) [
                | inr (text, a) ↦
                    inl (rw (e, auth_middleware) (rw f (rw k (rw m (rw a (omega arith, refl))))))
                | inl (allowed, a) ↦ elim (Bool-cases allowed) [
                  | inr n ↦ inl (
                      rw (e, auth_middleware)
                        (rw f (rw k (rw m (rw a (rw n (omega arith, refl)))))))
                  | inl y ↦ inr (
                    c,
                    user,
                    f,
                    record { known = k ∙ ap ok m; allowed = a ∙ ap ok y },
                    rw (e, auth_middleware) (rw f (rw k (rw m (rw a (rw y refl))))),
                  )
                ]
              ]
            ]
          ]
        ]
      ]
