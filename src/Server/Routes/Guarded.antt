-- ===== src/Server/Routes/Guarded.antt =====
-- Which requests reach a handler.
use ovro.Server.{UserInfo, Clientset, http_error, Response, Server}
use mathlib.Core.Bool.{false≢true}
use ovro.Server.Routes.{serve_guarded, taken}
use ovro.Server.Middleware.Gate.{auth_middleware-IsAdmitted, IsAdmitted}
use ovro.Token.{Jwt}
use ovro.Platform.{Platform}
use Prim.Native.Nat.{zero, suc}
use ovro.Prelude.{◌∙◌, sym, [], subst, false, ◌∷◌, none, arith, some, inr, inl, get_elem?, refl}
use ovro.Server.Middleware.{auth_middleware, cut_at, Request}
use ovro.Server.Routes.{
  handle, Inputs, Routed, no_route, auth, routes, Handler, Route, Mux, serve_http,
}
use ovro.Prelude.{true, starts_with, ◌⊎◌, ℕ, ◌≤◌, List, String, All, ◌≡◌}

abbrev pub internal : String
internal = "/api/v1/internal/"

-- net/http: a mux picks a route of its table, and the text of its pattern before the first wildcard
-- begins the request's path.
pub record IsMux (mux : Mux) : Type 0 where
  pub picks :
      (table : List Route) (r : Request) (found : Route) (namespace name : String)
      → mux table r ≡ taken found namespace name
      → (n : ℕ) × (get_elem? table n ≡ some found)
  pub literal :
      (table : List Route) (r : Request) (found : Route) (namespace name : String) (t : String)
      → mux table r ≡ taken found namespace name
      → cut_at 123 t ≡ none
      → starts_with found.pattern t ≡ true
      → starts_with r.path t ≡ true

Routed-cases :
    (o : Routed)
    → ((code : ℕ) × (o ≡ no_route code))
      ⊎ ((found : Route) × (namespace : String) × (name : String) × (o
            ≡ taken found namespace name))
Routed-cases (no_route code) = inl (code, refl)
Routed-cases (taken found namespace name) = inr (found, namespace, name, refl)

-- Only routes under the internal prefix are open.
abbrev IsGuarded : Route → Type 0
IsGuarded found =
    ((h : Handler) × (found.guard ≡ auth h)) ⊎ (starts_with found.pattern internal ≡ true)

routes-IsGuarded : All IsGuarded routes
routes-IsGuarded = (
  inl (_, refl),
  (
    inl (_, refl),
    (
      inl (_, refl),
      (
        inl (_, refl),
        (
          inl (_, refl),
          (
            inl (_, refl),
            (
              inl (_, refl),
              (
                inl (_, refl),
                (
                  inl (_, refl),
                  (inl (_, refl), (inl (_, refl), (inr refl, (inr refl, (inr refl, tt))))),
                ),
              ),
            ),
          ),
        ),
      ),
    ),
  ),
)

All-get_elem? :
    {A : Type 0} (Q : A → Type 0) (xs : List A) (n : ℕ) (x : A)
    → All Q xs
    → get_elem? xs n ≡ some x
    → Q x
All-get_elem? Q [] n x h e = ground arith
All-get_elem? Q (y ∷ ys) zero x (q, h) e = subst Q (ground arith) q
All-get_elem? Q (y ∷ ys) (suc n) x (q, h) e = All-get_elem? Q ys n x h e

module _ {F : Type 0} (P : Platform F) (J : Jwt) (s : Server P.World) (i : Inputs) (mux : Mux)
    (L : IsMux mux) where
  serve_http-auth :
      (r : Request) (w : P.World) (found : Route) (namespace name : String) (h : Handler)
      → mux routes r ≡ taken found namespace name
      → found.guard ≡ auth h
      → serve_http P J s i mux r w
        ≡ auth_middleware s.clientset (λ user. handle P J s i h (some user) namespace name) r w
  unfolding serve_http serve_guarded
  serve_http-auth r w found namespace name h e g = ground arith

  -- How a request outside the internal prefix ends: no route takes it, the gate refuses it, or the
  -- handler of a guarded route answers it, for an admitted user.
  abbrev pub Ends : Request → P.World → Response F × P.World → Type 0
  Ends r w answer =
      ((code : ℕ) × (answer ≡ (http_error code "", w)))
      ⊎ (((400 ≤ answer.0.code) × (answer.1 ≡ w))
          ⊎ ((c : Clientset P.World) × (user : UserInfo) × (h : Handler) × (namespace : String)
              × (name : String) × (s.clientset ≡ some c)
              × IsAdmitted c r w user
              × (answer ≡ handle P J s i h (some user) namespace name w)))

  -- For any mux that picks routes of the table by the text before their wildcards: a request outside
  -- the internal prefix is answered by the mux itself and leaves the world as it is, or is refused by
  -- the gate with a code from 400 on and leaves the world as it is, or is that of a user whom the
  -- token review knows and the access review allows it, and is what a handler makes of it with this
  -- user.
  pub serve_http-IsAdmitted :
      (r : Request) (w : P.World)
      → starts_with r.path internal ≡ false
      → Ends r w (serve_http P J s i mux r w)
  unfolding serve_http
  serve_http-IsAdmitted r w outside = elim (Routed-cases (mux routes r)) [
    | inl (code, e) ↦ inl (code, rw (e, serve_http) refl)
    | inr (found, namespace, name, e) ↦
        let (n, at) = L.picks routes r found namespace name e in
        elim (All-get_elem? IsGuarded routes n found routes-IsGuarded at) [
          | inr under ↦ absurd (
              false≢true
                (sym outside ∙ L.literal routes r found namespace name internal e refl under))
          | inl (h, g) ↦
              subst (Ends r w) (sym (serve_http-auth r w found namespace name h e g))
                (elim (auth_middleware-IsAdmitted s.clientset
                  (λ user. handle P J s i h (some user) namespace name) r w) [
                    | inl refused ↦ inr (inl refused)
                    | inr (c, user, at, admitted, answer) ↦
                        inr (inr (c, user, h, namespace, name, at, admitted, answer))
                  ])
        ]
  ]
