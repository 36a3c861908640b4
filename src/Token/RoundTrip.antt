-- ===== src/Token/RoundTrip.antt =====
-- A token that was generated is accepted until it expires, and then no more.
use ovro.Types.{Time}
use ovro.Token.{
  approval_claims, hmac, verification_key, validate_token, SigningMethod, generate_token,
  TokenManager, SigningKey, Jwt, ApprovalClaims,
}
use ovro.Prelude.{Error, err, ◌≤◌, true, ◌<◌, ◌+◌, ok, ◌≡◌, Result, ◌*◌, String, ◌/◌, refl}

-- A NumericDate has whole seconds.
abbrev pub whole_seconds : Time → Time
whole_seconds t = (t / 1000000000) * 1000000000

-- The claims as they come back out of a token.
abbrev pub decoded : ApprovalClaims → ApprovalClaims
decoded c = record c {
  expires_at = whole_seconds c.expires_at;
  issued_at = whole_seconds c.issued_at;
}

-- What golang-jwt documents of a token that was signed with HS256 and is parsed with the same key:
-- before its expiry it is valid and has the claims that were signed, from its expiry on it is an
-- error.
pub record IsLawfulJwt (J : Jwt) : Type 0 where
  pub parse_signed :
      (k : SigningKey) (c : ApprovalClaims) (t : String)
      (key_of : SigningMethod → Result SigningKey) (now : Time)
      → J.signed_string k c ≡ ok t
      → key_of hmac ≡ ok k
      → now < whole_seconds c.expires_at
      → J.parse_with_claims t key_of now ≡ ok (record { claims = decoded c; valid = true })
  pub parse_expired :
      (k : SigningKey) (c : ApprovalClaims) (t : String)
      (key_of : SigningMethod → Result SigningKey) (now : Time)
      → J.signed_string k c ≡ ok t
      → key_of hmac ≡ ok k
      → whole_seconds c.expires_at ≤ now
      → (e : Error) × (J.parse_with_claims t key_of now ≡ err e)

module _ (J : Jwt) (L : IsLawfulJwt J) (tm : TokenManager) where
  -- Under the documented behaviour of golang-jwt, a token that was generated is accepted by the same
  -- manager at any instant before the last whole second of its lifetime, and gives back the
  -- namespace, the name and the owner that it was generated for.
  pub validate_token-generate_token :
      (namespace rec_name owner t : String) (ttl issued now : Time)
      → generate_token J tm namespace rec_name owner ttl issued ≡ ok t
      → now < whole_seconds (issued + ttl)
      → validate_token J tm t now
        ≡ ok (decoded (approval_claims namespace rec_name owner ttl issued))
  unfolding generate_token validate_token verification_key
  validate_token-generate_token namespace rec_name owner t ttl issued now g h =
      let claims = approval_claims namespace rec_name owner ttl issued in
      rw (L.parse_signed tm.signing_key claims t (verification_key tm) now g refl h, validate_token)
        refl

  -- Under the documented behaviour of golang-jwt, a token that was generated is refused by the same
  -- manager at any instant from the last whole second of its lifetime on.
  pub validate_token_expired :
      (namespace rec_name owner t : String) (ttl issued now : Time)
      → generate_token J tm namespace rec_name owner ttl issued ≡ ok t
      → whole_seconds (issued + ttl) ≤ now
      → (e : Error) × (validate_token J tm t now ≡ err e)
  unfolding generate_token validate_token verification_key
  validate_token_expired namespace rec_name owner t ttl issued now g h =
      let claims = approval_claims namespace rec_name owner ttl issued in
      let (e, refused) =
        L.parse_expired tm.signing_key claims t (verification_key tm) now g refl h in
      (e, rw (refused, validate_token) refl)
