-- ===== src/Token.antt =====
-- internal/approval/token.go: approval tokens. Signing and parsing are golang-jwt's, a parameter.
pub mod RoundTrip
use ovro.Prelude.{◌+◌, String, Bool, Result, ok, err}
use ovro.Prelude.{if◌then◌else◌}
use ovro.Types.{Time}

pub record ApprovalClaims : Type 0 where
  pub subject : String
  pub expires_at : Time
  pub issued_at : Time
  pub issuer : String
  pub namespace : String
  pub rec_name : String
  pub owner : String

-- The signing methods of a token's header: the HMAC family, and the others by name.
pub data SigningMethod : Type 0 where
  hmac : SigningMethod
  other_method : String → SigningMethod

-- What `jwt.ParseWithClaims` hands back: the claims, and whether the token is valid.
pub record ParsedToken : Type 0 where
  pub claims : ApprovalClaims
  pub valid : Bool

abbrev pub SigningKey : Type 0
SigningKey = String

-- golang-jwt. `signed_string` is `NewWithClaims(SigningMethodHS256, claims).SignedString(key)`;
-- `parse_with_claims` asks its argument for the key of a token's method, at an instant.
pub record Jwt : Type 0 where
  pub signed_string : SigningKey → ApprovalClaims → Result String
  pub parse_with_claims : String → (SigningMethod → Result SigningKey) → Time → Result ParsedToken

pub record TokenManager : Type 0 where
  pub signing_key : SigningKey

-- The claims that `GenerateToken` signs.
abbrev pub approval_claims : String → String → String → Time → Time → ApprovalClaims
approval_claims namespace rec_name owner ttl now = record {
  subject = owner;
  expires_at = now + ttl;
  issued_at = now;
  issuer = "ovro";
  namespace = namespace;
  rec_name = rec_name;
  owner = owner;
}

-- The key function of `ValidateToken`.
unfoldable pub verification_key : TokenManager → SigningMethod → Result SigningKey
verification_key tm hmac = ok tm.signing_key
verification_key tm (other_method alg) = err "unexpected signing method"

module _ (J : Jwt) where
  unfoldable pub generate_token :
      TokenManager → String → String → String → Time → Time → Result String
  generate_token tm namespace rec_name owner ttl now =
      J.signed_string tm.signing_key (approval_claims namespace rec_name owner ttl now)

  unfoldable pub validate_token : TokenManager → String → Time → Result ApprovalClaims
  unfolding verification_key
  validate_token tm token_string now =
      elim (J.parse_with_claims token_string (verification_key tm) now) [
        | err e ↦ err e
        | ok parsed ↦ if parsed.valid then ok parsed.claims else err "invalid token"
      ]
