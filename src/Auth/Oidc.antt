-- ===== src/Auth/Oidc.antt =====
-- The OpenID Connect token: its claims, the provider's keys, and the check. What the provider
-- answers over the network is a parameter.
pub mod Checks
use ssh.Base.{
  ℕ, Bytes, List, [], ◌∷◌, ◌++◌, Bool, true, false, not, ◌&&◌, ◌||◌, Option, none, some, bytes_eq,
  leb, length, ◌==◌, if◌then◌else◌, codes,
}
use ssh.Io.{Result, ok, err}
use ssh.Io.Fallible.{ok_or, ◌>>=◌, check}
use ssh.Text.{Text, rsplit_once, split_once, trim_end_matches}
use ssh.Auth.{
  AuthError, json, base64, reqwest, invalid_key_material, invalid_token, unsupported_algorithm,
  OidcIdentity, Crates,
}
use ssh.Auth.Signature.{rsa_biguint, verification_failed}
use ssh.Auth.Token.{unix_timestamp_now, malformed}

pub record OidcJwtHeader : Type 0 where
  pub alg : Text
  pub kid : Option Text

pub data OidcAudience : Type 0 where
  one : Text → OidcAudience
  many : List Text → OidcAudience

abbrev any_equal : Text → List Text → Bool
any_equal expected [] = false
any_equal expected (value ∷ values) = bytes_eq value expected || any_equal expected values

unfoldable pub contains : OidcAudience → Text → Bool
contains (one value) expected = bytes_eq value expected
contains (many values) expected = any_equal expected values

pub record OidcClaims : Type 0 where
  pub iss : Text
  pub aud : OidcAudience
  pub exp : ℕ
  pub nonce : Option Text
  pub email : Option Text
  pub email_verified : Bool

pub record OidcDiscoveryDocument : Type 0 where
  pub issuer : Text
  pub jwks_uri : Text

pub record OidcJwk : Type 0 where
  pub kty : Text
  pub kid : Option Text
  pub alg : Option Text
  pub n : Option Text
  pub e : Option Text
  pub crv : Option Text
  pub x : Option Text
  pub y : Option Text

pub record OidcJwks : Type 0 where
  pub keys : List OidcJwk

-- `serde_json` for the types of OpenID Connect, and the provider: what a request for an address
-- comes back with.
pub record Provider : Type 0 where
  pub header_from_slice : Bytes → Option OidcJwtHeader
  pub claims_from_slice : Bytes → Option OidcClaims
  pub get_discovery : Text → Option OidcDiscoveryDocument
  pub get_jwks : Text → Option OidcJwks

abbrev pub is_some {ℓ} : {A : Type ℓ} → Option A → Bool
is_some none = false
is_some (some a) = true

abbrev pub is_equal : Option Text → Text → Bool
is_equal none expected = false
is_equal (some value) expected = bytes_eq value expected

-- `is_none_or` with an equality.
abbrev pub unset_or_equal : Option Text → Text → Bool
unset_or_equal none expected = true
unset_or_equal (some value) expected = bytes_eq value expected

abbrev pub kid_matches : Option Text → Option Text → Bool
kid_matches none kid = true
kid_matches (some expected) kid = is_equal kid expected

unfoldable pub oidc_jwk_supports_algorithm : OidcJwk → Text → Bool
oidc_jwk_supports_algorithm jwk alg =
    if bytes_eq alg (codes "RS256")
    then bytes_eq jwk.kty (codes "RSA") && is_some jwk.n && is_some jwk.e
    else if bytes_eq alg (codes "ES256")
    then bytes_eq jwk.kty (codes "EC")
      && is_equal jwk.crv (codes "P-256")
      && is_some jwk.x
      && is_some jwk.y
    else false

unfoldable pub serves : OidcJwtHeader → OidcJwk → Bool
unfolding oidc_jwk_supports_algorithm
serves header jwk =
    kid_matches header.kid jwk.kid
    && unset_or_equal jwk.alg header.alg
    && oidc_jwk_supports_algorithm jwk header.alg

unfoldable pub find {ℓ} : {A : Type ℓ} → (A → Bool) → List A → Option A
find test [] = none
find test (x ∷ xs) = if test x then some x else find test xs

unfoldable pub select_oidc_jwk : OidcJwks → OidcJwtHeader → Result AuthError OidcJwk
unfolding find serves
select_oidc_jwk jwks header =
    ok_or (invalid_token (codes "no matching OIDC JWK found")) (find (serves header) jwks.keys)

module _ {ℓ} {PublicKey : Type ℓ} (crates : Crates PublicKey) where
  -- A component of a key, which is missing or in base64.
  abbrev pub component : AuthError → Option Text → Result AuthError Bytes
  component missing part = do text ← ok_or missing part; ok_or base64 (crates.decode_url text)

  abbrev pub verify_rs256 : OidcJwk → Bytes → Bytes → Result AuthError (Unit {0})
  unfolding rsa_biguint
  verify_rs256 jwk signing_input signature_bytes = do
    n_bytes ← component (invalid_key_material (codes "missing RSA modulus")) jwk.n
    n ← rsa_biguint crates (some n_bytes)
    e_bytes ← component (invalid_key_material (codes "missing RSA exponent")) jwk.e
    e ← rsa_biguint crates (some e_bytes)
    verifying_key ←
        ok_or (invalid_key_material (codes "invalid RSA public key")) (crates.rsa_key n e)
    signature ←
        ok_or (invalid_token (codes "malformed RS256 signature"))
          (crates.rsa_signature signature_bytes)
    check (verification_failed crates) (crates.rsa_verify verifying_key signing_input signature)

  abbrev pub verify_es256 : OidcJwk → Bytes → Bytes → Result AuthError (Unit {0})
  verify_es256 jwk signing_input signature_bytes = do
    x ← component (invalid_key_material (codes "missing EC x coordinate")) jwk.x
    y ← component (invalid_key_material (codes "missing EC y coordinate")) jwk.y
    _ ←
        check (invalid_key_material (codes "invalid P-256 public key coordinates"))
          (length x == 32 && length y == 32)
    verifying_key ←
        ok_or (invalid_key_material (codes "invalid P-256 public key"))
          (crates.p256_key (4 ∷ x ++ y))
    signature ←
        ok_or (invalid_token (codes "malformed ES256 signature"))
          (crates.p256_signature signature_bytes)
    check (verification_failed crates) (crates.p256_verify verifying_key signing_input signature)

  unfoldable pub verify_oidc_jwk_signature :
      OidcJwk → Text → Bytes → Bytes → Result AuthError (Unit {0})
  verify_oidc_jwk_signature jwk alg signing_input signature_bytes =
      if bytes_eq alg (codes "RS256")
      then verify_rs256 jwk signing_input signature_bytes
      else if bytes_eq alg (codes "ES256")
      then verify_es256 jwk signing_input signature_bytes
      else err (unsupported_algorithm alg)

  abbrev pub nonce_matches : Option Text → Option Text → Bool
  nonce_matches none actual = true
  nonce_matches (some expected) actual = is_equal actual expected

  -- The checks of the claims, in the order of the code.
  unfoldable pub check_oidc_claims :
      OidcIdentity → OidcClaims → ℕ → Option Text → Result AuthError (Unit {0})
  unfolding contains
  check_oidc_claims identity claims now expected_nonce = do
    _ ←
        check (invalid_token (codes "unexpected OIDC issuer"))
          (bytes_eq claims.iss identity.issuer_url)
    _ ←
        check (invalid_token (codes "unexpected OIDC audience"))
          (contains claims.aud identity.client_id)
    _ ← check (invalid_token (codes "OIDC token is expired")) (not (leb claims.exp now))
    _ ← check (invalid_token (codes "unexpected OIDC email")) (is_equal claims.email identity.email)
    _ ← check (invalid_token (codes "OIDC email is not verified")) claims.email_verified
    check (invalid_token (codes "unexpected OIDC nonce"))
        (nonce_matches expected_nonce claims.nonce)

  unfoldable pub discovery_url : Text → Text
  unfolding trim_end_matches
  discovery_url issuer_url =
      trim_end_matches b'/' issuer_url ++ codes "/.well-known/openid-configuration"

  -- The part of `verify_oidc_identity_token` that asks the provider for its keys.
  unfoldable pub verify_with_provider :
      Provider → OidcIdentity → OidcJwtHeader → Text → Text → Result AuthError (Unit {0})
  unfolding discovery_url select_oidc_jwk verify_oidc_jwk_signature
  verify_with_provider provider identity header signing_input signature_part = do
    discovery ← ok_or reqwest (provider.get_discovery (discovery_url identity.issuer_url))
    _ ←
        check (invalid_token (codes "unexpected OIDC discovery issuer"))
          (bytes_eq discovery.issuer identity.issuer_url)
    jwks ← ok_or reqwest (provider.get_jwks discovery.jwks_uri)
    jwk ← select_oidc_jwk jwks header
    signature ← ok_or base64 (crates.decode_url signature_part)
    verify_oidc_jwk_signature jwk header.alg (crates.as_bytes signing_input) signature

  unfoldable pub verify_oidc_identity_token :
      Provider → Option ℕ → OidcIdentity → Text → Option Text → Result AuthError (Unit {0})
  unfolding rsplit_once split_once check_oidc_claims verify_with_provider
  verify_oidc_identity_token provider clock identity token expected_nonce = do
    (signing_input, signature_part) ← ok_or malformed (rsplit_once b'.' token)
    (header_part, claims_part) ← ok_or malformed (split_once b'.' signing_input)
    header_json ← ok_or base64 (crates.decode_url header_part)
    header ← ok_or json (provider.header_from_slice header_json)
    claims_json ← ok_or base64 (crates.decode_url claims_part)
    claims ← ok_or json (provider.claims_from_slice claims_json)
    now ← unix_timestamp_now clock
    _ ← check_oidc_claims identity claims now expected_nonce
    verify_with_provider provider identity header signing_input signature_part
