-- ===== src/Auth.antt =====
-- crates/ssh3-auth/src/lib.rs: the tokens and identities by which a client is admitted. The crates
-- for JSON, base64, keys and signatures, the clock, the files and the network are parameters.
pub mod Identities
pub mod Token
pub mod Signature
pub mod Oidc
pub mod Lifetime
pub mod RoundTrip
pub mod Listed
use ssh.Base.{ℕ, Bytes, List, Bool, Option, none, some, codes, ◌++◌}
use ssh.Io.{IoError, Result, ok, err}
use ssh.Text.{Text}

abbrev pub token_lifetime_secs : ℕ
token_lifetime_secs = 60

-- The errors of the crates are kept as one case each.
pub data AuthError : Type 0 where
  io : IoError → AuthError
  time : AuthError
  json : AuthError
  base64 : AuthError
  reqwest : AuthError
  ssh_key : AuthError
  invalid_key_material : Bytes → AuthError
  invalid_token : Bytes → AuthError
  unsupported_algorithm : Text → AuthError

pub record JwtHeader : Type 0 where
  pub alg : Text
  pub typ : Text

pub record JwtClaims : Type 0 where
  pub iss : Text
  pub sub : Text
  pub aud : Text
  pub iat : ℕ
  pub exp : ℕ
  pub client_id : Text
  pub jti : Text

pub record OidcIdentity : Type 0 where
  pub client_id : Text
  pub issuer_url : Text
  pub email : Text

pub data AuthorizedIdentity {ℓ} (PublicKey : Type ℓ) : Type ℓ where
  public_key : PublicKey → AuthorizedIdentity PublicKey
  oidc : OidcIdentity → AuthorizedIdentity PublicKey

pub data JwtAlgorithm : Type 0 where
  ed_dsa : JwtAlgorithm
  es256 : JwtAlgorithm
  rs256 : JwtAlgorithm

abbrev pub as_str : JwtAlgorithm → Text
as_str ed_dsa = codes "EdDSA"
as_str es256 = codes "ES256"
as_str rs256 = codes "RS256"

unfoldable pub bearer_authorization_value : Text → Text
bearer_authorization_value token = codes "Bearer " ++ token

abbrev pub token_subject : Text
token_subject = codes "ssh3"

abbrev pub token_audience : Text
token_audience = codes "unused"

-- What the code asks of `ssh_key::public::KeyData`.
pub data KeyData : Type 0 where
  ed25519 : KeyData
  ecdsa_nist_p256 : KeyData
  rsa : KeyData
  another : KeyData

-- The crates that the bearer token needs, for their type of public keys.
pub record Crates {ℓ} (PublicKey : Type ℓ) : Type ℓ where
  pub key_data : PublicKey → KeyData
  -- `public_key.algorithm().as_str()`
  pub algorithm : PublicKey → Text
  -- `URL_SAFE_NO_PAD` and `STANDARD` of the base64 crate.
  pub encode_url : Bytes → Text
  pub decode_url : Text → Option Bytes
  pub encode_standard : Bytes → Text
  -- `serde_json`
  pub header_to_vec : JwtHeader → Option Bytes
  pub header_from_slice : Bytes → Option JwtHeader
  pub claims_to_vec : JwtClaims → Option Bytes
  pub claims_from_slice : Bytes → Option JwtClaims
  -- `str::as_bytes`
  pub as_bytes : Text → Bytes
  -- The crates of the signatures: a key or a signature from its bytes, and the check.
  pub ed25519_signature : Bytes → Option Bytes
  pub ed25519_verify : PublicKey → Bytes → Bytes → Bool
  pub p256_point : PublicKey → Bytes
  pub p256_key : Bytes → Option Bytes
  pub p256_signature : Bytes → Option Bytes
  pub p256_verify : Bytes → Bytes → Bytes → Bool
  pub rsa_n : PublicKey → Option Bytes
  pub rsa_e : PublicKey → Option Bytes
  pub rsa_key : Bytes → Bytes → Option Bytes
  pub rsa_signature : Bytes → Option Bytes
  pub rsa_verify : Bytes → Bytes → Bytes → Bool
