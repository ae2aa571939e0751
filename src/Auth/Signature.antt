-- ===== src/Auth/Signature.antt =====
-- The signature of a bearer token: the algorithm that goes with a public key, and the check.
use ssh.Base.{Bytes, Option, codes}
use ssh.Io.{Result, ok, err}
use ssh.Io.Fallible.{ok_or, ◌>>=◌, check}
use ssh.Auth.{
  AuthError, ssh_key, invalid_key_material, invalid_token, unsupported_algorithm, JwtAlgorithm,
  ed_dsa, es256, rs256, KeyData, ed25519, ecdsa_nist_p256, rsa, another, Crates,
}

module _ {ℓ} {PublicKey : Type ℓ} (crates : Crates PublicKey) where
  abbrev pub algorithm_for : PublicKey → KeyData → Result AuthError JwtAlgorithm
  algorithm_for key ed25519 = ok ed_dsa
  algorithm_for key ecdsa_nist_p256 = ok es256
  algorithm_for key rsa = ok rs256
  algorithm_for key another = err (unsupported_algorithm (crates.algorithm key))

  unfoldable pub jwt_algorithm_for_public_key : PublicKey → Result AuthError JwtAlgorithm
  jwt_algorithm_for_public_key key = algorithm_for key (crates.key_data key)

  -- The key that the crate of the algorithm makes of an SSH key.
  unfoldable pub p256_verifying_key : PublicKey → KeyData → Result AuthError Bytes
  p256_verifying_key key ecdsa_nist_p256 =
      ok_or (invalid_key_material (codes "invalid P-256 public key"))
        (crates.p256_key (crates.p256_point key))
  p256_verifying_key key ed25519 = err (unsupported_algorithm (crates.algorithm key))
  p256_verifying_key key rsa = err (unsupported_algorithm (crates.algorithm key))
  p256_verifying_key key another = err (unsupported_algorithm (crates.algorithm key))

  unfoldable pub rsa_biguint : Option Bytes → Result AuthError Bytes
  rsa_biguint = ok_or (invalid_key_material (codes "invalid RSA key component"))

  unfoldable pub rsa_public_key : PublicKey → Result AuthError Bytes
  unfolding rsa_biguint
  rsa_public_key key = do
    n ← rsa_biguint (crates.rsa_n key)
    e ← rsa_biguint (crates.rsa_e key)
    ok_or (invalid_key_material (codes "invalid RSA public key")) (crates.rsa_key n e)

  unfoldable pub rsa_verifying_key : PublicKey → KeyData → Result AuthError Bytes
  unfolding rsa_public_key
  rsa_verifying_key key rsa = rsa_public_key key
  rsa_verifying_key key ed25519 = err (unsupported_algorithm (crates.algorithm key))
  rsa_verifying_key key ecdsa_nist_p256 = err (unsupported_algorithm (crates.algorithm key))
  rsa_verifying_key key another = err (unsupported_algorithm (crates.algorithm key))

  abbrev pub verification_failed : AuthError
  verification_failed = invalid_token (codes "JWT signature verification failed")

  unfoldable pub verify_jwt_signature :
      PublicKey → JwtAlgorithm → Bytes → Bytes → Result AuthError (Unit {0})
  unfolding p256_verifying_key rsa_verifying_key
  verify_jwt_signature key ed_dsa signing_input signature_bytes = do
    signature ← ok_or ssh_key (crates.ed25519_signature signature_bytes)
    check verification_failed (crates.ed25519_verify key signing_input signature)
  verify_jwt_signature key es256 signing_input signature_bytes = do
    verifying_key ← p256_verifying_key key (crates.key_data key)
    signature ←
        ok_or (invalid_token (codes "malformed ES256 signature"))
          (crates.p256_signature signature_bytes)
    check verification_failed (crates.p256_verify verifying_key signing_input signature)
  verify_jwt_signature key rs256 signing_input signature_bytes = do
    verifying_key ← rsa_verifying_key key (crates.key_data key)
    signature ←
        ok_or (invalid_token (codes "malformed RS256 signature"))
          (crates.rsa_signature signature_bytes)
    check verification_failed (crates.rsa_verify verifying_key signing_input signature)
