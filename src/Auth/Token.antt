-- ===== src/Auth/Token.antt =====
-- The bearer token of the client, and its check by the server. The clock is a parameter: the
-- seconds since the epoch, or none before it.
use ssh.Base.{ℕ, ◌+◌, ◌%◌, ◌^◌, Bytes, ◌∷◌, ◌++◌, not, Option, bytes_eq, ltb, leb, codes}
use ssh.Io.{Result, ok}
use ssh.Io.Fallible.{ok_or, ◌>>=◌, check}
use ssh.Text.{Text, rsplit_once, split_once}
use ssh.Auth.{
  token_lifetime_secs, AuthError, time, json, base64, invalid_token, JwtClaims, JwtAlgorithm,
  as_str, token_subject, token_audience, Crates,
}
use ssh.Auth.Signature.{jwt_algorithm_for_public_key, verify_jwt_signature}

abbrev pub unix_timestamp_now : Option ℕ → Result AuthError ℕ
unix_timestamp_now = ok_or time

abbrev pub client_id_for : Text → Text
client_id_for username = codes "ssh3-" ++ username

abbrev pub with_dot : Text → Text → Text
with_dot before after = before ++ b'.' ∷ after

abbrev pub malformed : AuthError
malformed = invalid_token (codes "malformed bearer token")

module _ {ℓ} {PublicKey : Type ℓ} (crates : Crates PublicKey) where
  unfoldable pub conversation_id_base64 : Bytes → Text
  conversation_id_base64 conversation_id = crates.encode_standard conversation_id

  abbrev pub claims_at : ℕ → Text → Bytes → JwtClaims
  unfolding conversation_id_base64
  claims_at now username conversation_id = record {
    iss = username;
    sub = token_subject;
    aud = token_audience;
    iat = now;
    exp = (now + token_lifetime_secs) % 2 ^ 64;
    client_id = client_id_for username;
    jti = conversation_id_base64 conversation_id;
  }

  unfoldable pub build_bearer_token_with_signer :
      PublicKey
      → Option ℕ
      → Text
      → Bytes
      → (JwtAlgorithm → Bytes → Result AuthError Bytes)
      → Result AuthError Text
  unfolding jwt_algorithm_for_public_key
  build_bearer_token_with_signer key clock username conversation_id signer = do
    jwt_algorithm ← jwt_algorithm_for_public_key crates key
    now ← unix_timestamp_now clock
    header_json ←
        ok_or json (crates.header_to_vec (record { alg = as_str jwt_algorithm; typ = codes "JWT" }))
    claims_json ← ok_or json (crates.claims_to_vec (claims_at now username conversation_id))
    let signing_input = with_dot (crates.encode_url header_json) (crates.encode_url claims_json)
    signature ← signer jwt_algorithm (crates.as_bytes signing_input)
    ok (with_dot signing_input (crates.encode_url signature))

  -- The checks of the claims, in the order of the code.
  unfoldable pub check_claims : JwtClaims → ℕ → Text → Bytes → Result AuthError (Unit {0})
  unfolding conversation_id_base64
  check_claims claims now expected_username conversation_id = do
    _ ←
        check (invalid_token (codes "unexpected JWT issuer"))
          (bytes_eq claims.iss expected_username)
    _ ← check (invalid_token (codes "unexpected JWT subject")) (bytes_eq claims.sub token_subject)
    _ ← check (invalid_token (codes "unexpected JWT audience")) (bytes_eq claims.aud token_audience)
    _ ←
        check (invalid_token (codes "unexpected JWT client_id"))
          (bytes_eq claims.client_id (client_id_for expected_username))
    _ ←
        check (invalid_token (codes "unexpected JWT jti"))
          (bytes_eq claims.jti (conversation_id_base64 conversation_id))
    _ ← check (invalid_token (codes "JWT issued-at is in the future")) (not (ltb now claims.iat))
    check (invalid_token (codes "JWT is expired")) (not (leb claims.exp now))

  unfoldable pub verify_bearer_token :
      PublicKey → Option ℕ → Text → Text → Bytes → Result AuthError (Unit {0})
  unfolding jwt_algorithm_for_public_key rsplit_once split_once verify_jwt_signature check_claims
  verify_bearer_token key clock token expected_username conversation_id = do
    jwt_algorithm ← jwt_algorithm_for_public_key crates key
    (signing_input, signature_part) ← ok_or malformed (rsplit_once b'.' token)
    (header_part, claims_part) ← ok_or malformed (split_once b'.' signing_input)
    header_json ← ok_or base64 (crates.decode_url header_part)
    header ← ok_or json (crates.header_from_slice header_json)
    _ ←
        check (invalid_token (codes "unexpected JWT alg"))
          (bytes_eq header.alg (as_str jwt_algorithm))
    claims_json ← ok_or base64 (crates.decode_url claims_part)
    claims ← ok_or json (crates.claims_from_slice claims_json)
    now ← unix_timestamp_now clock
    _ ← check_claims claims now expected_username conversation_id
    signature ← ok_or base64 (crates.decode_url signature_part)
    verify_jwt_signature crates key jwt_algorithm (crates.as_bytes signing_input) signature
