-- ===== src/Auth/RoundTrip.antt =====
-- What `build_bearer_token_with_signer` builds, `verify_bearer_token` accepts.
use ssh.Base.{
  ℕ, ◌+◌, ◌%◌, ◌^◌, ◌<◌, ◌≤◌, ◌≡◌, refl, Bytes, true, not, some, ltb, leb, bytes_eq, bytes_eq_iff,
  codes, arith,
}
use ssh.Io.{ok}
use ssh.Text.{Text}
use ssh.Text.Split.{Lacks, split_once-append, rsplit_once-append}
use ssh.Auth.{token_lifetime_secs, JwtHeader, JwtClaims, JwtAlgorithm, as_str, Crates}
use ssh.Auth.Signature.{jwt_algorithm_for_public_key, verify_jwt_signature}
use ssh.Auth.Token.{
  with_dot, conversation_id_base64, claims_at, check_claims, build_bearer_token_with_signer,
  verify_bearer_token,
}

module _ {ℓ} {PublicKey : Type ℓ} (crates : Crates PublicKey) where
  -- What base64 and JSON promise: no dot in the alphabet, and decoding gives back what was encoded.
  pub record AreFaithful : Type 0 where
    pub no_dot : (bs : Bytes) → Lacks b'.' (crates.encode_url bs)
    pub decode-encode : (bs : Bytes) → crates.decode_url (crates.encode_url bs) ≡ some bs
    pub header_round_trip :
        (header : JwtHeader)
        → (bs : Bytes) × (crates.header_to_vec header ≡ some bs)
          × (crates.header_from_slice bs ≡ some header)
    pub claims_round_trip :
        (claims : JwtClaims)
        → (bs : Bytes) × (crates.claims_to_vec claims ≡ some bs)
          × (crates.claims_from_slice bs ≡ some claims)

  bytes_eq_same : (bs : Bytes) → bytes_eq bs bs ≡ true
  bytes_eq_same bs = (bytes_eq_iff bs bs).1 refl

  check_claims-claims_at :
      (issued now : ℕ) (username : Text) (conversation_id : Bytes)
      → issued + token_lifetime_secs < 2 ^ 64
      → issued ≤ now
      → now < issued + token_lifetime_secs
      → check_claims crates
          (claims_at crates issued username conversation_id)
          now
          username
          conversation_id
        ≡ ok tt
  unfolding check_claims conversation_id_base64
  check_claims-claims_at issued now username conversation_id fits after before =
      let began : not (ltb now issued) ≡ true = ground arith in
      let whole : (issued + token_lifetime_secs) % 2 ^ 64 ≡ issued + token_lifetime_secs =
        omega arith in
      let live : not (leb (issued + token_lifetime_secs) now) ≡ true = ground arith in
      rw (
        bytes_eq_same username,
        bytes_eq_same (crates.encode_standard conversation_id),
        began,
        whole,
        live,
      )

  module _ (faithful : AreFaithful) (key : PublicKey) (algorithm : JwtAlgorithm)
      (known : jwt_algorithm_for_public_key crates key ≡ ok algorithm)
      (header_json claims_json signature : Bytes) where
    abbrev parts : Text
    parts = with_dot (crates.encode_url header_json) (crates.encode_url claims_json)

    verify_encoded :
        (claims : JwtClaims) (now : ℕ) (username : Text) (conversation_id : Bytes)
        → crates.header_from_slice header_json
          ≡ some (record { alg = as_str algorithm; typ = codes "JWT" })
        → crates.claims_from_slice claims_json ≡ some claims
        → check_claims crates claims now username conversation_id ≡ ok tt
        → verify_jwt_signature crates key algorithm (crates.as_bytes parts) signature ≡ ok tt
        → verify_bearer_token crates key
            (some now)
            (with_dot parts (crates.encode_url signature))
            username
            conversation_id
          ≡ ok tt
    unfolding verify_bearer_token
    verify_encoded claims now username conversation_id header_read claims_read claimed signed =
        rw
          (
            known,
            rsplit_once-append b'.' parts (crates.encode_url signature) (faithful.no_dot signature),
            split_once-append b'.' (crates.encode_url header_json) (crates.encode_url claims_json)
                (faithful.no_dot header_json),
            faithful.decode-encode header_json,
            header_read,
            bytes_eq_same (as_str algorithm),
            faithful.decode-encode claims_json,
            claims_read,
            claimed,
            faithful.decode-encode signature,
          )
          signed

  build_encoded :
      (key : PublicKey) (algorithm : JwtAlgorithm) (signer : Bytes → Bytes) (issued : ℕ)
      (username : Text) (conversation_id header_json claims_json : Bytes)
      → jwt_algorithm_for_public_key crates key ≡ ok algorithm
      → crates.header_to_vec (record { alg = as_str algorithm; typ = codes "JWT" })
        ≡ some header_json
      → crates.claims_to_vec (claims_at crates issued username conversation_id) ≡ some claims_json
      → build_bearer_token_with_signer crates key
          (some issued)
          username
          conversation_id
          (λ chosen input. ok (signer input))
        ≡ ok (
            let input = with_dot (crates.encode_url header_json) (crates.encode_url claims_json) in
            with_dot input (crates.encode_url (signer (crates.as_bytes input))))
  unfolding build_bearer_token_with_signer
  build_encoded key algorithm signer issued username conversation_id header_json claims_json known
        header_written claims_written =
      rw (known, header_written, claims_written)

  -- If base64 and JSON give back what they were given, a token that was built at some time for a
  -- user and a conversation, with a signer whose signatures the check accepts, is accepted for
  -- them from that time on until the lifetime is over.
  pub verify_bearer_token-build_bearer_token_with_signer :
      AreFaithful
      → (key : PublicKey) (algorithm : JwtAlgorithm) (signer : Bytes → Bytes) (issued now : ℕ)
        (username : Text) (conversation_id : Bytes)
      → jwt_algorithm_for_public_key crates key ≡ ok algorithm
      → ((input : Bytes) → verify_jwt_signature crates key algorithm input (signer input) ≡ ok tt)
      → issued + token_lifetime_secs < 2 ^ 64
      → issued ≤ now
      → now < issued + token_lifetime_secs
      → (token : Text) × (build_bearer_token_with_signer crates key
            (some issued)
            username
            conversation_id
            (λ chosen input. ok (signer input))
          ≡ ok token)
        × (verify_bearer_token crates key (some now) token username conversation_id ≡ ok tt)
  verify_bearer_token-build_bearer_token_with_signer faithful key algorithm signer issued now
        username conversation_id known signs fits after before =
      let (header_json, header_written, header_read) =
        faithful.header_round_trip (record { alg = as_str algorithm; typ = codes "JWT" }) in
      let (claims_json, claims_written, claims_read) =
        faithful.claims_round_trip (claims_at crates issued username conversation_id) in
      let signing_input : Text =
        with_dot (crates.encode_url header_json) (crates.encode_url claims_json) in
      let signature : Bytes = signer (crates.as_bytes signing_input) in
      (
        with_dot signing_input (crates.encode_url signature),
        build_encoded key algorithm signer issued username conversation_id header_json claims_json
            known header_written claims_written,
        verify_encoded faithful key algorithm known header_json claims_json signature
            (claims_at crates issued username conversation_id) now username conversation_id
            header_read claims_read
            (check_claims-claims_at issued now username conversation_id fits after before)
            (signs _),
      )
