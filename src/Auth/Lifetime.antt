-- ===== src/Auth/Lifetime.antt =====
-- What a bearer token says that `verify_bearer_token` accepts.
use ssh.Base.{ℕ, ◌<◌, ◌≤◌, ◌≡◌, Bytes, true, not, Option, some, ltb, leb, bytes_eq_iff, arith}
use ssh.Io.{ok}
use ssh.Io.Fallible.{>>=-inv, ok_or-inv, check-inv, check_passed}
use ssh.Text.{Text, rsplit_once, split_once}
use ssh.Text.Split.{split_once-inv, rsplit_once-inv}
use ssh.Auth.{JwtHeader, JwtClaims, JwtAlgorithm, as_str, token_subject, token_audience, Crates}
use ssh.Auth.Signature.{jwt_algorithm_for_public_key, verify_jwt_signature}
use ssh.Auth.Token.{
  client_id_for, with_dot, conversation_id_base64, check_claims, verify_bearer_token,
}

module _ {ℓ} {PublicKey : Type ℓ} (crates : Crates PublicKey) where
  pub record IsFor (claims : JwtClaims) (now : ℕ) (username : Text) (conversation_id : Bytes)
      : Type 0 where
    pub issuer : claims.iss ≡ username
    pub subject : claims.sub ≡ token_subject
    pub audience : claims.aud ≡ token_audience
    pub client : claims.client_id ≡ client_id_for username
    pub identifier : claims.jti ≡ conversation_id_base64 crates conversation_id
    pub issued : claims.iat ≤ now
    pub unexpired : now < claims.exp

  check_claims-IsFor :
      (claims : JwtClaims) (now : ℕ) (username : Text) (conversation_id : Bytes)
      → check_claims crates claims now username conversation_id ≡ ok tt
      → IsFor claims now username conversation_id
  unfolding check_claims conversation_id_base64
  check_claims-IsFor claims now username conversation_id h =
      let (issuer, h1) = check-inv _ _ _ _ h in
      let (subject, h2) = check-inv _ _ _ _ h1 in
      let (audience, h3) = check-inv _ _ _ _ h2 in
      let (client, h4) = check-inv _ _ _ _ h3 in
      let (identifier, h5) = check-inv _ _ _ _ h4 in
      let (issued, h6) = check-inv _ _ _ _ h5 in
      let on_time : not (ltb now claims.iat) ≡ true = issued in
      let live : not (leb claims.exp now) ≡ true = check_passed _ _ h6 in
      record {
        issuer = (bytes_eq_iff _ _).0 issuer;
        subject = (bytes_eq_iff _ _).0 subject;
        audience = (bytes_eq_iff _ _).0 audience;
        client = (bytes_eq_iff _ _).0 client;
        identifier = (bytes_eq_iff _ _).0 identifier;
        issued = ground (arith, on_time);
        unexpired = ground (arith, live);
      }

  -- The key's algorithm signed the header and the claims of the token, and the claims name the
  -- user and the conversation at the time `now`.
  pub record IsAccepted (key : PublicKey) (now : ℕ) (token username : Text)
      (conversation_id : Bytes) : Type 0 where
    pub algorithm : JwtAlgorithm
    pub signing_input : Text
    pub header_part : Text
    pub claims_part : Text
    pub signature_part : Text
    pub header_json : Bytes
    pub claims_json : Bytes
    pub signature : Bytes
    pub header : JwtHeader
    pub claims : JwtClaims
    pub layout : token ≡ with_dot signing_input signature_part
    pub input_layout : signing_input ≡ with_dot header_part claims_part
    pub expected_algorithm : jwt_algorithm_for_public_key crates key ≡ ok algorithm
    pub decoded_header : crates.decode_url header_part ≡ some header_json
    pub parsed_header : crates.header_from_slice header_json ≡ some header
    pub named_algorithm : header.alg ≡ as_str algorithm
    pub decoded_claims : crates.decode_url claims_part ≡ some claims_json
    pub parsed_claims : crates.claims_from_slice claims_json ≡ some claims
    pub claimed : IsFor claims now username conversation_id
    pub decoded_signature : crates.decode_url signature_part ≡ some signature
    pub signed :
        verify_jwt_signature crates key algorithm (crates.as_bytes signing_input) signature ≡ ok tt

  -- If a token is accepted, the clock was read, and the token is a header, claims and a signature
  -- joined with dots: the header names the algorithm of the key, the claims are for the user and
  -- the conversation, issued no later than now and expiring after it, and the signature is valid.
  pub verify_bearer_token-IsAccepted :
      (key : PublicKey) (clock : Option ℕ) (token username : Text) (conversation_id : Bytes)
      → verify_bearer_token crates key clock token username conversation_id ≡ ok tt
      → (now : ℕ) × (clock ≡ some now) × IsAccepted key now token username conversation_id
  unfolding verify_bearer_token rsplit_once split_once
  verify_bearer_token-IsAccepted key clock token username conversation_id h =
      let (algorithm, expected, h1) = >>=-inv _ _ _ h in
      let ((signing_input, signature_part), outer, h2) = ok_or-inv _ _ _ _ h1 in
      let ((header_part, claims_part), inner, h3) = ok_or-inv _ _ _ _ h2 in
      let (header_json, decoded_header, h4) = ok_or-inv _ _ _ _ h3 in
      let (header, parsed_header, h5) = ok_or-inv _ _ _ _ h4 in
      let (named, h6) = check-inv _ _ _ _ h5 in
      let (claims_json, decoded_claims, h7) = ok_or-inv _ _ _ _ h6 in
      let (claims, parsed_claims, h8) = ok_or-inv _ _ _ _ h7 in
      let (now, read, h9) = ok_or-inv _ _ _ _ h8 in
      let (checked, claimed, h10) = >>=-inv _ _ _ h9 in
      let (signature, decoded_signature, signed) = ok_or-inv _ _ _ _ h10 in
      (
        now,
        read,
        record {
          algorithm = algorithm;
          signing_input = signing_input;
          header_part = header_part;
          claims_part = claims_part;
          signature_part = signature_part;
          header_json = header_json;
          claims_json = claims_json;
          signature = signature;
          header = header;
          claims = claims;
          layout = rsplit_once-inv b'.' token (signing_input, signature_part) outer;
          input_layout = split_once-inv b'.' signing_input (header_part, claims_part) inner;
          expected_algorithm = expected;
          decoded_header = decoded_header;
          parsed_header = parsed_header;
          named_algorithm = (bytes_eq_iff _ _).0 named;
          decoded_claims = decoded_claims;
          parsed_claims = parsed_claims;
          claimed = check_claims-IsFor claims now username conversation_id claimed;
          decoded_signature = decoded_signature;
          signed = signed;
        },
      )
