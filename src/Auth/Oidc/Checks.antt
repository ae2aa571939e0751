-- ===== src/Auth/Oidc/Checks.antt =====
-- What an OpenID Connect token says that `verify_oidc_identity_token` accepts.
use ssh.Base.{
  Memᴰ, sym, ℕ, ◌<◌, ◌≡◌, Bytes, List, [], ◌∷◌, Bool, true, not, Option, none, some, leb,
  bytes_eq_iff, arith, Bool-cases, inl, inr,
}
use ssh.Io.{ok}
use ssh.Io.Fallible.{>>=-inv, ok_or-inv, check-inv, check_passed}
use ssh.Text.{Text, rsplit_once, split_once}
use ssh.Text.Split.{split_once-inv, rsplit_once-inv}
use ssh.Auth.{OidcIdentity, Crates}
use ssh.Auth.Token.{with_dot}
use ssh.Auth.Oidc.{
  OidcJwtHeader, OidcClaims, OidcDiscoveryDocument, OidcJwk, OidcJwks, Provider, contains, is_equal,
  serves, find, select_oidc_jwk, verify_with_provider, verify_oidc_jwk_signature, nonce_matches,
  check_oidc_claims, discovery_url, verify_oidc_identity_token,
}

find-inv {ℓ} :
    {A : Type ℓ} (test : A → Bool) (xs : List A) (x : A)
    → find test xs ≡ some x
    → (test x ≡ true) × Memᴰ x xs
unfolding find
find-inv test [] x h = absurd cc
find-inv test (y ∷ ys) x h = elim (Bool-cases (test y)) [
  | inl passed ↦
      let same : some y ≡ some x = rw (← h, passed) in
      let e : y ≡ x = cc in (rw (← e) passed, Memᴰ.head (sym e))
  | inr refused ↦
      let later : find test ys ≡ some x = rw (← h, refused) in
      let (passed, listed) = find-inv test ys x later in (passed, Memᴰ.tail listed)
]

is_equal→eq :
    (value : Option Text) (expected : Text) → is_equal value expected ≡ true → value ≡ some expected
is_equal→eq none expected h = absurd cc
is_equal→eq (some value) expected h = rw ((bytes_eq_iff value expected).0 h)

module _ {ℓ} {PublicKey : Type ℓ} (crates : Crates PublicKey) (provider : Provider) where
  pub record IsFor (claims : OidcClaims) (now : ℕ) (identity : OidcIdentity)
      (expected_nonce : Option Text) : Type 0 where
    pub issuer : claims.iss ≡ identity.issuer_url
    pub audience : contains claims.aud identity.client_id ≡ true
    pub unexpired : now < claims.exp
    pub email : claims.email ≡ some identity.email
    pub verified : claims.email_verified ≡ true
    pub nonce : nonce_matches crates expected_nonce claims.nonce ≡ true

  check_oidc_claims-IsFor :
      (identity : OidcIdentity) (claims : OidcClaims) (now : ℕ) (expected_nonce : Option Text)
      → check_oidc_claims crates identity claims now expected_nonce ≡ ok tt
      → IsFor claims now identity expected_nonce
  unfolding check_oidc_claims
  check_oidc_claims-IsFor identity claims now expected_nonce h =
      let (issuer, c1) = check-inv _ _ _ _ h in
      let (audience, c2) = check-inv _ _ _ _ c1 in
      let (unexpired, c3) = check-inv _ _ _ _ c2 in
      let (email, c4) = check-inv _ _ _ _ c3 in
      let (verified, c5) = check-inv _ _ _ _ c4 in
      let live : not (leb claims.exp now) ≡ true = unexpired in
      record {
        issuer = (bytes_eq_iff _ _).0 issuer;
        audience = audience;
        unexpired = ground (arith, live);
        email = is_equal→eq _ _ email;
        verified = verified;
        nonce = check_passed _ _ c5;
      }

  -- A key from the provider of the identity's issuer signed the input.
  pub record IsSigned (identity : OidcIdentity) (header : OidcJwtHeader)
      (signing_input signature_part : Text) : Type 0 where
    pub discovery : OidcDiscoveryDocument
    pub jwks : OidcJwks
    pub jwk : OidcJwk
    pub signature : Bytes
    pub discovered :
        provider.get_discovery (discovery_url crates identity.issuer_url) ≡ some discovery
    pub same_issuer : discovery.issuer ≡ identity.issuer_url
    pub fetched : provider.get_jwks discovery.jwks_uri ≡ some jwks
    pub listed : Memᴰ jwk jwks.keys
    pub selected : serves header jwk ≡ true
    pub decoded_signature : crates.decode_url signature_part ≡ some signature
    pub signed :
        verify_oidc_jwk_signature crates jwk header.alg (crates.as_bytes signing_input) signature
        ≡ ok tt

  verify_with_provider-IsSigned :
      (identity : OidcIdentity) (header : OidcJwtHeader) (signing_input signature_part : Text)
      → verify_with_provider crates provider identity header signing_input signature_part ≡ ok tt
      → IsSigned identity header signing_input signature_part
  unfolding verify_with_provider select_oidc_jwk
  verify_with_provider-IsSigned identity header signing_input signature_part h =
      let (discovery, discovered, h11) = ok_or-inv _ _ _ _ h in
      let (same_issuer, h12) = check-inv _ _ _ _ h11 in
      let (jwks, fetched, h13) = ok_or-inv _ _ _ _ h12 in
      let (jwk, selected, h14) = ok_or-inv _ _ _ _ h13 in
      let (signature, decoded_signature, signed) = ok_or-inv _ _ _ _ h14 in
      let (passed, listed) = find-inv (serves header) jwks.keys jwk selected in
      record {
        discovery = discovery;
        jwks = jwks;
        jwk = jwk;
        signature = signature;
        discovered = discovered;
        same_issuer = (bytes_eq_iff _ _).0 same_issuer;
        fetched = fetched;
        listed = listed;
        selected = passed;
        decoded_signature = decoded_signature;
        signed = signed;
      }

  pub record IsAccepted (now : ℕ) (identity : OidcIdentity) (token : Text)
      (expected_nonce : Option Text) : Type 0 where
    pub signing_input : Text
    pub header_part : Text
    pub claims_part : Text
    pub signature_part : Text
    pub header_json : Bytes
    pub claims_json : Bytes
    pub header : OidcJwtHeader
    pub claims : OidcClaims
    pub layout : token ≡ with_dot signing_input signature_part
    pub input_layout : signing_input ≡ with_dot header_part claims_part
    pub decoded_header : crates.decode_url header_part ≡ some header_json
    pub parsed_header : provider.header_from_slice header_json ≡ some header
    pub decoded_claims : crates.decode_url claims_part ≡ some claims_json
    pub parsed_claims : provider.claims_from_slice claims_json ≡ some claims
    pub claimed : IsFor claims now identity expected_nonce
    pub signed : IsSigned identity header signing_input signature_part

  -- If a token is accepted for an identity, the clock was read, and the token is a header, claims
  -- and a signature joined with dots: the claims are the identity's issuer, client and verified
  -- email, expiring after now, with the expected nonce if there is one, and the signature is valid
  -- for one of the provider's keys that serves the header, where the provider named that issuer.
  pub verify_oidc_identity_token-IsAccepted :
      (clock : Option ℕ) (identity : OidcIdentity) (token : Text) (expected_nonce : Option Text)
      → verify_oidc_identity_token crates provider clock identity token expected_nonce ≡ ok tt
      → (now : ℕ) × (clock ≡ some now) × IsAccepted now identity token expected_nonce
  unfolding verify_oidc_identity_token rsplit_once split_once
  verify_oidc_identity_token-IsAccepted clock identity token expected_nonce h =
      let ((signing_input, signature_part), outer, h2) = ok_or-inv _ _ _ _ h in
      let ((header_part, claims_part), inner, h3) = ok_or-inv _ _ _ _ h2 in
      let (header_json, decoded_header, h4) = ok_or-inv _ _ _ _ h3 in
      let (header, parsed_header, h5) = ok_or-inv _ _ _ _ h4 in
      let (claims_json, decoded_claims, h7) = ok_or-inv _ _ _ _ h5 in
      let (claims, parsed_claims, h8) = ok_or-inv _ _ _ _ h7 in
      let (now, read, h9) = ok_or-inv _ _ _ _ h8 in
      let (checked, claimed, signed) = >>=-inv _ _ _ h9 in
      (
        now,
        read,
        record {
          signing_input = signing_input;
          header_part = header_part;
          claims_part = claims_part;
          signature_part = signature_part;
          header_json = header_json;
          claims_json = claims_json;
          header = header;
          claims = claims;
          layout = rsplit_once-inv b'.' token (signing_input, signature_part) outer;
          input_layout = split_once-inv b'.' signing_input (header_part, claims_part) inner;
          decoded_header = decoded_header;
          parsed_header = parsed_header;
          decoded_claims = decoded_claims;
          parsed_claims = parsed_claims;
          claimed = check_oidc_claims-IsFor identity claims now expected_nonce claimed;
          signed =
              verify_with_provider-IsSigned identity header signing_input signature_part signed;
        },
      )
