-- ===== src/Examples/Access.antt =====
-- A server with one key in one file, and the runs of the theorems on who may connect.
use ssh.Base.{
  ℕ, ◌≡◌, refl, inl, inr, Memᴰ, Bytes, List, [], ◌∷◌, ◌++◌, true, false, Option, none, some,
  bytes_eq, codes, if◌then◌else◌, arith, ◌↔◌,
}
use ssh.Io.{IoError, not_found, Result, ok, err}
use ssh.Text.{Text, is_whitespace, lines}
use ssh.Auth.{io, ed_dsa, OidcIdentity, AuthorizedIdentity, public_key}
use ssh.Auth.Signature.{jwt_algorithm_for_public_key}
use ssh.Auth.Token.{build_bearer_token_with_signer, verify_bearer_token}
use ssh.Auth.RoundTrip.{verify_bearer_token-build_bearer_token_with_signer}
use ssh.Auth.Lifetime
use ssh.Auth.Lifetime.{verify_bearer_token-IsAccepted}
use ssh.Auth.Oidc.{one, Provider, verify_oidc_identity_token}
use ssh.Auth.Oidc.Checks
use ssh.Auth.Oidc.Checks.{verify_oidc_identity_token-IsAccepted}
use ssh.Auth.Identities.{parse_line, load_authorized_identities_from_paths, parse_oidc_identity}
use ssh.Auth.Listed.{spaced, parse_oidc_identity-fields}
use ssh.Auth.Listed.Files.{
  IsListed, load_authorized_identities_from_paths-mem, load_authorized_identities_from_paths_failed,
}
use ssh.Server.Config.{
  v4, SocketAddr, ServerConfig, default, is_loopback_ip, should_authenticate, admit_connection,
  admitted,
}
use ssh.Server.Config.Local.{IsLocal, admit_connection-IsLocal}
use ssh.Server.Request.{
  SessionUser, basic, bearer, configured_authorized_identity_paths, parse_authorization_value,
}
use ssh.Client.Credentials.{
  ClientConfig, new_config, precomputed_authorization_header, basic_authorization_value,
}
use ssh.Client.Credentials.Parsed.{parse_authorization_value-precomputed_authorization_header}
use ssh.Server.Authorize.{Surroundings, authorize_request}
use ssh.Server.Authorize.Soundness.{IsAuthorized, authorize_request-IsAuthorized}
use ssh.Server.Authorize.Completeness.{authorize_request-build_bearer_token_with_signer}
use ssh.Examples.Crates.{
  unary_encode, unary_decode, crates, crates-AreFaithful, crates_sign, unary_decode-unary_encode,
  unary_encode-HasNoSpace,
}

abbrev alice : Text
alice = codes "al"

abbrev keys_path : Text
keys_path = codes "keys"

abbrev conversation_id : Bytes
conversation_id = 1 ∷ 2 ∷ []

abbrev read_file : Text → Result IoError Text
read_file path =
    if bytes_eq path keys_path
    then ok (codes "# keys\nkey\n")
    else if bytes_eq path (codes "shut")
    then err IoError.permission_denied
    else err not_found

abbrev read_entry : Text → Option (Unit {0})
read_entry text = if bytes_eq text (codes "key") then some tt else none

abbrev pub config : ServerConfig
unfolding default
config = record (default (codes "SSH 3.0") (some alice) none) {
  authorized_identity_paths = keys_path ∷ codes "none" ∷ [];
}

abbrev pub user : SessionUser
user = record {
  username = alice;
  home_dir = codes "/home/al";
  shell = codes "/bin/sh";
  uid = 7;
  gid = 7;
}

-- The witness of the round trip: a token built at 100 is accepted at 159.
verify_bearer_token-build_example :
    (token : Text) × (build_bearer_token_with_signer crates tt
        (some 100)
        alice
        conversation_id
        (λ chosen input. ok input)
      ≡ ok token)
    × (verify_bearer_token crates tt (some 159) token alice conversation_id ≡ ok tt)
unfolding jwt_algorithm_for_public_key crates
verify_bearer_token-build_example =
    verify_bearer_token-build_bearer_token_with_signer crates crates-AreFaithful tt ed_dsa
      (λ input. input) 100 159 alice conversation_id refl crates_sign (omega arith) (omega arith)
      (omega arith)

built :
    (token : Text) × (build_bearer_token_with_signer crates tt
        (some 100)
        alice
        conversation_id
        (λ chosen input. ok input)
      ≡ ok token)
    × (verify_bearer_token crates tt (some 159) token alice conversation_id ≡ ok tt)
unfolding jwt_algorithm_for_public_key crates
built =
    verify_bearer_token-build_bearer_token_with_signer crates crates-AreFaithful tt ed_dsa
      (λ input. input) 100 159 alice conversation_id refl crates_sign (omega arith) (omega arith)
      (omega arith)

verify_bearer_token-IsAccepted_example :
    (now : ℕ) × (some 159 ≡ some now)
    × Lifetime.IsAccepted crates tt now built.0 alice conversation_id
verify_bearer_token-IsAccepted_example =
    verify_bearer_token-IsAccepted crates tt (some 159) built.0 alice conversation_id built.2

abbrev issuer : Text
issuer = codes "https://id/"

abbrev coordinate : Text
coordinate = codes "bbbbbbbbbbbbbbbbbbbbbbbbbbbbbbbb"

abbrev provider : Provider
provider = record {
  header_from_slice = λ bytes. some (record { alg = codes "ES256"; kid = none });
  claims_from_slice = λ bytes. some (record {
    iss = issuer;
    aud = one (codes "ssh");
    exp = 160;
    nonce = some (codes "n");
    email = some (codes "al@id");
    email_verified = true;
  });
  get_discovery = λ url.
      if bytes_eq url (codes "https://id/.well-known/openid-configuration")
      then some (record { issuer = issuer; jwks_uri = codes "keys" })
      else none;
  get_jwks = λ url. some (record {
    keys =
        record {
          kty = codes "EC";
          kid = none;
          alg = none;
          n = none;
          e = none;
          crv = some (codes "P-256");
          x = some coordinate;
          y = some coordinate;
        }
        ∷ [];
  });
}

abbrev identity : OidcIdentity
identity = record { client_id = codes "ssh"; issuer_url = issuer; email = codes "al@id" }

verify_oidc_example :
    verify_oidc_identity_token crates provider
      (some 159)
      identity
      (codes "b.b.b")
      (some (codes "n"))
    ≡ ok tt
unfolding verify_oidc_identity_token crates
verify_oidc_example = refl

verify_oidc_identity_token-IsAccepted_example :
    (now : ℕ) × (some 159 ≡ some now)
    × Checks.IsAccepted crates provider now identity (codes "b.b.b") (some (codes "n"))
verify_oidc_identity_token-IsAccepted_example =
    verify_oidc_identity_token-IsAccepted crates provider (some 159) identity (codes "b.b.b")
      (some (codes "n")) verify_oidc_example

parse_oidc_identity-fields_example :
    parse_oidc_identity
      (spaced (codes "oidc") (spaced (codes "ssh") (spaced issuer (codes "al@id"))))
    ≡ some identity
unfolding is_whitespace
parse_oidc_identity-fields_example =
    parse_oidc_identity-fields identity (refl, (refl, (refl, tt)))
      (refl, (refl, (refl, (refl, (refl, (refl, (refl, (refl, (refl, (refl, (refl, tt)))))))))))
      (refl, (refl, (refl, (refl, (refl, tt)))))

abbrev paths : List Text
paths = keys_path ∷ codes "none" ∷ []

abbrev listed_key : AuthorizedIdentity (Unit {0})
listed_key = public_key tt

load_example :
    load_authorized_identities_from_paths read_entry read_file paths ≡ ok (listed_key ∷ [])
unfolding load_authorized_identities_from_paths
load_example = refl

load_authorized_identities_from_paths-mem_example :
    Memᴰ listed_key (listed_key ∷ []) ↔ IsListed read_entry read_file listed_key paths
load_authorized_identities_from_paths-mem_example =
    load_authorized_identities_from_paths-mem read_entry read_file listed_key paths
      (listed_key ∷ []) load_example

load_authorized_identities_from_paths_failed_example :
    load_authorized_identities_from_paths read_entry read_file (keys_path ∷ codes "shut" ∷ [])
    ≡ err (io IoError.permission_denied)
load_authorized_identities_from_paths_failed_example =
    load_authorized_identities_from_paths_failed read_entry read_file (keys_path ∷ [])
      (codes "shut") [] IoError.permission_denied (inl (codes "# keys\nkey\n", refl), tt) refl
      (λ same. cc)

abbrev pub around : Surroundings (Unit {0})
around = record {
  crates = crates;
  provider = provider;
  parse_entry = read_entry;
  read_to_string = read_file;
  join = λ directory name. directory ++ b'/' ∷ name;
  clock = some 159;
  default_password_verifier = λ username password. ok false;
}

authorize_request-build_example :
    (token : Text) × (build_bearer_token_with_signer crates tt
        (some 100)
        alice
        conversation_id
        (λ chosen input. ok input)
      ≡ ok token)
    × (authorize_request around (bearer token) user conversation_id config ≡ ok true)
unfolding jwt_algorithm_for_public_key crates configured_authorized_identity_paths default lines
    parse_line
authorize_request-build_example =
    authorize_request-build_bearer_token_with_signer around crates-AreFaithful tt ed_dsa
      (λ input. input) 100 159 user conversation_id config refl crates_sign
      (
        keys_path,
        codes "# keys\nkey\n",
        Memᴰ.head refl,
        refl,
        (codes "key", Memᴰ.tail (Memᴰ.head refl), refl),
      )
      (inl (codes "# keys\nkey\n", refl), (inr refl, tt)) refl (omega arith) (omega arith)
      (omega arith)

abbrev pub with_passwords : ServerConfig
with_passwords = record config {
  enable_password_login = true;
  password_verifier = some (λ username password. ok (bytes_eq password (codes "pw")));
}

password_example :
    authorize_request around (basic alice (codes "pw")) user conversation_id with_passwords
    ≡ ok true
unfolding authorize_request config
password_example = refl

authorize_request-IsAuthorized_example :
    IsAuthorized around user conversation_id with_passwords (basic alice (codes "pw"))
authorize_request-IsAuthorized_example =
    authorize_request-IsAuthorized around (basic alice (codes "pw")) user conversation_id
      with_passwords password_example

abbrev open_config : ServerConfig
unfolding default
open_config = default (codes "SSH 3.0") (some alice) none

abbrev peer : SocketAddr
peer = record { ip = v4 (record { first = 127; second = 0; third = 0; fourth = 9 }); port = 50000 }

admit_example : admit_connection open_config none peer ≡ admitted
unfolding admit_connection default
admit_example = refl

admit_connection-IsLocal_example : (is_loopback_ip peer.ip ≡ true) × IsLocal none
unfolding should_authenticate default
admit_connection-IsLocal_example =
    admit_connection-IsLocal open_config none peer admit_example refl refl

abbrev client : ClientConfig
unfolding new_config
client = record (new_config (codes "SSH 3.0") (codes "https://host/ssh")) {
  username = some alice;
  password = some (codes "p:w");
}

header_example :
    parse_authorization_value unary_decode some
      (basic_authorization_value unary_encode (λ text. text) alice (codes "p:w"))
    ≡ basic alice (codes "p:w")
unfolding precomputed_authorization_header client
header_example =
    parse_authorization_value-precomputed_authorization_header unary_encode unary_decode
      (λ text. text) some
      (record {
        no_space = unary_encode-HasNoSpace;
        decode-encode = unary_decode-unary_encode;
        from_utf8-as_bytes = λ text. refl;
      })
      client (basic_authorization_value unary_encode (λ text. text) alice (codes "p:w")) tt
      (refl, (refl, tt)) refl
