-- ===== src/Client/Credentials.antt =====
-- The `authorization` header of the client.
pub mod Parsed
use ssh.Base.{
  ℕ, ◌+◌, Bytes, List, [], ◌∷◌, ◌++◌, Bool, true, false, Option, none, some, ltb, if◌then◌else◌,
  codes,
}
use ssh.Io.{Result, ok, err}
use ssh.Text.{Text, trim}
use ssh.Auth.{bearer_authorization_value}
use ssh.Client.Agent.{AgentSelection}

pub record OidcConfig : Type 0 where
  pub issuer_url : Text
  pub client_id : Text
  pub client_secret : Option Text
  pub use_pkce : Bool

pub data TrustStrategy : Type 0 where
  web_pki_roots : TrustStrategy
  certificates : List Bytes → TrustStrategy
  insecure : TrustStrategy

pub record ClientConfig : Type 0 where
  pub target_url : Text
  pub server_name : Option Text
  pub username : Option Text
  pub identity_file : Option Text
  pub agent : Option AgentSelection
  pub agent_socket : Option Text
  pub forward_agent : Bool
  pub password : Option Text
  pub bearer_token : Option Text
  pub oidc : Option OidcConfig
  pub user_agent : Text
  pub max_packet_size : ℕ
  pub default_datagrams_queue_size : ℕ
  pub trust : TrustStrategy

-- `ClientConfig::new`; the version is that of the crates.
unfoldable pub new_config : Text → Text → ClientConfig
new_config version target_url = record {
  target_url = target_url;
  server_name = none;
  username = none;
  identity_file = none;
  agent = none;
  agent_socket = none;
  forward_agent = false;
  password = none;
  bearer_token = none;
  oidc = none;
  user_agent = version;
  max_packet_size = 30000;
  default_datagrams_queue_size = 10;
  trust = web_pki_roots;
}

pub data CredentialsError : Type 0 where
  conflicting_authentication_methods : CredentialsError
  missing_username_for_password : CredentialsError

-- `usize::from` of a test.
abbrev pub one_if_some {ℓ} : {A : Type ℓ} → Option A → ℕ
one_if_some none = 0
one_if_some (some a) = 1

abbrev pub non_empty : Text → Option Text
non_empty [] = none
non_empty (c ∷ cs) = some (c ∷ cs)

-- The bearer token without the whitespace around it, if anything is left.
abbrev pub trimmed_token : Option Text → Option Text
trimmed_token none = none
trimmed_token (some token) = non_empty (trim token)

unfoldable pub auth_method_count : ClientConfig → ℕ
unfolding trim
auth_method_count config =
    one_if_some config.identity_file
    + one_if_some config.agent
    + one_if_some config.password
    + one_if_some (trimmed_token config.bearer_token)
    + one_if_some config.oidc

-- `encode` is `BASE64_STANDARD.encode`, `as_bytes` is `str::as_bytes`.
module _ (encode : Bytes → Text) (as_bytes : Text → Bytes) where
  unfoldable pub basic_authorization_value : Text → Text → Text
  basic_authorization_value username password =
      codes "Basic " ++ encode (as_bytes (username ++ b':' ∷ password))

  unfoldable pub password_header : Option Text → Option Text → Result CredentialsError (Option Text)
  unfolding basic_authorization_value
  password_header username none = ok none
  password_header none (some password) = err missing_username_for_password
  password_header (some username) (some password) =
      ok (some (basic_authorization_value username password))

  unfoldable pub token_or_password_header :
      Option Text → Option Text → Option Text → Result CredentialsError (Option Text)
  unfolding bearer_authorization_value password_header
  token_or_password_header (some token) username password =
      ok (some (bearer_authorization_value token))
  token_or_password_header none username password = password_header username password

  unfoldable pub precomputed_authorization_header :
      ClientConfig → Result CredentialsError (Option Text)
  unfolding auth_method_count token_or_password_header trim
  precomputed_authorization_header config =
      if ltb 1 (auth_method_count config)
      then err conflicting_authentication_methods
      else token_or_password_header (trimmed_token config.bearer_token) config.username
          config.password
