-- ===== src/Server/Config.antt =====
-- The configuration of the server, and the checks before a listener and a connection are served.
pub mod Local
use ssh.Base.{
  ℕ, List, [], ◌∷◌, ◌/◌, ◌%◌, Bytes, Bool, true, false, not, ◌&&◌, ◌||◌, Option, none, some, ◌==◌,
  codes, if◌then◌else◌,
}
use ssh.Io.{IoError, invalid_input, permission_denied, unsupported, Result, ok, err}
use ssh.Io.Fallible.{◌>>=◌, check}
use ssh.Text.{Text}

-- `std::net::IpAddr`: four octets, or eight segments of 16 bits.
pub record Ipv4Addr : Type 0 where
  pub first : ℕ
  pub second : ℕ
  pub third : ℕ
  pub fourth : ℕ

pub record Ipv6Addr : Type 0 where
  pub s0 : ℕ
  pub s1 : ℕ
  pub s2 : ℕ
  pub s3 : ℕ
  pub s4 : ℕ
  pub s5 : ℕ
  pub s6 : ℕ
  pub s7 : ℕ

pub data IpAddr : Type 0 where
  v4 : Ipv4Addr → IpAddr
  v6 : Ipv6Addr → IpAddr

pub record SocketAddr : Type 0 where
  pub ip : IpAddr
  pub port : ℕ

-- `Ipv4Addr::is_loopback`, `Ipv6Addr::is_loopback` and `Ipv6Addr::to_ipv4_mapped` of the standard
-- library.
abbrev pub is_loopback_v4 : Ipv4Addr → Bool
is_loopback_v4 addr = addr.first == 127

abbrev pub are_zero : List ℕ → Bool
are_zero [] = true
are_zero (n ∷ ns) = n == 0 && are_zero ns

abbrev pub is_loopback_v6 : Ipv6Addr → Bool
is_loopback_v6 a = are_zero (a.s0 ∷ a.s1 ∷ a.s2 ∷ a.s3 ∷ a.s4 ∷ a.s5 ∷ a.s6 ∷ []) && a.s7 == 1

abbrev pub to_ipv4_mapped : Ipv6Addr → Option Ipv4Addr
to_ipv4_mapped a =
    if are_zero (a.s0 ∷ a.s1 ∷ a.s2 ∷ a.s3 ∷ a.s4 ∷ []) && a.s5 == 0xffff
    then some (record {
      first = a.s6 / 256;
      second = a.s6 % 256;
      third = a.s7 / 256;
      fourth = a.s7 % 256;
    })
    else none

abbrev pub is_some_and {ℓ} : {A : Type ℓ} → (A → Bool) → Option A → Bool
is_some_and test none = false
is_some_and test (some a) = test a

unfoldable pub is_loopback_ip : IpAddr → Bool
is_loopback_ip (v4 addr) = is_loopback_v4 addr
is_loopback_ip (v6 addr) = is_loopback_v6 addr || is_some_and is_loopback_v4 (to_ipv4_mapped addr)

-- The verifier stands in the configuration as the function it is.
pub record ServerConfig : Type 0 where
  pub bind_addr : SocketAddr
  pub cert_subject_alt_names : List Text
  pub server_header : Text
  pub max_packet_size : ℕ
  pub default_datagrams_queue_size : ℕ
  pub require_authentication : Bool
  pub allow_insecure_unauthenticated_remote : Bool
  pub enable_password_login : Bool
  pub authorized_identity_paths : List Text
  pub default_user : Option Text
  pub shell : Option Text
  pub password_verifier : Option (Text → Text → Result IoError Bool)

abbrev pub non_empty : Text → Option Text
non_empty [] = none
non_empty (c ∷ cs) = some (c ∷ cs)

abbrev pub filter_non_empty : Option Text → Option Text
filter_non_empty none = none
filter_non_empty (some text) = non_empty text

-- `ServerConfig::default`, from the name of the process's user and the variable `SHELL`.
unfoldable pub default : Text → Option Text → Option Text → ServerConfig
default version current_username shell_variable = record {
  bind_addr = record {
    ip = v4 (record { first = 127; second = 0; third = 0; fourth = 1 });
    port = 4433;
  };
  cert_subject_alt_names = codes "localhost" ∷ [];
  server_header = version;
  max_packet_size = 30000;
  default_datagrams_queue_size = 10;
  require_authentication = false;
  allow_insecure_unauthenticated_remote = false;
  enable_password_login = false;
  authorized_identity_paths = [];
  default_user = current_username;
  shell = filter_non_empty shell_variable;
  password_verifier = none;
}

abbrev pub are_empty {ℓ} : {A : Type ℓ} → List A → Bool
are_empty [] = true
are_empty (x ∷ xs) = false

unfoldable pub should_authenticate : ServerConfig → Bool
should_authenticate config =
    config.require_authentication
    || config.enable_password_login
    || not (are_empty config.authorized_identity_paths)

abbrev pub has_value {ℓ} : {A : Type ℓ} → Option A → Bool
has_value none = false
has_value (some a) = true

-- On Linux, where the passwords of the system can be checked.
abbrev pub platform_password_auth_available : Bool
platform_password_auth_available = true

unfoldable pub password_auth_available : ServerConfig → Bool
password_auth_available config =
    has_value config.password_verifier || platform_password_auth_available

unfoldable pub validate_listener_addr : ServerConfig → SocketAddr → Result IoError (Unit {0})
unfolding is_loopback_ip should_authenticate
validate_listener_addr config addr = check invalid_input (
    not (
      not (is_loopback_ip addr.ip)
      && not (should_authenticate config)
      && not config.allow_insecure_unauthenticated_remote))

unfoldable pub validate_server_config : ServerConfig → Result IoError (Unit {0})
unfolding password_auth_available validate_listener_addr
validate_server_config config = do
  _ ← check unsupported (not (config.enable_password_login && not (password_auth_available config)))
  validate_listener_addr config config.bind_addr

unfoldable pub validate_connection_addresses :
    ServerConfig → Option IpAddr → SocketAddr → Result IoError (Unit {0})
unfolding is_loopback_ip should_authenticate
validate_connection_addresses config local_ip remote_addr = check permission_denied (
    not (
      not (should_authenticate config)
      && not config.allow_insecure_unauthenticated_remote
      && (not (is_loopback_ip remote_addr.ip)
          || is_some_and (λ ip. not (is_loopback_ip ip)) local_ip)))

-- What `serve_endpoint` checks before it accepts the first connection, for the address on which
-- the endpoint listens.
unfoldable pub serve_endpoint : ServerConfig → Result IoError SocketAddr → Result IoError SocketAddr
unfolding validate_server_config validate_listener_addr
serve_endpoint config local_addr = do
  _ ← validate_server_config config
  listen_addr ← local_addr
  _ ← validate_listener_addr config listen_addr
  ok listen_addr

-- What `serve_connection` checks before it reads anything of the connection; it closes the
-- connection where the second check refuses it.
pub data Admission : Type 0 where
  admitted : Admission
  refused : IoError → Admission
  closed : IoError → Admission

abbrev pub admission : Result IoError (Unit {0}) → (IoError → Admission) → Admission → Admission
admission (ok done) on_error next = next
admission (err e) on_error next = on_error e

unfoldable pub admit_connection : ServerConfig → Option IpAddr → SocketAddr → Admission
unfolding validate_server_config validate_connection_addresses
admit_connection config local_ip remote_addr =
    admission (validate_server_config config) refused
      (admission (validate_connection_addresses config local_ip remote_addr) closed admitted)
