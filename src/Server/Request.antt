-- ===== src/Server/Request.antt =====
-- What the server reads of the request that opens a conversation: the user and the authorization.
-- base64, the decoding of UTF-8 and the user database are parameters.
pub mod Credentials
use ssh.Base.{
  ℕ, ◌+◌, Bytes, List, [], ◌∷◌, ◌++◌, Bool, true, false, not, ◌&&◌, Option, none, some, bytes_eq,
  ltb, length, take, drop, codes, if◌then◌else◌, ◌==◌, ◌>>=◌,
}
use ssh.Io.{IoError, permission_denied, Result, ok, err}
use ssh.Text.{Text, trim, eq_ignore_ascii_case, split_once, split}
use ssh.Server.Config.{ServerConfig, non_empty, filter_non_empty, are_empty}

-- What the code reads of `http::Request`: whether it is an extended CONNECT for SSH3, the two
-- headers as text, where they are there and are text, and the query.
pub record Request : Type 0 where
  pub is_ssh3_connect : Bool
  pub user_header : Option Text
  pub authorization_header : Option Text
  pub query : Option Text

pub record SessionUser : Type 0 where
  pub username : Text
  pub home_dir : Text
  pub shell : Text
  pub uid : ℕ
  pub gid : ℕ

-- `splitn(2, '=')`: the key, and the value or the empty text.
abbrev pub key_and_value : Text → Text × Text
unfolding split_once
key_and_value entry = elim (split_once b'=' entry) [ none ↦ (entry, []) | some parts ↦ parts ]

abbrev pub value_of : Text → Text × Text → Option Text
value_of name (key, value) = if bytes_eq key name then non_empty value else none

abbrev pub or_else {ℓ} : {A : Type ℓ} → Option A → Option A → Option A
or_else none other = other
or_else (some a) other = some a

unfoldable pub find_value : Text → List Text → Option Text
unfolding split_once
find_value name [] = none
find_value name (entry ∷ entries) =
    or_else (value_of name (key_and_value entry)) (find_value name entries)

unfoldable pub extract_query_param : Option Text → Text → Option Text
unfolding find_value split
extract_query_param query name = do text ← query; find_value name (split b'&' text)

abbrev pub trimmed : Option Text → Option Text
unfolding trim
trimmed none = none
trimmed (some value) = some (trim value)

unfoldable pub requested_username : Request → ServerConfig → Option Text
unfolding trim extract_query_param
requested_username request config =
    or_else (filter_non_empty (trimmed request.user_header))
      (or_else (extract_query_param request.query (codes "user")) config.default_user)

pub data RequestAuthorization : Type 0 where
  nobody : RequestAuthorization
  basic : Text → Text → RequestAuthorization
  bearer : Text → RequestAuthorization

abbrev pub begins_with_space : Text → Bool
begins_with_space [] = false
begins_with_space (c ∷ cs) = c == b' '

unfoldable pub strip_scheme : Text → Text → Option Text
unfolding eq_ignore_ascii_case trim
strip_scheme value scheme =
    if ltb (length scheme) (length value)
      && eq_ignore_ascii_case (take (length scheme) value) scheme
      && begins_with_space (drop (length scheme) value)
    then some (trim (drop (length scheme + 1) value))
    else none

abbrev pub basic_of : Option (Text × Text) → RequestAuthorization
basic_of none = nobody
basic_of (some (username, password)) = basic username password

abbrev pub bearer_of : Option Text → RequestAuthorization
bearer_of none = nobody
bearer_of (some token) = bearer token

module _ (decode : Text → Option Bytes) (from_utf8 : Bytes → Option Text) where
  unfoldable pub parse_basic : Text → RequestAuthorization
  unfolding split_once
  parse_basic encoded =
      basic_of (do bytes ← decode encoded; text ← from_utf8 bytes; split_once b':' text)

  unfoldable pub basic_or : Option Text → RequestAuthorization → RequestAuthorization
  unfolding parse_basic
  basic_or none other = other
  basic_or (some encoded) other = parse_basic encoded

  unfoldable pub parse_authorization_value : Text → RequestAuthorization
  unfolding strip_scheme basic_or
  parse_authorization_value value =
      basic_or (strip_scheme value (codes "Basic"))
        (bearer_of (filter_non_empty (strip_scheme value (codes "Bearer"))))

  unfoldable value_or_nobody : Option Text → RequestAuthorization
  unfolding parse_authorization_value
  value_or_nobody none = nobody
  value_or_nobody (some value) = parse_authorization_value value

  unfoldable pub parse_request_authorization : Request → RequestAuthorization
  unfolding value_or_nobody
  parse_request_authorization request = value_or_nobody request.authorization_header

abbrev pub username_of : RequestAuthorization → Option Text
username_of (basic username password) = non_empty username
username_of nobody = none
username_of (bearer token) = none

-- `lookup` is `lookup_session_user`.
abbrev pub lookup_requested :
    (Text → Result IoError SessionUser) → Option Text → Result IoError SessionUser
lookup_requested lookup none = err permission_denied
lookup_requested lookup (some username) = lookup username

unfoldable pub resolve_session_user :
    (Text → Result IoError SessionUser)
    → Request
    → RequestAuthorization
    → ServerConfig
    → Result IoError SessionUser
unfolding requested_username
resolve_session_user lookup request authorization config =
    lookup_requested lookup
      (or_else (username_of authorization) (requested_username request config))

abbrev pub or_bin_sh : Text → Text
or_bin_sh [] = codes "/bin/sh"
or_bin_sh (c ∷ cs) = c ∷ cs

-- `lookup_session_user` on Unix, for the answer of the user database.
unfoldable pub lookup_session_user :
    (Text → Result IoError (Option SessionUser)) → Text → Result IoError SessionUser
lookup_session_user from_name username = elim (from_name username) [
  | err e ↦ err e
  | ok none ↦ err IoError.not_found
  | ok (some user) ↦ ok (record user { shell = or_bin_sh user.shell })
]

unfoldable pub effective_shell : ServerConfig → SessionUser → Text
effective_shell config session_user = elim (filter_non_empty config.shell) [
  | some shell ↦ shell
  | none ↦ or_bin_sh session_user.shell
]

-- `join` is `Path::join`.
unfoldable pub default_authorized_identity_paths : (Text → Text → Text) → SessionUser → List Text
default_authorized_identity_paths join session_user =
    join (join session_user.home_dir (codes ".ssh3")) (codes "authorized_identities")
    ∷ join (join session_user.home_dir (codes ".ssh")) (codes "authorized_keys")
    ∷ []

unfoldable pub configured_authorized_identity_paths :
    (Text → Text → Text) → ServerConfig → SessionUser → List Text
unfolding default_authorized_identity_paths
configured_authorized_identity_paths join config session_user =
    if are_empty config.authorized_identity_paths
    then default_authorized_identity_paths join session_user
    else config.authorized_identity_paths
