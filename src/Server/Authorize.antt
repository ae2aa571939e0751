-- ===== src/Server/Authorize.antt =====
-- Whether the server admits a request: `authorize_request`, with the files, the clock, the
-- provider of OpenID Connect, the crates and the password check of the system as parameters.
pub mod Soundness
pub mod Completeness
use ssh.Base.{
  Bytes, List, [], ◌∷◌, Bool, true, false, not, ◌||◌, Option, none, some, ℕ, bytes_eq,
  if◌then◌else◌,
}
use ssh.Io.{IoError, Result, ok, err}
use ssh.Io.Fallible.{◌>>=◌, is_ok, map_err}
use ssh.Text.{Text}
use ssh.Auth.{AuthError, io, AuthorizedIdentity, public_key, oidc, Crates}
use ssh.Auth.Identities.{load_authorized_identities_from_paths}
use ssh.Auth.Token.{conversation_id_base64, verify_bearer_token}
use ssh.Auth.Oidc.{Provider, verify_oidc_identity_token}
use ssh.Server.Config.{ServerConfig, should_authenticate, are_empty}
use ssh.Server.Request.{
  SessionUser, RequestAuthorization, nobody, basic, bearer, configured_authorized_identity_paths,
}

pub record Surroundings {ℓ} (PublicKey : Type ℓ) : Type ℓ where
  pub crates : Crates PublicKey
  pub provider : Provider
  -- `AuthorizedKeyEntry::from_str`, `std::fs::read_to_string`, `Path::join`.
  pub parse_entry : Text → Option PublicKey
  pub read_to_string : Text → Result IoError Text
  pub join : Text → Text → Text
  -- The seconds since the epoch, or none before it.
  pub clock : Option ℕ
  -- `default_password_verifier`, which asks the system.
  pub default_password_verifier : Text → Text → Result IoError Bool

module _ {ℓ} {PublicKey : Type ℓ} (around : Surroundings PublicKey) where
  abbrev pub chosen_verifier :
      Option (Text → Text → Result IoError Bool) → Text → Text → Result IoError Bool
  chosen_verifier (some verifier) username password = verifier username password
  chosen_verifier none username password = around.default_password_verifier username password

  unfoldable pub verify_password : ServerConfig → Text → Text → Result IoError Bool
  verify_password config username password =
      chosen_verifier config.password_verifier username password

  -- Whether the token is accepted for one identity.
  unfoldable pub accepts : Text → Text → Bytes → AuthorizedIdentity PublicKey → Bool
  unfolding verify_bearer_token verify_oidc_identity_token conversation_id_base64
  accepts token username conversation_id (public_key key) =
      is_ok (verify_bearer_token around.crates key around.clock token username conversation_id)
  accepts token username conversation_id (oidc identity) = is_ok (
      verify_oidc_identity_token around.crates around.provider around.clock identity token
        (some (conversation_id_base64 around.crates conversation_id)))

  unfoldable pub any_accepts : Text → Text → Bytes → List (AuthorizedIdentity PublicKey) → Bool
  unfolding accepts
  any_accepts token username conversation_id [] = false
  any_accepts token username conversation_id (identity ∷ identities) =
      accepts token username conversation_id identity
      || any_accepts token username conversation_id identities

  unfoldable pub authorize_bearer :
      Text → SessionUser → Bytes → ServerConfig → Result AuthError Bool
  unfolding load_authorized_identities_from_paths configured_authorized_identity_paths any_accepts
  authorize_bearer token session_user conversation_id config = do
    identities ←
        load_authorized_identities_from_paths around.parse_entry around.read_to_string
          (configured_authorized_identity_paths around.join config session_user)
    ok (
        if are_empty identities
        then false
        else any_accepts token session_user.username conversation_id identities)

  unfoldable pub authorize_basic : Text → Text → SessionUser → ServerConfig → Result AuthError Bool
  unfolding verify_password
  authorize_basic username password session_user config =
      if not config.enable_password_login || not (bytes_eq username session_user.username)
      then ok false
      else map_err io (verify_password config username password)

  unfoldable pub authorize_as :
      RequestAuthorization → SessionUser → Bytes → ServerConfig → Result AuthError Bool
  unfolding authorize_basic authorize_bearer
  authorize_as (basic username password) session_user conversation_id config =
      authorize_basic username password session_user config
  authorize_as (bearer token) session_user conversation_id config =
      authorize_bearer token session_user conversation_id config
  authorize_as nobody session_user conversation_id config = ok false

  unfoldable pub authorize_request :
      RequestAuthorization → SessionUser → Bytes → ServerConfig → Result AuthError Bool
  unfolding should_authenticate authorize_as
  authorize_request authorization session_user conversation_id config =
      if not (should_authenticate config)
      then ok true
      else authorize_as authorization session_user conversation_id config
