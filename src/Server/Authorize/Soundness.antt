-- ===== src/Server/Authorize/Soundness.antt =====
-- Who is admitted.
use ssh.Base.{
  subst, ◌≡◌, refl, sym, ap, inl, inr, Bytes, List, [], ◌∷◌, Memᴰ, Bool, true, false, not, ◌||◌,
  some, ℕ, bytes_eq, bytes_eq_iff, if◌then◌else◌, Bool-cases,
}
use ssh.Io.{IoError, Result, ok, err}
use ssh.Io.Fallible.{>>=-inv, is_ok_iff, map_err}
use ssh.Text.{Text}
use ssh.Auth.{AuthError, io, AuthorizedIdentity, public_key, oidc}
use ssh.Auth.Token.{conversation_id_base64}
use ssh.Auth.Lifetime
use ssh.Auth.Lifetime.{verify_bearer_token-IsAccepted}
use ssh.Auth.Oidc.Checks
use ssh.Auth.Oidc.Checks.{verify_oidc_identity_token-IsAccepted}
use ssh.Auth.Listed.Files.{IsListed, load_authorized_identities_from_paths-mem}
use ssh.Server.Config.{ServerConfig, should_authenticate, are_empty}
use ssh.Server.Request.{
  SessionUser, RequestAuthorization, nobody, basic, bearer, configured_authorized_identity_paths,
}
use ssh.Server.Authorize.{
  Surroundings, verify_password, accepts, any_accepts, authorize_basic, authorize_bearer,
  authorize_as, authorize_request,
}

module _ {ℓ} {PublicKey : Type ℓ} (around : Surroundings PublicKey) where
  -- The token is for the user and the conversation, at the time of the clock.
  abbrev pub Vouches : Text → Text → Bytes → ℕ → AuthorizedIdentity PublicKey → Type 0
  Vouches token username conversation_id now (public_key key) =
      Lifetime.IsAccepted around.crates key now token username conversation_id
  Vouches token username conversation_id now (oidc identity) =
      Checks.IsAccepted around.crates around.provider now identity token
        (some (conversation_id_base64 around.crates conversation_id))

  -- What admits a request for a user on a conversation.
  pub data IsAuthorized (session_user : SessionUser) (conversation_id : Bytes)
      (config : ServerConfig) : RequestAuthorization → Type ℓ where
    without_authentication :
        {authorization : RequestAuthorization}
        → should_authenticate config ≡ false
        → IsAuthorized session_user conversation_id config authorization
    by_password :
        {password : Text}
        → config.enable_password_login ≡ true
        → verify_password around config session_user.username password ≡ ok true
        → IsAuthorized session_user conversation_id config (basic session_user.username password)
    by_token :
        {token : Text} {now : ℕ} (identity : AuthorizedIdentity PublicKey)
        → IsListed around.parse_entry around.read_to_string identity
            (configured_authorized_identity_paths around.join config session_user)
        → around.clock ≡ some now
        → Vouches token session_user.username conversation_id now identity
        → IsAuthorized session_user conversation_id config (bearer token)

  accepts-Vouches :
      (token username : Text) (conversation_id : Bytes) (identity : AuthorizedIdentity PublicKey)
      → accepts around token username conversation_id identity ≡ true
      → (now : ℕ) × (around.clock ≡ some now) × Vouches token username conversation_id now identity
  unfolding accepts
  accepts-Vouches token username conversation_id (public_key key) h =
      verify_bearer_token-IsAccepted around.crates key around.clock token username conversation_id
        (is_ok_iff _ h)
  accepts-Vouches token username conversation_id (oidc identity) h =
      verify_oidc_identity_token-IsAccepted around.crates around.provider around.clock identity
        token _ (is_ok_iff _ h)

  any_accepts-mem :
      (token username : Text) (conversation_id : Bytes)
      (identities : List (AuthorizedIdentity PublicKey))
      → any_accepts around token username conversation_id identities ≡ true
      → (identity : AuthorizedIdentity PublicKey) × Memᴰ identity identities
        × (accepts around token username conversation_id identity ≡ true)
  unfolding any_accepts
  any_accepts-mem token username conversation_id [] h = absurd cc
  any_accepts-mem token username conversation_id (first ∷ rest) h =
      elim (Bool-cases (accepts around token username conversation_id first)) [
        | inl accepted ↦ (first, Memᴰ.head refl, accepted)
        | inr refused ↦
            let later : any_accepts around token username conversation_id rest ≡ true =
              rw (← h, refused) in
            let (identity, place, accepted) =
              any_accepts-mem token username conversation_id rest later in
            (identity, Memᴰ.tail place, accepted)
      ]

  abbrev ok_or_not : Bool → Result AuthError Bool
  ok_or_not answer = ok answer

  chosen_identity :
      (token username : Text) (conversation_id : Bytes)
      (identities : List (AuthorizedIdentity PublicKey))
      → ok_or_not (
          if are_empty identities
          then false
          else any_accepts around token username conversation_id identities)
        ≡ ok true
      → any_accepts around token username conversation_id identities ≡ true
  chosen_identity token username conversation_id [] h = absurd cc
  chosen_identity token username conversation_id (first ∷ rest) h = cc

  authorize_bearer-IsAuthorized :
      (token : Text) (session_user : SessionUser) (conversation_id : Bytes) (config : ServerConfig)
      → authorize_bearer around token session_user conversation_id config ≡ ok true
      → IsAuthorized session_user conversation_id config (bearer token)
  unfolding authorize_bearer
  authorize_bearer-IsAuthorized token session_user conversation_id config h =
      let (identities, loaded, chosen) = >>=-inv _ _ _ h in
      let (identity, place, accepted) =
        any_accepts-mem token session_user.username conversation_id identities
          (chosen_identity token session_user.username conversation_id identities chosen) in
      let (now, read, vouched) =
        accepts-Vouches token session_user.username conversation_id identity accepted in
      by_token identity
        ((load_authorized_identities_from_paths-mem around.parse_entry around.read_to_string
            identity _ identities loaded).0
          place)
        read vouched

  passed_guard :
      (enabled same : Bool) (checked : Result IoError Bool)
      → (if not enabled || not same then ok false else map_err io checked) ≡ ok true
      → (enabled ≡ true) × (same ≡ true) × (checked ≡ ok true)
  passed_guard true true (ok answer) h = (refl, refl, ap ok cc)
  passed_guard true true (err e) h = absurd cc
  passed_guard true false checked h = absurd cc
  passed_guard false same checked h = absurd cc

  authorize_basic-IsAuthorized :
      (username password : Text) (session_user : SessionUser) (conversation_id : Bytes)
      (config : ServerConfig)
      → authorize_basic around username password session_user config ≡ ok true
      → IsAuthorized session_user conversation_id config (basic username password)
  unfolding authorize_basic
  authorize_basic-IsAuthorized username password session_user conversation_id config h =
      let (enabled, same, checked) =
        passed_guard config.enable_password_login (bytes_eq username session_user.username)
          (verify_password around config username password) h in
      let e : session_user.username ≡ username = sym ((bytes_eq_iff _ _).0 same) in
      subst (λ name. IsAuthorized session_user conversation_id config (basic name password)) e
        (by_password enabled
          (subst (λ name. verify_password around config name password ≡ ok true) (sym e) checked))

  -- A request is admitted only where the server does not authenticate, or password login is on and
  -- the verifier accepts the password for the session's user, or a file of the configured identities
  -- lists an identity for which the token is accepted for that user and this conversation.
  pub authorize_request-IsAuthorized :
      (authorization : RequestAuthorization) (session_user : SessionUser) (conversation_id : Bytes)
      (config : ServerConfig)
      → authorize_request around authorization session_user conversation_id config ≡ ok true
      → IsAuthorized session_user conversation_id config authorization
  unfolding authorize_request authorize_as
  authorize_request-IsAuthorized authorization session_user conversation_id config h =
      elim (Bool-cases (should_authenticate config)) [
        | inr open_to_all ↦ without_authentication open_to_all
        | inl guarded ↦ checked authorization (rw (← h, guarded))
      ]
    where
      checked :
          (authorization : RequestAuthorization)
          → authorize_as around authorization session_user conversation_id config ≡ ok true
          → IsAuthorized session_user conversation_id config authorization
      checked (basic username password) e =
          authorize_basic-IsAuthorized username password session_user conversation_id config e
      checked (bearer token) e =
          authorize_bearer-IsAuthorized token session_user conversation_id config e
      checked nobody e = absurd cc
