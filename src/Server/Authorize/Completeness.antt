-- ===== src/Server/Authorize/Completeness.antt =====
-- The token that a client builds with a listed key admits it.
use ssh.Base.{
  ◌≡◌, refl, ◌+◌, ◌^◌, ◌<◌, ◌≤◌, inl, inr, Bytes, List, [], ◌∷◌, Memᴰ, All, Bool, true, false, not,
  some, ℕ, if◌then◌else◌, Bool-cases,
}
use ssh.Io.{Result, ok}
use ssh.Text.{Text}
use ssh.Auth.{token_lifetime_secs, AuthError, JwtAlgorithm, AuthorizedIdentity, public_key}
use ssh.Auth.Signature.{jwt_algorithm_for_public_key, verify_jwt_signature}
use ssh.Auth.Token.{build_bearer_token_with_signer}
use ssh.Auth.RoundTrip.{AreFaithful, verify_bearer_token-build_bearer_token_with_signer}
use ssh.Auth.Listed.Files.{
  IsListed, IsUsable, load_authorized_identities_from_paths-mem,
  load_authorized_identities_from_paths_usable,
}
use ssh.Server.Config.{ServerConfig, should_authenticate, are_empty}
use ssh.Server.Request.{SessionUser, bearer, configured_authorized_identity_paths}
use ssh.Server.Authorize.{
  Surroundings, accepts, any_accepts, authorize_bearer, authorize_as, authorize_request,
}

module _ {ℓ} {PublicKey : Type ℓ} (around : Surroundings PublicKey) where
  mem-any_accepts :
      (token username : Text) (conversation_id : Bytes) (identity : AuthorizedIdentity PublicKey)
      (identities : List (AuthorizedIdentity PublicKey))
      → Memᴰ identity identities
      → accepts around token username conversation_id identity ≡ true
      → (if are_empty identities
          then false
          else any_accepts around token username conversation_id identities)
        ≡ true
  unfolding any_accepts
  mem-any_accepts token username conversation_id identity (first ∷ rest) (Memᴰ.head e) accepted =
      let here : accepts around token username conversation_id first ≡ true = rw (← e) accepted in
      rw (here)
  mem-any_accepts token username conversation_id identity (first ∷ second ∷ rest) (Memᴰ.tail later)
        accepted =
      elim (Bool-cases (accepts around token username conversation_id first)) [
        | inl early ↦ rw (early)
        | inr refused ↦
            rw (refused) (
              mem-any_accepts token username conversation_id identity (second ∷ rest) later
                accepted)
      ]
  mem-any_accepts token username conversation_id identity (first ∷ []) (Memᴰ.tail later) accepted =
      elim later [ ]
  mem-any_accepts token username conversation_id identity [] later accepted = elim later [ ]

  authorize_bearer_listed :
      (token : Text) (session_user : SessionUser) (conversation_id : Bytes) (config : ServerConfig)
      (identity : AuthorizedIdentity PublicKey)
      → IsListed around.parse_entry around.read_to_string identity
          (configured_authorized_identity_paths around.join config session_user)
      → All
          (IsUsable around.parse_entry around.read_to_string)
          (configured_authorized_identity_paths around.join config session_user)
      → accepts around token session_user.username conversation_id identity ≡ true
      → authorize_bearer around token session_user conversation_id config ≡ ok true
  unfolding authorize_bearer
  authorize_bearer_listed token session_user conversation_id config identity listed usable
        accepted =
      let paths = configured_authorized_identity_paths around.join config session_user in
      let (identities, loaded) =
        load_authorized_identities_from_paths_usable around.parse_entry around.read_to_string paths
          usable in
      let place =
        (load_authorized_identities_from_paths-mem around.parse_entry around.read_to_string identity
            paths identities loaded).1
          listed in
      rw (
        loaded,
        mem-any_accepts token session_user.username conversation_id identity identities place
            accepted,
      )

  -- Where a file of the configured identities lists the key, every such file is there or missing,
  -- and base64 and JSON give back what they were given, the token that is built with a signer for
  -- that key admits its user to the conversation until the lifetime of the token is over.
  pub authorize_request-build_bearer_token_with_signer :
      AreFaithful around.crates
      → (key : PublicKey) (algorithm : JwtAlgorithm) (signer : Bytes → Bytes) (issued now : ℕ)
        (session_user : SessionUser) (conversation_id : Bytes) (config : ServerConfig)
      → jwt_algorithm_for_public_key around.crates key ≡ ok algorithm
      → ((input : Bytes)
          → verify_jwt_signature around.crates key algorithm input (signer input) ≡ ok tt)
      → IsListed around.parse_entry around.read_to_string
          (public_key key)
          (configured_authorized_identity_paths around.join config session_user)
      → All
          (IsUsable around.parse_entry around.read_to_string)
          (configured_authorized_identity_paths around.join config session_user)
      → around.clock ≡ some now
      → issued + token_lifetime_secs < 2 ^ 64
      → issued ≤ now
      → now < issued + token_lifetime_secs
      → (token : Text) × (build_bearer_token_with_signer around.crates key
            (some issued)
            session_user.username
            conversation_id
            (λ chosen input. ok (signer input))
          ≡ ok token)
        × (authorize_request around (bearer token) session_user conversation_id config ≡ ok true)
  unfolding authorize_request authorize_as accepts
  authorize_request-build_bearer_token_with_signer faithful key algorithm signer issued now
        session_user conversation_id config known signs listed usable read fits after before =
      let (token, built, verified) =
        verify_bearer_token-build_bearer_token_with_signer around.crates faithful key algorithm
          signer issued now session_user.username conversation_id known signs fits after before in
      let accepted : accepts around token session_user.username conversation_id (public_key key)
          ≡ true =
        rw (read, verified) refl in
      let answered =
        authorize_bearer_listed token session_user conversation_id config (public_key key) listed
          usable accepted in
      (token, built, either_way (should_authenticate config) answered)
    where
      either_way :
          (guarded : Bool) {answer : Result AuthError Bool}
          → answer ≡ ok true
          → (if not guarded then ok true else answer) ≡ ok true
      either_way true e = e
      either_way false e = refl
