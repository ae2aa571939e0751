-- ===== src/Client/Agent/Selected.antt =====
-- Which identity `select_identity` of crates/ssh3-client/src/agent.rs chooses among those listed.
use ssh.Base.{
  ◌≡◌, ◌≢◌, ◌↔◌, ◌∙◌, refl, sym, ◌⊎◌, inl, inr, Bytes, List, [], ◌∷◌, ◌++◌, All, Bool, true, false,
  Option, none, some, bytes_eq, bytes_eq_iff, Bool-cases, true≢false,
}
use ssh.Io.{Result, ok, err}
use ssh.Io.Fallible.{ok_or}
use ssh.Text.{Text}
use ssh.Client.Agent.{
  AgentError, ssh_key, agent_key_not_found, unsupported_agent_key, AgentIdentity, AgentSelection,
  first, public_key, find_identity, check_supported, select_blob, select_from,
}

module _ {ℓ} {PublicKey : Type ℓ} where
  -- The first identity in the list of which the predicate holds; or it holds of none.
  abbrev pub IsFirst :
      (AgentIdentity PublicKey → Type 0)
      → List (AgentIdentity PublicKey)
      → AgentIdentity PublicKey
      → Type ℓ
  IsFirst P identities identity =
      (before after : List (AgentIdentity PublicKey)) × (identities ≡ before ++ identity ∷ after)
      × All (λ other. ¬ P other) before
      × P identity

  -- The first such identity is the result; or there is none, and the result is an error.
  abbrev pub IsFound :
      (AgentIdentity PublicKey → Type 0)
      → List (AgentIdentity PublicKey)
      → Result AgentError (AgentIdentity PublicKey)
      → Type ℓ
  IsFound P identities result =
      (All (λ other. ¬ P other) identities × (result ≡ err agent_key_not_found))
      ⊎ ((identity : AgentIdentity PublicKey) × IsFirst P identities identity
          × (result ≡ ok identity))

  module _ (from_bytes : Bytes → Option PublicKey) (load_agent_key_blob : Text → Option Bytes)
      (is_supported_agent_key : PublicKey → Bool) (algorithm : PublicKey → Text) where
    abbrev pub IsSupported : AgentIdentity PublicKey → Type 0
    IsSupported identity = is_supported_agent_key identity.public_key ≡ true

    -- For the blob of a key file: the first identity with that blob, if its key is supported.
    abbrev pub IsSelectedBlob :
        Option Bytes
        → List (AgentIdentity PublicKey)
        → Result AgentError (AgentIdentity PublicKey)
        → Type ℓ
    IsSelectedBlob none identities result = result ≡ err ssh_key
    IsSelectedBlob (some blob) identities result =
        (All (λ (other : AgentIdentity PublicKey). other.key_blob ≢ blob) identities
          × (result ≡ err agent_key_not_found))
        ⊎ ((identity : AgentIdentity PublicKey) × IsFirst (λ other. other.key_blob ≡ blob)
              identities identity
            × ((IsSupported identity × (result ≡ ok identity))
                ⊎ ((is_supported_agent_key identity.public_key ≡ false)
                    × (result ≡ err (unsupported_agent_key (algorithm identity.public_key))))))

    -- Without a file: the first identity whose key is supported.
    abbrev pub IsSelected :
        AgentSelection
        → List (AgentIdentity PublicKey)
        → Result AgentError (AgentIdentity PublicKey)
        → Type ℓ
    IsSelected first identities result = IsFound IsSupported identities result
    IsSelected (public_key path) identities result =
        IsSelectedBlob (load_agent_key_blob path) identities result

    skipped :
        (P : AgentIdentity PublicKey → Type 0) (identity : AgentIdentity PublicKey)
        (rest : List (AgentIdentity PublicKey))
        (found : Result AgentError (AgentIdentity PublicKey))
        → ¬ P identity
        → IsFound P rest found
        → IsFound P (identity ∷ rest) found
    skipped P identity rest found apart (inl (all, same)) = inl ((apart, all), same)
    skipped P identity rest found apart
          (inr (chosen, (before, after, split, none_before, holds), same)) =
        inr (chosen, (identity ∷ before, after, rw split refl, (apart, none_before), holds), same)

    find_identity-IsFound :
        (P : AgentIdentity PublicKey → Type 0) (test : AgentIdentity PublicKey → Bool)
        → ((identity : AgentIdentity PublicKey) → (test identity ≡ true) ↔ P identity)
        → (identities : List (AgentIdentity PublicKey))
        → IsFound P identities (
            find_identity from_bytes load_agent_key_blob is_supported_agent_key algorithm test
              identities)
    unfolding find_identity
    find_identity-IsFound P test decides [] = inl (tt, refl)
    find_identity-IsFound P test decides (identity ∷ rest) = elim (Bool-cases (test identity)) [
      | inl hit ↦ rw hit (inr (identity, ([], rest, refl, tt, (decides identity).0 hit), refl))
      | inr miss ↦ rw miss (
          skipped P identity rest _ (λ holds. true≢false (sym ((decides identity).1 holds) ∙ miss))
            (find_identity-IsFound P test decides rest))
    ]

    checked-IsSelectedBlob :
        (blob : Bytes) (identities : List (AgentIdentity PublicKey))
        (found : Result AgentError (AgentIdentity PublicKey))
        → IsFound (λ other. other.key_blob ≡ blob) identities found
        → IsSelectedBlob
            (some blob)
            identities
            (check_supported from_bytes load_agent_key_blob is_supported_agent_key algorithm found)
    checked-IsSelectedBlob blob identities found (inl (all, same)) = rw same (inl (all, refl))
    checked-IsSelectedBlob blob identities found (inr (identity, chosen, same)) =
        rw same (elim (Bool-cases (is_supported_agent_key identity.public_key)) [
          | inl known ↦ rw known (inr (identity, chosen, inl (known, refl)))
          | inr unknown ↦ rw unknown (inr (identity, chosen, inr (unknown, refl)))
        ])

    blob-IsSelectedBlob :
        (blob : Option Bytes) (identities : List (AgentIdentity PublicKey))
        → IsSelectedBlob blob identities (
            select_blob from_bytes load_agent_key_blob is_supported_agent_key algorithm
              (ok_or ssh_key blob)
              identities)
    unfolding select_blob
    blob-IsSelectedBlob none identities = refl
    blob-IsSelectedBlob (some blob) identities = checked-IsSelectedBlob blob identities _ (
        find_identity-IsFound (λ other. other.key_blob ≡ blob)
          (λ identity. bytes_eq identity.key_blob blob)
          (λ identity. bytes_eq_iff identity.key_blob blob) identities)

    pub select_from-IsSelected :
        (selection : AgentSelection) (identities : List (AgentIdentity PublicKey))
        → IsSelected selection identities (
            select_from from_bytes load_agent_key_blob is_supported_agent_key algorithm selection
              identities)
    unfolding select_from
    select_from-IsSelected first identities =
        find_identity-IsFound IsSupported _ (λ identity. ((λ e. e), (λ e. e))) identities
    select_from-IsSelected (public_key path) identities =
        blob-IsSelectedBlob (load_agent_key_blob path) identities
