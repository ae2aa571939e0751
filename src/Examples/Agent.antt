-- ===== src/Examples/Agent.antt =====
-- An agent with one key.
use ssh.Base.{
  bytes_eq, ◌≡◌, refl, Bytes, List, [], ◌∷◌, ◌++◌, Bool, false, none, some, codes, arith,
}
use ssh.Io.{Stream, unexpected_eof, prepend, ok}
use ssh.Client.Agent.{
  AgentIdentity, first, ssh_agent_sign_response, ssh_agentc_sign_request,
  ssh_agentc_request_identities, to_be_bytes, sign, select_identity,
}
use ssh.Client.Agent.Octets.{framed}
use ssh.Client.Agent.Replies.{talking, sign-framed}
use ssh.Io.{Result}
use ssh.Client.Agent.{AgentError}
use ssh.Client.Agent.Selected.{IsSelected}
use ssh.Client.Agent.Identities.{identities_of, identities_reply, select_identity-identities_reply}

abbrev quiet : Stream
quiet = record { bytes = []; ending = unexpected_eof }

sign_example :
    sign some
      (1 ∷ [])
      (2 ∷ 3 ∷ [])
      0
      (talking [] false (prepend (framed (ssh_agent_sign_response ∷ framed (9 ∷ []))) quiet))
    ≡ (
      ok (9 ∷ []),
      talking
          ([]
            ++ framed
                (ssh_agentc_sign_request ∷ framed (1 ∷ []) ++ framed (2 ∷ 3 ∷ []) ++ to_be_bytes 0))
          false
          quiet,
    )
sign_example =
    sign-framed some [] false quiet (1 ∷ []) (2 ∷ 3 ∷ []) (9 ∷ []) 0 (9 ∷ []) (omega arith)
      (omega arith) refl

abbrev entries : List (AgentIdentity Bytes × Bytes)
entries =
    (record { key_blob = 1 ∷ []; public_key = 1 ∷ [] }, codes "old")
    ∷ (record { key_blob = 2 ∷ []; public_key = 2 ∷ [] }, [])
    ∷ []

abbrev is_second : Bytes → Bool
is_second key = bytes_eq key (2 ∷ [])

select_example :
    (result : Result AgentError (AgentIdentity Bytes)) × (select_identity some
        (λ path. none)
        is_second
        (λ key. codes "ssh-ed25519")
        first
        (talking [] false (prepend (framed (identities_reply some entries)) quiet))
      ≡ (result, talking ([] ++ framed (ssh_agentc_request_identities ∷ [])) false quiet))
    × IsSelected some
        (λ path. none)
        is_second
        (λ key. codes "ssh-ed25519")
        first
        (identities_of some entries)
        result
unfolding to_be_bytes
select_example =
    select_identity-identities_reply some (λ path. none) is_second (λ key. codes "ssh-ed25519")
      first [] false quiet entries (omega arith) (omega arith)
      ((refl, omega arith, omega arith), ((refl, omega arith, omega arith), tt))
