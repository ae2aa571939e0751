-- ===== src/Client/Agent/Identities.antt =====
-- The identities that the agent lists, and the one that is selected.
use ssh.Base.{
  sym, suc, ◌^◌, ◌<◌, ◌≡◌, refl, ap, ◌∙◌, Bytes, List, [], ◌∷◌, ◌++◌, append_assoc, append-nil, All,
  Bool, Option, some, length, arith,
}
use ssh.Io.{Result, resume, Stream, prepend, ok, ◌>>=◌, pure, lift}
use ssh.Io.Fallible.{ok_or}
use ssh.Text.{Text}
use ssh.Client.Agent.{
  AgentError, ssh_key, AgentIdentity, AgentSelection, Cursor, ssh_agent_identities_answer,
  ssh_agentc_request_identities, to_be_bytes, read_byte, read_ssh_string, check_end,
  read_identities, parse_identities, list_identities, select_from, select_identity,
}
use ssh.Client.Agent.Selected.{IsSelected, select_from-IsSelected}
use ssh.Client.Agent.Octets.{framed, read_u32-to_be_bytes, read_ssh_string-framed}
use ssh.Client.Agent.Replies.{talking, exchanged}

module _ {ℓ} {PublicKey : Type ℓ} (from_bytes : Bytes → Option PublicKey) where
  -- An identity with its comment, as the agent lists it.
  abbrev pub Entry : Type ℓ
  Entry = AgentIdentity PublicKey × Bytes

  abbrev pub identities_of : List Entry → List (AgentIdentity PublicKey)
  identities_of [] = []
  identities_of ((identity, comment) ∷ entries) = identity ∷ identities_of entries

  abbrev pub entries_bytes : List Entry → Bytes
  entries_bytes [] = []
  entries_bytes ((identity, comment) ∷ entries) =
      framed identity.key_blob ++ (framed comment ++ entries_bytes entries)

  -- The crate reads the key, and the lengths fit 32 bits.
  abbrev pub IsReadable : Entry → Type ℓ
  IsReadable (identity, comment) =
      (from_bytes identity.key_blob ≡ some identity.public_key)
      × (length identity.key_blob < 2 ^ 32)
      × (length comment < 2 ^ 32)

  abbrev pub identities_reply : List Entry → Bytes
  identities_reply entries =
      ssh_agent_identities_answer ∷ to_be_bytes (length entries) ++ entries_bytes entries

  read_identities-entries_bytes :
      (entries : List Entry) (rest : Bytes)
      → All IsReadable entries
      → read_identities from_bytes (length entries) (entries_bytes entries ++ rest)
        ≡ (ok (identities_of entries), rest)
  unfolding read_identities ◌>>=◌ pure lift
  read_identities-entries_bytes [] rest h = refl
  read_identities-entries_bytes ((identity, comment) ∷ entries) rest
        ((known, small, short), readable) =
      let others : Bytes = entries_bytes entries ++ rest in
      let layout : entries_bytes ((identity, comment) ∷ entries) ++ rest
          ≡ framed identity.key_blob ++ (framed comment ++ others) =
        append_assoc (framed identity.key_blob) (framed comment ++ entries_bytes entries) rest
        ∙ ap (λ tail. framed identity.key_blob ++ tail)
            (append_assoc (framed comment) (entries_bytes entries) rest) in
      let finish : List (AgentIdentity PublicKey) → Cursor (List (AgentIdentity PublicKey)) =
        λ found. pure (identity ∷ found) in
      let decode : Option PublicKey → Cursor (List (AgentIdentity PublicKey)) = λ key.
        lift (ok_or ssh_key key) >>= (λ k.
          read_identities from_bytes (length entries)
          >>= (λ found. pure (record { key_blob = identity.key_blob; public_key = k } ∷ found))) in
      let after : Bytes → Cursor (List (AgentIdentity PublicKey)) = λ blob.
        read_ssh_string >>= (λ c. lift (ok_or ssh_key (from_bytes blob)) >>= (λ k.
          read_identities from_bytes (length entries)
          >>= (λ found. pure (record { key_blob = blob; public_key = k } ∷ found)))) in
      ap (read_identities from_bytes (suc (length entries))) layout
      ∙ ap (λ o. resume o.0 after o.1)
          (read_ssh_string-framed identity.key_blob (framed comment ++ others) small)
      ∙ ap (λ o. resume o.0 (λ c. decode (from_bytes identity.key_blob)) o.1)
          (read_ssh_string-framed comment others short)
      ∙ ap (λ key. decode key others) known
      ∙ ap (λ o. resume o.0 finish o.1) (read_identities-entries_bytes entries rest readable)

  parse_identities-identities_reply :
      (entries : List Entry)
      → length entries < 2 ^ 32
      → All IsReadable entries
      → parse_identities from_bytes (identities_reply entries) ≡ ok (identities_of entries)
  unfolding parse_identities ◌>>=◌ pure lift read_byte
  parse_identities-identities_reply entries h readable =
      let whole : read_identities from_bytes (length entries) (entries_bytes entries)
          ≡ (ok (identities_of entries), []) =
        ap (read_identities from_bytes (length entries)) (sym (append-nil (entries_bytes entries)))
        ∙ read_identities-entries_bytes entries [] readable in
      let listed : List (AgentIdentity PublicKey) → Cursor (List (AgentIdentity PublicKey)) =
        λ found. check_end >>= (λ u. pure found) in
      ap (λ o. (resume o.0 (λ count. read_identities from_bytes count >>= listed) o.1).0)
        (read_u32-to_be_bytes (length entries) (entries_bytes entries) h)
      ∙ ap (λ o. (resume o.0 listed o.1).0) whole

  module _ (load_agent_key_blob : Text → Option Bytes) (is_supported_agent_key : PublicKey → Bool)
      (algorithm : PublicKey → Text) where
    -- On a socket whose writes do not fail, if the agent lists identities whose keys the crate reads,
    -- `select_identity` sends one message with the request and takes exactly the answer; all lengths
    -- are below 2^32. Without a key file it returns the first identity whose key is supported; with
    -- one, the first with the blob of that file, or the error that its key is unsupported. Where no
    -- identity is such, or the file gives no blob, it returns that error.
    pub select_identity-identities_reply :
        (selection : AgentSelection) (sent : Bytes) (closed : Bool) (s : Stream)
        (entries : List Entry)
        → length entries < 2 ^ 32
        → length (identities_reply entries) < 2 ^ 32
        → All IsReadable entries
        → (result : Result AgentError (AgentIdentity PublicKey)) × (select_identity from_bytes
              load_agent_key_blob is_supported_agent_key algorithm selection
              (talking sent closed (prepend (framed (identities_reply entries)) s))
            ≡ (result, talking (sent ++ framed (ssh_agentc_request_identities ∷ [])) closed s))
          × IsSelected from_bytes load_agent_key_blob is_supported_agent_key algorithm selection
              (identities_of entries)
              result
    unfolding select_identity list_identities ◌>>=◌ lift
    select_identity-identities_reply selection sent closed s entries h k readable = (
      select_from from_bytes load_agent_key_blob is_supported_agent_key algorithm selection
          (identities_of entries),
      ap
          (λ o.
            resume o.0
              (λ found. lift (
                select_from from_bytes load_agent_key_blob is_supported_agent_key algorithm
                  selection found))
              o.1)
          (exchanged sent closed (ssh_agentc_request_identities ∷ []) (identities_reply entries) s
            (parse_identities from_bytes) (ok (identities_of entries)) (omega arith) k
            (parse_identities-identities_reply entries h readable)),
      select_from-IsSelected from_bytes load_agent_key_blob is_supported_agent_key algorithm
          selection (identities_of entries),
    )
