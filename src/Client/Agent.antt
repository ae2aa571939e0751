-- ===== src/Client/Agent.antt =====
-- crates/ssh3-client/src/agent.rs: the client of the SSH agent, over the socket's two halves. The
-- keys and signatures of the ssh_key crate are parameters.
pub mod Octets
pub mod Selected
pub mod Identities
pub mod Replies
use ssh.Base.{
  ℕ, zero, suc, ◌+◌, ◌*◌, ◌/◌, ◌%◌, ◌^◌, Bytes, List, [], ◌∷◌, ◌++◌, Bool, true, false, Option,
  none, some, ltb, leb, length, take, drop, bytes_eq, codes, if◌then◌else◌, ◌==◌,
}
use ssh.Io.{
  IoError, invalid_data, invalid_input, unexpected_eof, Stream, Result, ok, err, Exec, pure, fail,
  lift, ◌>>=◌, read_exact,
}
use ssh.Io.Sink.{Sink, write_all}
use ssh.Io.Fallible.{ok_or}
use ssh.Text.{Text}
use ssh.Auth.{JwtAlgorithm, ed_dsa, es256, rs256}

abbrev pub ssh_agent_failure : ℕ
ssh_agent_failure = 5

abbrev pub ssh_agentc_request_identities : ℕ
ssh_agentc_request_identities = 11

abbrev pub ssh_agent_identities_answer : ℕ
ssh_agent_identities_answer = 12

abbrev pub ssh_agentc_sign_request : ℕ
ssh_agentc_sign_request = 13

abbrev pub ssh_agent_sign_response : ℕ
ssh_agent_sign_response = 14

abbrev pub ssh_agent_rsa_sha2_256 : ℕ
ssh_agent_rsa_sha2_256 = 2

-- `ClientError`, as far as the agent's client makes one.
pub data AgentError : Type 0 where
  io : IoError → AgentError
  ssh_key : AgentError
  agent_key_not_found : AgentError
  unsupported_agent_key : Text → AgentError

pub data AgentSelection : Type 0 where
  first : AgentSelection
  public_key : Text → AgentSelection

pub record AgentIdentity {ℓ} (PublicKey : Type ℓ) : Type ℓ where
  pub key_blob : Bytes
  pub public_key : PublicKey

-- `u32::to_be_bytes` and `u32::from_be_bytes`.
unfoldable pub to_be_bytes : ℕ → Bytes
to_be_bytes n = n / 2 ^ 24 % 256 ∷ n / 2 ^ 16 % 256 ∷ n / 2 ^ 8 % 256 ∷ n % 256 ∷ []

unfoldable pub from_be_bytes : Bytes → ℕ
from_be_bytes (a ∷ b ∷ c ∷ d ∷ []) = a * 2 ^ 24 + b * 2 ^ 16 + c * 2 ^ 8 + d
from_be_bytes _ = 0

-- A cursor over a message: what is left of it.
abbrev pub Cursor {ℓ} : Type ℓ → Type ℓ
Cursor A = Exec Bytes AgentError A

unfoldable pub append_ssh_string : Bytes → Bytes → Bytes
unfolding to_be_bytes
append_ssh_string buf bytes = buf ++ to_be_bytes (length bytes % 2 ^ 32) ++ bytes

unfoldable pub read_byte : Cursor ℕ
read_byte [] = (err (io unexpected_eof), [])
read_byte (byte ∷ rest) = (ok byte, rest)

unfoldable pub read_u32 : Cursor ℕ
unfolding from_be_bytes
read_u32 cursor =
    if ltb (length cursor) 4
    then (err (io unexpected_eof), cursor)
    else (ok (from_be_bytes (take 4 cursor)), drop 4 cursor)

abbrev pub split_at : ℕ → Cursor Bytes
split_at len cursor =
    if ltb (length cursor) len
    then (err (io unexpected_eof), cursor)
    else (ok (take len cursor), drop len cursor)

unfoldable pub read_ssh_string : Cursor Bytes
unfolding ◌>>=◌ read_u32
read_ssh_string = do len ← read_u32; split_at len

-- Nothing may follow.
abbrev pub check_end : Cursor (Unit {0})
check_end [] = (ok tt, [])
check_end (byte ∷ rest) = (err (io invalid_data), byte ∷ rest)

-- The answer's first byte: the one that is expected, a failure, or another.
abbrev pub expect_reply : ℕ → ℕ → Result AgentError (Unit {0})
expect_reply expected kind =
    if kind == expected
    then ok tt
    else if kind == ssh_agent_failure
    then err agent_key_not_found
    else err (io invalid_data)

module _ {ℓ} {PublicKey : Type ℓ} (from_bytes : Bytes → Option PublicKey) where
  unfoldable pub read_identities : ℕ → Cursor (List (AgentIdentity PublicKey))
  unfolding ◌>>=◌ pure lift read_ssh_string
  read_identities zero = pure []
  read_identities (suc count) = do
    key_blob ← read_ssh_string
    _ ← read_ssh_string
    key ← lift (ok_or ssh_key (from_bytes key_blob))
    rest ← read_identities count
    pure (record { key_blob = key_blob; public_key = key } ∷ rest)

  -- `list_identities`, for the answer of the agent.
  unfoldable pub parse_identities : Bytes → Result AgentError (List (AgentIdentity PublicKey))
  unfolding ◌>>=◌ pure lift read_byte read_u32 read_identities
  parse_identities response =
      ((do
        kind ← read_byte
        _ ← lift (expect_reply ssh_agent_identities_answer kind)
        count ← read_u32
        identities ← read_identities count
        _ ← check_end
        pure identities)
        response).0

unfoldable pub sign_request : Bytes → Bytes → ℕ → Bytes
unfolding append_ssh_string to_be_bytes
sign_request key_blob contents flags =
    append_ssh_string (append_ssh_string (ssh_agentc_sign_request ∷ []) key_blob) contents
    ++ to_be_bytes flags

-- The two halves of the agent's socket.
pub record AgentStream : Type 0 where
  pub send : Sink
  pub recv : Stream

abbrev pub Talk {ℓ} : Type ℓ → Type ℓ
Talk A = Exec AgentStream AgentError A

abbrev pub written :
    Result IoError (Unit {0}) × Sink → AgentStream → Result AgentError (Unit {0}) × AgentStream
written (ok done, sink) s = (ok tt, record s { send = sink })
written (err e, sink) s = (err (io e), record s { send = sink })

abbrev pub send_all : Bytes → Talk (Unit {0})
unfolding write_all
send_all bytes s = written (write_all bytes s.send) s

abbrev pub received {ℓ} :
    {A : Type ℓ} → Result AgentError A × Stream → AgentStream → Result AgentError A × AgentStream
received (r, stream) s = (r, record s { recv = stream })

abbrev pub receive : ℕ → Talk Bytes
unfolding read_exact
receive n s = received (read_exact io n s.recv) s

unfoldable pub write_message : Bytes → Talk (Unit {0})
unfolding ◌>>=◌ send_all fail to_be_bytes
write_message payload =
    if leb (2 ^ 32) (length payload)
    then fail (io invalid_input)
    else (do _ ← send_all (to_be_bytes (length payload)); send_all payload)

unfoldable pub read_message : Talk Bytes
unfolding ◌>>=◌ receive from_be_bytes
read_message = do len ← receive 4; receive (from_be_bytes len)

-- `Signature::try_from`, which is a parameter, on the signature of the answer.
unfoldable pub parse_signature {ℓ} :
    {Signature : Type ℓ} → (Bytes → Option Signature) → Bytes → Result AgentError Signature
unfolding ◌>>=◌ lift read_byte read_ssh_string
parse_signature try_from response =
    ((do
      kind ← read_byte
      _ ← lift (expect_reply ssh_agent_sign_response kind)
      signature_blob ← read_ssh_string
      _ ← check_end
      lift (ok_or ssh_key (try_from signature_blob)))
      response).0

unfoldable pub sign {ℓ} :
    {Signature : Type ℓ} → (Bytes → Option Signature) → Bytes → Bytes → ℕ → Talk Signature
unfolding ◌>>=◌ lift sign_request write_message read_message parse_signature
sign try_from key_blob contents flags = do
  _ ← write_message (sign_request key_blob contents flags)
  response ← read_message
  lift (parse_signature try_from response)

module _ {ℓ} {PublicKey : Type ℓ} (from_bytes : Bytes → Option PublicKey)
    (load_agent_key_blob : Text → Option Bytes) (is_supported_agent_key : PublicKey → Bool)
    (algorithm : PublicKey → Text) where
  unfoldable pub list_identities : Talk (List (AgentIdentity PublicKey))
  unfolding ◌>>=◌ lift write_message read_message parse_identities
  list_identities = do
    _ ← write_message (ssh_agentc_request_identities ∷ [])
    response ← read_message
    lift (parse_identities from_bytes response)

  unfoldable pub find_identity :
      (AgentIdentity PublicKey → Bool)
      → List (AgentIdentity PublicKey)
      → Result AgentError (AgentIdentity PublicKey)
  find_identity test [] = err agent_key_not_found
  find_identity test (identity ∷ rest) =
      if test identity then ok identity else find_identity test rest

  abbrev pub check_supported :
      Result AgentError (AgentIdentity PublicKey) → Result AgentError (AgentIdentity PublicKey)
  check_supported (err e) = err e
  check_supported (ok identity) =
      if is_supported_agent_key identity.public_key
      then ok identity
      else err (unsupported_agent_key (algorithm identity.public_key))

  unfoldable pub select_blob :
      Result AgentError Bytes
      → List (AgentIdentity PublicKey)
      → Result AgentError (AgentIdentity PublicKey)
  unfolding find_identity
  select_blob (err e) identities = err e
  select_blob (ok expected_blob) identities =
      check_supported
        (find_identity (λ identity. bytes_eq identity.key_blob expected_blob) identities)

  -- `load_agent_key_blob` is the blob of the key that `load_agent_public_key` finds.
  unfoldable pub select_from :
      AgentSelection → List (AgentIdentity PublicKey) → Result AgentError (AgentIdentity PublicKey)
  unfolding find_identity select_blob
  select_from first identities =
      find_identity (λ identity. is_supported_agent_key identity.public_key) identities
  select_from (public_key path) identities =
      select_blob (ok_or ssh_key (load_agent_key_blob path)) identities

  unfoldable pub select_identity : AgentSelection → Talk (AgentIdentity PublicKey)
  unfolding ◌>>=◌ lift list_identities select_from
  select_identity selection = do
    identities ← list_identities
    lift (select_from selection identities)

unfoldable pub agent_sign_flags : JwtAlgorithm → Result AgentError ℕ
agent_sign_flags ed_dsa = ok 0
agent_sign_flags rs256 = ok ssh_agent_rsa_sha2_256
agent_sign_flags es256 = err (unsupported_agent_key (codes "ecdsa-sha2-nistp256"))
