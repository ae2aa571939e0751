-- ===== src/Client/Agent/Replies.antt =====
-- Whole exchanges with the agent: the request that goes out, and what is made of the answer.
use ssh.Base.{
  sym, ℕ, ◌+◌, ◌^◌, ◌<◌, ◌≡◌, refl, ap, ◌∙◌, Bytes, [], ◌∷◌, ◌++◌, append_assoc, append-nil, Bool,
  true, false, Option, some, leb, length, length-append, take-append, drop-append, arith,
}
use ssh.Io.{resume, Stream, prepend, Result, ok, ◌>>=◌, lift, read_exact}
use ssh.Io.Sink.{write_all}
use ssh.Io.Fallible.{ok_or}
use ssh.Client.Agent.{
  AgentError, ssh_key, AgentStream, ssh_agent_sign_response, ssh_agentc_sign_request, to_be_bytes,
  from_be_bytes, append_ssh_string, read_byte, read_ssh_string, check_end, sign_request, receive,
  write_message, read_message, parse_signature, sign,
}
use ssh.Client.Agent.Octets.{
  from_be_bytes-to_be_bytes, length-to_be_bytes, framed, read_ssh_string-framed,
  append_ssh_string-framed,
}

-- A socket whose writes do not fail, with what was sent and what will arrive.
abbrev pub talking : Bytes → Bool → Stream → AgentStream
talking sent closed recv = record {
  send = record { sent = sent; closed = closed; outcomes = [] };
  recv = recv;
}

module _ (sent : Bytes) (closed : Bool) where
  pub write_message-framed :
      (payload : Bytes) (recv : Stream)
      → length payload < 2 ^ 32
      → write_message payload (talking sent closed recv)
        ≡ (ok tt, talking (sent ++ framed payload) closed recv)
  unfolding write_message ◌>>=◌ write_all
  write_message-framed payload recv h =
      let small : leb (2 ^ 32) (length payload) ≡ false = ground arith in
      rw (small) (
        ap (λ bytes. (ok tt, talking bytes closed recv))
          (append_assoc sent (to_be_bytes (length payload)) payload))

  receive-prepend :
      (bytes : Bytes) (s : Stream)
      → receive (length bytes) (talking sent closed (prepend bytes s))
        ≡ (ok bytes, talking sent closed s)
  unfolding read_exact
  receive-prepend bytes s =
      let enough : leb (length bytes) (length (bytes ++ s.bytes)) ≡ true =
        ground (arith, length-append bytes s.bytes) in
      rw (enough, take-append bytes s.bytes, drop-append bytes s.bytes) refl

  length_received :
      (payload : Bytes) (s : Stream)
      → receive 4 (talking sent closed (prepend (framed payload) s))
        ≡ (ok (to_be_bytes (length payload)), talking sent closed (prepend payload s))
  length_received payload s =
      let head : Bytes = to_be_bytes (length payload) in
      ap (λ bytes. receive 4 (talking sent closed (record { bytes = bytes; ending = s.ending })))
        (append_assoc head payload s.bytes)
      ∙ ap (λ n. receive n (talking sent closed (prepend head (prepend payload s))))
          (sym (length-to_be_bytes (length payload)))
      ∙ receive-prepend head (prepend payload s)

  pub read_message-framed :
      (payload : Bytes) (s : Stream)
      → length payload < 2 ^ 32
      → read_message (talking sent closed (prepend (framed payload) s))
        ≡ (ok payload, talking sent closed s)
  unfolding read_message ◌>>=◌
  read_message-framed payload s h =
      ap (λ o. resume o.0 (λ len. receive (from_be_bytes len)) o.1) (length_received payload s)
      ∙ ap (λ n. receive n (talking sent closed (prepend payload s)))
          (from_be_bytes-to_be_bytes (length payload) h)
      ∙ receive-prepend payload s

-- The answer to a request that goes out on such a socket.
module _ (sent : Bytes) (closed : Bool) (request reply : Bytes) (s : Stream) where
  pub exchanged {ℓ} :
      {A : Type ℓ} (use_reply : Bytes → Result AgentError A) (r : Result AgentError A)
      → length request < 2 ^ 32
      → length reply < 2 ^ 32
      → use_reply reply ≡ r
      → (write_message request >>= (λ u. read_message >>= (λ response. lift (use_reply response))))
          (talking sent closed (prepend (framed reply) s))
        ≡ (r, talking (sent ++ framed request) closed s)
  unfolding ◌>>=◌ lift
  exchanged use_reply r h k e =
      let incoming : Stream = prepend (framed reply) s in
      ap (λ o. resume o.0 (λ u. read_message >>= (λ response. lift (use_reply response))) o.1)
        (write_message-framed sent closed request incoming h)
      ∙ ap (λ o. resume o.0 (λ response. lift (use_reply response)) o.1)
          (read_message-framed (sent ++ framed request) closed reply s k)
      ∙ ap (λ answer. (answer, talking (sent ++ framed request) closed s)) e

sign_request-framed :
    (key_blob contents : Bytes) (flags : ℕ)
    → length key_blob < 2 ^ 32
    → length contents < 2 ^ 32
    → sign_request key_blob contents flags
      ≡ ssh_agentc_sign_request ∷ framed key_blob ++ framed contents ++ to_be_bytes flags
unfolding sign_request
sign_request-framed key_blob contents flags h k =
    ap (λ buf. append_ssh_string buf contents ++ to_be_bytes flags)
      (append_ssh_string-framed (ssh_agentc_sign_request ∷ []) key_blob h)
    ∙ ap (λ buf. buf ++ to_be_bytes flags)
        (append_ssh_string-framed (ssh_agentc_sign_request ∷ framed key_blob) contents k)

pub length-framed : (bytes : Bytes) → length (framed bytes) ≡ length bytes + 4
unfolding to_be_bytes
length-framed bytes = omega arith

length-request :
    (key_blob contents : Bytes) (flags : ℕ)
    → length (ssh_agentc_sign_request ∷ framed key_blob ++ framed contents ++ to_be_bytes flags)
      ≡ length key_blob + length contents + 13
length-request key_blob contents flags = omega (
  arith,
  length-append (ssh_agentc_sign_request ∷ framed key_blob ++ framed contents) (to_be_bytes flags),
  length-append (ssh_agentc_sign_request ∷ framed key_blob) (framed contents),
  length-framed key_blob,
  length-framed contents,
  length-to_be_bytes flags,
)

module _ {ℓ} {Signature : Type ℓ} (try_from : Bytes → Option Signature) where
  parse_signature-framed :
      (blob : Bytes) (signature : Signature)
      → length blob < 2 ^ 32
      → try_from blob ≡ some signature
      → parse_signature try_from (ssh_agent_sign_response ∷ framed blob) ≡ ok signature
  unfolding parse_signature ◌>>=◌ lift read_byte
  parse_signature-framed blob signature h e =
      let whole : read_ssh_string (framed blob) ≡ (ok blob, []) =
        ap read_ssh_string (sym (append-nil (framed blob))) ∙ read_ssh_string-framed blob [] h in
      ap
        (λ o.
          (resume o.0 (λ found. check_end >>= (λ u. lift (ok_or ssh_key (try_from found)))) o.1).0)
        whole
      ∙ ap (ok_or ssh_key) e

  -- On a socket whose writes do not fail, if the agent answers with a signature that the crate reads,
  -- `sign` sends one message with the key, the contents and the flags, takes exactly the answer,
  -- and returns the signature; all lengths are below 2^32.
  pub sign-framed :
      (sent : Bytes) (closed : Bool) (s : Stream) (key_blob contents blob : Bytes) (flags : ℕ)
      (signature : Signature)
      → length key_blob + length contents + 13 < 2 ^ 32
      → length blob + 5 < 2 ^ 32
      → try_from blob ≡ some signature
      → sign try_from key_blob contents flags
          (talking sent closed (prepend (framed (ssh_agent_sign_response ∷ framed blob)) s))
        ≡ (
          ok signature,
          talking
              (sent
                ++ framed (
                    ssh_agentc_sign_request ∷ framed key_blob
                    ++ framed contents
                    ++ to_be_bytes flags))
              closed
              s,
        )
  unfolding sign
  sign-framed sent closed s key_blob contents blob flags signature h k e =
      let request =
        ssh_agentc_sign_request ∷ framed key_blob ++ framed contents ++ to_be_bytes flags in
      ap
        (λ out.
          (write_message out
              >>= (λ u. read_message >>= (λ response. lift (parse_signature try_from response))))
            (talking sent closed (prepend (framed (ssh_agent_sign_response ∷ framed blob)) s)))
        (sign_request-framed key_blob contents flags (omega arith) (omega arith))
      ∙ exchanged sent closed request (ssh_agent_sign_response ∷ framed blob) s
          (parse_signature try_from) (ok signature)
          (omega (arith, length-request key_blob contents flags))
          (omega (arith, length-framed blob))
          (parse_signature-framed blob signature (omega arith) e)
