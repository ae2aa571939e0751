-- ===== src/Channel/Transmit/Pieces.antt =====
-- The pieces that `write_data` of crates/ssh3-core/src/channel.rs cuts its data into, and the
-- messages that it sends for them.
use ssh.Base.{
  ℕ, zero, suc, ◌+◌, ◌-◌, ◌≤◌, ◌<◌, Bytes, List, [], ◌∷◌, ◌++◌, some, ◌≡◌, refl, sym, All, drop,
  length, arith, take-append-drop, length-take, length-drop, AreBytes, IsByte, All-take, All-drop,
  Bool-cases, inl, inr, ◌==◌, append_assoc, append-nil, length-append,
}
use ssh.Io.{Result, ok, err, pure, lift, ◌>>=◌}
use ssh.Wire.{max_ssh_string_len}
use ssh.Wire.VarInt.{var_int}
use ssh.Wire.Strings.{ssh_string}
use ssh.Wire.Bounds.{Fits}
use ssh.Message.{data_message, ssh_extended_data_none}
use ssh.Message.Encode.{encoded_len_data, encoded_len}
use ssh.Message.Layout.{layout}
use ssh.Message.Written.{to_vec-layout, encoded_len-layout}
use ssh.Channel.Error.{ChannelError, max_packet_size_too_small}
use ssh.Channel.State.{Stop, Channel, failed}
use ssh.Channel.Transmit.{
  message_of, chunks_loop, chunks, max_payload, at_least_one, write_chunks, write_data,
}
use ssh.Channel.Transmit.Order.{header_bytes, wrote, Writable, header_sent, sink_open}

abbrev pub concat : List Bytes → Bytes
concat [] = []
concat (bs ∷ rest) = bs ++ concat rest

-- A piece has a byte, and at most `n`.
abbrev pub IsPiece : ℕ → Bytes → Type 0
IsPiece n bs = AreBytes bs × (1 ≤ length bs) × (length bs ≤ n)

loop_concat :
    (fuel n : ℕ) (bs : Bytes) → 1 ≤ n → length bs ≤ fuel → concat (chunks_loop fuel n bs) ≡ bs
unfolding chunks_loop
loop_concat zero n [] h l = refl
loop_concat zero n (b ∷ bs) h l = absurd (omega arith)
loop_concat (suc fuel) n [] h l = refl
loop_concat (suc fuel) n (b ∷ bs) h l =
    rw (loop_concat fuel n (drop n (b ∷ bs)) h (omega (arith, length-drop n (b ∷ bs))))
      (take-append-drop n (b ∷ bs))

loop_pieces :
    (fuel n : ℕ) (bs : Bytes) → 1 ≤ n → AreBytes bs → All (IsPiece n) (chunks_loop fuel n bs)
unfolding chunks_loop
loop_pieces zero n bs h a = tt
loop_pieces (suc fuel) n [] h a = tt
loop_pieces (suc fuel) n (b ∷ bs) h a = (
  (
    All-take IsByte n (b ∷ bs) a,
    omega (arith, length-take n (b ∷ bs)),
    omega (arith, length-take n (b ∷ bs)),
  ),
  loop_pieces fuel n (drop n (b ∷ bs)) h (All-drop IsByte n (b ∷ bs) a),
)

pub concat-chunks : (n : ℕ) (bs : Bytes) → 1 ≤ n → concat (chunks n bs) ≡ bs
unfolding chunks
concat-chunks n bs h = loop_concat (length bs) n bs h (omega arith)

pub chunks-IsPiece : (n : ℕ) (bs : Bytes) → 1 ≤ n → AreBytes bs → All (IsPiece n) (chunks n bs)
unfolding chunks
chunks-IsPiece n bs h a = loop_pieces (length bs) n bs h a

-- The data messages for the pieces, one after the other.
abbrev pub packets : ℕ → List Bytes → Bytes
packets data_type [] = []
packets data_type (piece ∷ rest) =
    layout (data_message (message_of data_type piece)) ++ packets data_type rest

-- What `write_data` returns, with the bytes that went out.
abbrev written_as : Channel → ℕ → Bytes → Result (Stop ChannelError) ℕ × Channel
written_as c k bs = (ok k, record c { send = record c.send { sent = bs } })

same_written :
    (c : Channel) {k l : ℕ} {bs cs : Bytes}
    → k ≡ l
    → bs ≡ cs
    → written_as c k bs ≡ written_as c l cs
same_written c e f = rw e (rw f refl)

chunks_written :
    (data_type : ℕ) (pieces : List Bytes) (n written : ℕ) (c : Channel)
    → Fits data_type
    → All (IsPiece n) pieces
    → n ≤ max_ssh_string_len
    → Writable c
    → write_chunks data_type pieces written c ≡ (
      ok (written + length (packets data_type pieces)),
      record c { send = record c.send { sent = c.send.sent ++ packets data_type pieces } },
    )
unfolding write_chunks ◌>>=◌ pure
chunks_written data_type [] n written c ht hp hn w =
    same_written c (omega arith) (sym (append-nil c.send.sent))
chunks_written data_type (piece ∷ rest) n written c ht hp hn w =
    let sent = layout (data_message (message_of data_type piece)) in
    rw (to_vec-layout (data_message (message_of data_type piece)) (ht, (hp.0.0, omega arith))) (
      rw (sink_open sent c.send w) (
        rw
          (chunks_written data_type rest n (written + length sent)
            (record c { send = record c.send { sent = c.send.sent ++ sent } }) ht hp.1 hn w)
          (same_written c (omega (arith, length-append sent (packets data_type rest)))
            (append_assoc c.send.sent sent (packets data_type rest)))))

-- The length of a data message without data.
abbrev pub overhead : ℕ → ℕ
overhead data_type = length (layout (data_message (message_of data_type [])))

abbrev pub room : Channel → ℕ → ℕ
room c data_type = at_least_one (c.info.max_packet_size - overhead data_type)

overhead_computed :
    (data_type : ℕ)
    → Fits data_type
    → encoded_len_data (message_of data_type []) ≡ some (overhead data_type)
unfolding encoded_len_data encoded_len
overhead_computed data_type h =
    encoded_len-layout (data_message (message_of data_type [])) (h, (tt, omega arith))

payload_left : (n k : ℕ) → k ≤ n → max_payload n k ≡ ok (n - k)
payload_left n k h = ground arith

overhead_positive : (data_type : ℕ) → 1 ≤ overhead data_type
unfolding layout var_int ssh_string
overhead_positive data_type = elim (Bool-cases (data_type == ssh_extended_data_none)) [
  | inl p ↦ rw p (omega arith)
  | inr p ↦ rw p (omega arith)
]

payload_missing : (n k : ℕ) → n < k → max_payload n k ≡ err (failed (max_packet_size_too_small n k))
payload_missing n k h = ground arith

room_positive : (n : ℕ) → 1 ≤ at_least_one n
room_positive zero = omega arith
room_positive (suc n) = omega arith

room_small : (n k : ℕ) → n ≤ k → 1 ≤ k → at_least_one n ≤ k
room_small zero k h p = p
room_small (suc n) k h p = h

pub write_data-chunks :
    (buf : Bytes) (data_type : ℕ) (c : Channel)
    → AreBytes buf
    → Fits data_type
    → Writable c
    → overhead data_type ≤ c.info.max_packet_size
    → c.info.max_packet_size ≤ max_ssh_string_len
    → write_data buf data_type c ≡ (
      ok (length (packets data_type (chunks (room c data_type) buf))),
      wrote c (header_bytes c.header ++ packets data_type (chunks (room c data_type) buf)),
    )
unfolding write_data ◌>>=◌ pure lift
write_data-chunks buf data_type c ha ht w hl hu =
    let n = room c data_type in
    let positive = room_positive (c.info.max_packet_size - overhead data_type) in
    rw (header_sent c w) (
      rw (overhead_computed data_type ht) (
        rw (payload_left c.info.max_packet_size (overhead data_type) hl) (
          rw
            (chunks_written data_type (chunks n buf) n 0 (wrote c (header_bytes c.header)) ht
              (chunks-IsPiece n buf positive ha)
              (room_small _ _ (omega arith) (omega (arith, overhead_positive data_type))) w)
            (same_written (wrote c []) (omega arith) (
              append_assoc c.send.sent (header_bytes c.header)
                (packets data_type (chunks n buf)))))))

-- On a channel whose writes do not fail, and whose packet size is between the length of a message
-- without data and the limit for strings, `write_data` sends the pending header and then data
-- messages of the given type. Their contents, one after the other, are the data; each has a byte
-- at least, and at most what the packet size leaves beside an empty message (one byte, if that is
-- nothing). The result is the number of the bytes behind the header.
pub write_data-packets :
    (buf : Bytes) (data_type : ℕ) (c : Channel)
    → AreBytes buf
    → Fits data_type
    → Writable c
    → overhead data_type ≤ c.info.max_packet_size
    → c.info.max_packet_size ≤ max_ssh_string_len
    → (pieces : List Bytes) × (write_data buf data_type c ≡ (
      ok (length (packets data_type pieces)),
      wrote c (header_bytes c.header ++ packets data_type pieces),
    ))
      × (concat pieces ≡ buf)
      × All (IsPiece (room c data_type)) pieces
write_data-packets buf data_type c ha ht w hl hu =
    let positive = room_positive (c.info.max_packet_size - overhead data_type) in
    (
      chunks (room c data_type) buf,
      write_data-chunks buf data_type c ha ht w hl hu,
      concat-chunks (room c data_type) buf positive,
      chunks-IsPiece (room c data_type) buf positive ha,
    )

-- On a channel whose writes do not fail, and whose packet size is below the length of a message
-- without data, `write_data` sends the pending header and no data, and reports both lengths.
pub write_data_too_small :
    (buf : Bytes) (data_type : ℕ) (c : Channel)
    → Fits data_type
    → Writable c
    → c.info.max_packet_size < overhead data_type
    → write_data buf data_type c ≡ (
      err (failed (max_packet_size_too_small c.info.max_packet_size (overhead data_type))),
      wrote c (header_bytes c.header),
    )
unfolding write_data ◌>>=◌ pure lift
write_data_too_small buf data_type c ht w h = rw (header_sent c w) (
    rw (overhead_computed data_type ht)
      (rw (payload_missing c.info.max_packet_size (overhead data_type) h) refl))
