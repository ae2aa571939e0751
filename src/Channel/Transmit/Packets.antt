-- ===== src/Channel/Transmit/Packets.antt =====
-- The sizes of the messages that `write_data` of crates/ssh3-core/src/channel.rs sends.
use ssh.Base.{
  ℕ, zero, suc, ◌+◌, ◌-◌, ◌≤◌, ◌<◌, Bytes, List, [], ◌∷◌, ◌++◌, ◌≡◌, refl, take, drop, length,
  arith, length-append, length-take, AreBytes, subst, Bool-cases, inl, inr, ◌==◌,
}
use ssh.Io.{ok}
use ssh.Wire.{max_ssh_string_len}
use ssh.Wire.VarInt.{var_int}
use ssh.Wire.Strings.{ssh_string}
use ssh.Wire.Bounds.{Fits}
use ssh.Message.{data_message, ssh_extended_data_none}
use ssh.Message.Layout.{layout}
use ssh.Channel.State.{Channel}
use ssh.Channel.Transmit.{message_of, chunks_loop, chunks, at_least_one, write_data}
use ssh.Channel.Transmit.Order.{header_bytes, wrote, Writable}
use ssh.Channel.Transmit.Pieces.{IsPiece, packets, overhead, room, write_data-chunks}

length-var_int : (v : ℕ) → v ≤ max_ssh_string_len → length (var_int v) ≤ 4
unfolding var_int
length-var_int v h = ground arith

small_var_int : (v : ℕ) → v ≤ 63 → length (var_int v) ≡ 1
unfolding var_int
small_var_int v h = ground arith

large_var_int : (v : ℕ) → 64 ≤ v → 2 ≤ length (var_int v)
unfolding var_int
large_var_int v h = ground arith

abbrev pub packet : ℕ → Bytes → Bytes
packet data_type piece = layout (data_message (message_of data_type piece))

string_size : (bs : Bytes) → length (ssh_string bs) ≡ length (var_int (length bs)) + length bs
unfolding ssh_string
string_size bs = length-append (var_int (length bs)) bs

empty_size : length (ssh_string []) ≡ 1
unfolding ssh_string var_int
empty_size = refl

ruleset sizes = (length-append, string_size, empty_size)

packet_size :
    (data_type : ℕ) (piece : Bytes)
    → length (packet data_type piece) + 1
      ≡ overhead data_type + length (var_int (length piece)) + length piece
unfolding layout var_int
packet_size data_type piece = elim (Bool-cases (data_type == ssh_extended_data_none)) [
  | inl p ↦ rw p (simp sizes (omega arith))
  | inr p ↦ rw p (simp sizes (omega arith))
]

at_least_one_of : (n : ℕ) → 1 ≤ n → at_least_one n ≡ n
at_least_one_of zero h = absurd (omega arith)
at_least_one_of (suc n) h = refl

first_chunk :
    (n : ℕ) (bs : Bytes) → 1 ≤ length bs → (rest : List Bytes) × (chunks n bs ≡ take n bs ∷ rest)
unfolding chunks chunks_loop
first_chunk n [] h = absurd (omega arith)
first_chunk n (b ∷ bs) h = (chunks_loop (length bs) n (drop n (b ∷ bs)), refl)

-- A data message of the given type, for a piece of the size that `write_data` allows on a channel
-- whose packet size is above the length of an empty message and within the limit for strings, is
-- at most three bytes longer than the packet size, and no longer than it if the piece has at
-- most 63 bytes.
pub packet-room :
    (data_type : ℕ) (piece : Bytes) (c : Channel)
    → overhead data_type < c.info.max_packet_size
    → c.info.max_packet_size ≤ max_ssh_string_len
    → IsPiece (room c data_type) piece
    → (length (packet data_type piece) ≤ c.info.max_packet_size + 3)
      × (length piece ≤ 63 → length (packet data_type piece) ≤ c.info.max_packet_size)
packet-room data_type piece c hl hu h =
    let all_of_it = at_least_one_of (c.info.max_packet_size - overhead data_type) (omega arith) in
    let size = packet_size data_type piece in
    (
      omega
          (arith, all_of_it, size, h, length-var_int (length piece) (omega (arith, all_of_it, h))),
      λ small. omega (arith, all_of_it, size, h, small_var_int (length piece) small),
    )

-- On a channel whose writes do not fail and whose packet size is within the limit for strings, if
-- the packet size leaves 64 bytes or more beside an empty message, and the data has as many bytes
-- as it leaves, the first data message that `write_data` sends is longer than the packet size.
pub write_data_oversized :
    (buf : Bytes) (data_type : ℕ) (c : Channel)
    → AreBytes buf
    → Fits data_type
    → Writable c
    → overhead data_type + 64 ≤ c.info.max_packet_size
    → c.info.max_packet_size ≤ max_ssh_string_len
    → c.info.max_packet_size ≤ overhead data_type + length buf
    → (piece : Bytes) × (rest : List Bytes) × (write_data buf data_type c ≡ (
      ok (length (packets data_type (piece ∷ rest))),
      wrote c (header_bytes c.header ++ (packet data_type piece ++ packets data_type rest)),
    ))
      × (c.info.max_packet_size < length (packet data_type piece))
write_data_oversized buf data_type c ha ht w hl hu hb =
    let n = room c data_type in
    let all_of_it = at_least_one_of (c.info.max_packet_size - overhead data_type) (omega arith) in
    let (rest, first) = first_chunk n buf (omega arith) in
    let whole = length-take n buf in
    (
      take n buf,
      rest,
      subst
          (λ pieces. write_data buf data_type c ≡ (
            ok (length (packets data_type pieces)),
            wrote c (header_bytes c.header ++ packets data_type pieces),
          ))
          first (write_data-chunks buf data_type c ha ht w (omega arith) hu),
      omega (
        arith,
        all_of_it,
        whole,
        packet_size data_type (take n buf),
        large_var_int (length (take n buf)) (omega (arith, all_of_it, whole)),
      ),
    )
