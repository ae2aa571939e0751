-- ===== src/Channel/Transmit.antt =====
-- The sending operations of a channel of crates/ssh3-core/src/channel.rs, and its datagrams. A
-- write goes to the channel's sink; a datagram goes to the network that is passed along.
pub mod Order
pub mod Pieces
pub mod Packets
pub mod Keeps
use ssh.Base.{
  ℕ, zero, suc, ◌+◌, ◌-◌, Bytes, List, [], ◌∷◌, ◌++◌, Bool, true, false, Option, none, some,
  if◌then◌else◌, ltb, length, take, drop,
}
use ssh.Io.{IoError, Exec, Result, ok, err, pure, fail, lift, ◌>>=◌}
use ssh.Io.Sink.{Sink, write_all}
use ssh.Io.Sink
use ssh.Queue.Datagram.{DatagramQueue}
use ssh.Queue.Datagram
use ssh.Message.{
  Message, ChannelRequestMessage, channel_request, channel_open_confirmation, data_message,
  DataOrExtendedDataMessage,
}
use ssh.Message.Encode.{to_vec, encoded_len_data}
use ssh.Channel.Error.{ChannelError, io, datagram_sender_missing, max_packet_size_too_small}
use ssh.Channel.State.{Stop, failed, panicked, Channel, ConversationDatagramSender, datagram_bytes}

abbrev pub Outcome : Type 0 → Type 0
Outcome A = Exec Channel (Stop ChannelError) A

abbrev pub stopped : {A : Type 0} → Result IoError A → Result (Stop ChannelError) A
stopped (ok a) = ok a
stopped (err e) = err (failed (io e))

-- A call on the sending half of the stream.
abbrev pub on_send : {A : Type 0} → Exec Sink IoError A → Outcome A
on_send m c = let (r, k) = m c.send in (stopped r, record c { send = k })

abbrev pub or_panic : {A : Type 0} → Option A → Outcome A
or_panic none = fail panicked
or_panic (some a) = pure a

abbrev pub write_header : Option Bytes → Outcome (Unit {0})
write_header none = pure tt
write_header (some header) = on_send (write_all header)

-- The header is taken before it is written.
unfoldable pub maybe_send_header : Outcome (Unit {0})
maybe_send_header c = write_header c.header (record c { header = none })

unfoldable pub send_message : Message → Outcome (Unit {0})
unfolding ◌>>=◌ maybe_send_header
send_message message = do
  _ ← maybe_send_header
  encoded ← or_panic (to_vec message)
  on_send (write_all encoded)

unfoldable pub send_request : ChannelRequestMessage → Outcome (Unit {0})
unfolding send_message
send_request request = send_message (channel_request request)

abbrev pub store_confirm_sent : Outcome (Unit {0})
store_confirm_sent c = (ok tt, record c { confirm_sent = true })

unfoldable pub confirm_channel : ℕ → Outcome (Unit {0})
unfolding ◌>>=◌ send_message
confirm_channel max_packet_size = do
  _ ← send_message (channel_open_confirmation (record { max_packet_size = max_packet_size }))
  store_confirm_sent

-- `[T]::chunks`, on fuel: the length of the slice is enough.
unfoldable pub chunks_loop : ℕ → ℕ → Bytes → List Bytes
chunks_loop zero n bs = []
chunks_loop (suc fuel) n [] = []
chunks_loop (suc fuel) n (b ∷ bs) = take n (b ∷ bs) ∷ chunks_loop fuel n (drop n (b ∷ bs))

unfoldable pub chunks : ℕ → Bytes → List Bytes
unfolding chunks_loop
chunks n bs = chunks_loop (length bs) n bs

abbrev pub message_of : ℕ → Bytes → DataOrExtendedDataMessage
message_of data_type chunk = record { data_type = data_type; contents = chunk }

unfoldable pub write_chunks : ℕ → List Bytes → ℕ → Outcome ℕ
unfolding ◌>>=◌
write_chunks data_type [] written = pure written
write_chunks data_type (chunk ∷ rest) written = do
  encoded ← or_panic (to_vec (data_message (message_of data_type chunk)))
  _ ← on_send (write_all encoded)
  write_chunks data_type rest (written + length encoded)

-- `max_packet_size.checked_sub(overhead).ok_or(…)`
abbrev pub max_payload : ℕ → ℕ → Result (Stop ChannelError) ℕ
max_payload max_packet_size overhead =
    if ltb max_packet_size overhead
    then err (failed (max_packet_size_too_small max_packet_size overhead))
    else ok (max_packet_size - overhead)

-- `max(1)`
abbrev pub at_least_one : ℕ → ℕ
at_least_one zero = 1
at_least_one (suc n) = suc n

unfoldable pub write_data : Bytes → ℕ → Outcome ℕ
unfolding ◌>>=◌ maybe_send_header chunks write_chunks
write_data data_buf data_type c =
    (do
      _ ← maybe_send_header
      overhead ← or_panic (encoded_len_data (message_of data_type []))
      room ← lift (max_payload c.info.max_packet_size overhead)
      write_chunks data_type (chunks (at_least_one room) data_buf) 0)
      c

-- The `DatagramSender` of the connection: the datagrams sent, and what the next calls meet.
pub record Network : Type 0 where
  pub datagrams : List Bytes
  pub outcomes : List (Option IoError)

abbrev pub sent_as : List (Option IoError) → Bytes → Exec Network (Stop ChannelError) (Unit {0})
sent_as [] buf net = (ok tt, record net { datagrams = net.datagrams ++ (buf ∷ []) })
sent_as (none ∷ os) buf net =
    (ok tt, record { datagrams = net.datagrams ++ (buf ∷ []); outcomes = os })
sent_as (some e ∷ os) buf net = (err (failed (io e)), record net { outcomes = os })

abbrev pub send_or_panic : Option Bytes → Exec Network (Stop ChannelError) (Unit {0})
send_or_panic none net = (err panicked, net)
send_or_panic (some buf) net = sent_as net.outcomes buf net

-- `ConversationDatagramSender::send`
unfoldable pub sender_send :
    ConversationDatagramSender → Bytes → Exec Network (Stop ChannelError) (Unit {0})
sender_send sender datagram = send_or_panic (datagram_bytes sender datagram)

abbrev pub sent_by :
    Option ConversationDatagramSender → Bytes → ℕ → Exec Network (Stop ChannelError) (Unit {0})
sent_by none datagram channel_id net = (err (failed (datagram_sender_missing channel_id)), net)
sent_by (some sender) datagram channel_id net = sender_send sender datagram net

abbrev pub after_header :
    Bytes
    → Result (Stop ChannelError) (Unit {0}) × Channel
    → Exec (Channel × Network) (Stop ChannelError) (Unit {0})
after_header datagram (err e, c) (before, net) = (err e, (c, net))
after_header datagram (ok done, c) (before, net) =
    let (r, net') = sent_by c.datagram_sender datagram c.info.channel_id net in (r, (c, net'))

unfoldable pub send_datagram : Bytes → Exec (Channel × Network) (Stop ChannelError) (Unit {0})
unfolding maybe_send_header
send_datagram datagram state = after_header datagram (maybe_send_header state.0) state

unfoldable pub close : Outcome (Unit {0})
close = on_send Sink.close

unfoldable pub set_datagram_sender : ConversationDatagramSender → Channel → Channel
set_datagram_sender sender c = record c { datagram_sender = some sender }

unfoldable pub set_datagram_queue : DatagramQueue → Channel → Channel
set_datagram_queue queue c = record c { datagrams_queue = queue }

unfoldable pub add_datagram : Channel → Bytes → Bool × Channel
add_datagram c datagram =
    let (added, queue) = Datagram.add c.datagrams_queue datagram in
    (added, record c { datagrams_queue = queue })

-- One round: with a full queue the task waits.
unfoldable pub wait_add_datagram : Channel → Bytes → Option Channel
wait_add_datagram c datagram = elim (Datagram.wait_add c.datagrams_queue datagram) [
  | none ↦ none
  | some queue ↦ some (record c { datagrams_queue = queue })
]

-- One round: with an empty queue the task waits.
unfoldable pub receive_datagram : Channel → Option (Bytes × Channel)
receive_datagram c = elim (Datagram.wait_next c.datagrams_queue) [
  | none ↦ none
  | some taken ↦ some (taken.0, record c { datagrams_queue = taken.1 })
]
