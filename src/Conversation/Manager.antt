-- ===== src/Conversation/Manager.antt =====
-- `ChannelsManager` of crates/ssh3-core/src/conversation.rs, and the operations of a conversation
-- that register channels.
use ssh.Base.{
  ℕ, Bytes, List, [], ◌∷◌, true, false, Option, none, some, insert, remove, codes, ◌>>=◌,
}
use ssh.Io.{Stream, Exec, Result, ok, err}
use ssh.Io.Sink.{Sink}
use ssh.Forwarding.{SocketAddr, ip, port_of}
use ssh.Header.{build_forwarding_additional_bytes}
use ssh.Queue.Accept
use ssh.Queue.Datagram.{DatagramQueue}
use ssh.Channel.Error.{ChannelError}
use ssh.Channel.State.{Stop, failed, panicked, Channel, ConversationDatagramSender, new_channel}
use ssh.Channel.Transmit.{maybe_send_header, confirm_channel, set_datagram_queue, add_datagram}
use ssh.Conversation.{
  ConversationError, channel, AcceptedChannel, into_channel, Conversation, allocate, store,
  datagram_sender_for_channel,
}

abbrev pub adopt_queue : Option DatagramQueue → Channel → Channel
adopt_queue none c = c
adopt_queue (some queue) c = set_datagram_queue queue c

abbrev pub registered : Option Channel → ℕ → Conversation → Conversation
registered none location v = v
registered (some c) location v =
    store location (adopt_queue (v.dangling_datagram_queues c.info.channel_id) c) (record v {
      dangling_datagram_queues = remove c.info.channel_id v.dangling_datagram_queues;
      channels = insert c.info.channel_id location v.channels;
    })

-- `ChannelsManager::add_channel`, for the channel at a location.
unfoldable pub add_channel : ℕ → Conversation → Conversation
add_channel location v = registered (v.heap location) location v

-- `while let Some(datagram) = queue.next() { channel.add_datagram(datagram); }`
unfoldable pub drain : List Bytes → Channel → Channel
drain [] c = c
drain (datagram ∷ rest) c = drain rest (add_datagram c datagram).1

abbrev pub drained : Option Channel → ℕ → DatagramQueue → Conversation → Conversation
drained none location queue v = v
drained (some c) location queue v = store location (drain queue.queue c) v

abbrev pub dangling : Option ℕ → ℕ → DatagramQueue → Conversation → Conversation
dangling (some location) channel_id queue v = drained (v.heap location) location queue v
dangling none channel_id queue v = record v {
  dangling_datagram_queues = insert channel_id queue v.dangling_datagram_queues;
}

-- `ChannelsManager::add_dangling_datagrams_queue`
unfoldable pub add_dangling_datagrams_queue : ℕ → DatagramQueue → Conversation → Conversation
add_dangling_datagrams_queue channel_id queue v =
    dangling (v.channels channel_id) channel_id queue v

-- `ChannelsManager::get_channel`
unfoldable pub get_channel : Conversation → ℕ → Option ℕ
get_channel v channel_id = v.channels channel_id

-- A new channel gets a location and is registered.
unfoldable pub adopt_channel : Channel → Conversation → ℕ × Conversation
adopt_channel c v = let (location, v') = allocate c v in (location, add_channel location v')

-- `Conversation::open_channel`; `none` is the panic on an integer of more than 62 bits.
unfoldable pub open_channel :
    ℕ → Bytes → ℕ → ℕ → Stream → Sink → Conversation → Option (ℕ × Conversation)
open_channel stream_id channel_type max_packet_size datagrams_queue_size recv send v = do
  c ←
      new_channel v.control_stream_id v.conversation_id stream_id channel_type max_packet_size recv
        send none true true false datagrams_queue_size none
  some (adopt_channel c v)

abbrev pub channel_stop : Stop ChannelError → Stop ConversationError
channel_stop (failed e) = failed (channel e)
channel_stop panicked = panicked

-- The channel after `maybe_send_header`; it is registered only if the header went out.
abbrev pub opened :
    Result (Stop ChannelError) (Unit {0}) × Channel → Exec Conversation (Stop ConversationError) ℕ
opened (ok sent, c) v = let (location, v') = adopt_channel c v in (ok location, v')
opened (err e, c) v = (err (channel_stop e), v)

abbrev pub open_new : Option Channel → Exec Conversation (Stop ConversationError) ℕ
open_new none v = (err panicked, v)
open_new (some c) v = opened (maybe_send_header c) v

-- What `open_udp_forwarding_channel` and `open_tcp_forwarding_channel` do alike.
abbrev pub forwarding_channel :
    Conversation
    → Bytes
    → Option ConversationDatagramSender
    → ℕ
    → ℕ
    → ℕ
    → SocketAddr
    → Stream
    → Sink
    → Option Channel
forwarding_channel v channel_type datagram_sender stream_id max_packet_size datagrams_queue_size
      remote_addr recv send =
    do
      additional ← build_forwarding_additional_bytes (ip remote_addr) (port_of remote_addr)
      new_channel v.control_stream_id v.conversation_id stream_id channel_type max_packet_size recv
          send datagram_sender true true false datagrams_queue_size (some additional)

unfoldable pub open_udp_forwarding_channel :
    ℕ → ℕ → ℕ → SocketAddr → Stream → Sink → Exec Conversation (Stop ConversationError) ℕ
open_udp_forwarding_channel stream_id max_packet_size datagrams_queue_size remote_addr recv send v =
    open_new
      (forwarding_channel v (codes "direct-udp") (some (datagram_sender_for_channel v stream_id))
        stream_id max_packet_size datagrams_queue_size remote_addr recv send)
      v

unfoldable pub open_tcp_forwarding_channel :
    ℕ → ℕ → ℕ → SocketAddr → Stream → Sink → Exec Conversation (Stop ConversationError) ℕ
open_tcp_forwarding_channel stream_id max_packet_size datagrams_queue_size remote_addr recv send v =
    open_new
      (forwarding_channel v (codes "direct-tcp") none stream_id max_packet_size datagrams_queue_size
        remote_addr recv send)
      v

abbrev pub confirmed :
    AcceptedChannel
    → ℕ
    → Result (Stop ChannelError) (Unit {0}) × Channel
    → Exec Conversation (Stop ConversationError) AcceptedChannel
confirmed accepted location (err e, c) v = (err (channel_stop e), store location c v)
confirmed accepted location (ok done, c) v =
    (ok accepted, add_channel location (store location c v))

abbrev pub confirm_at :
    AcceptedChannel → Option Channel → Exec Conversation (Stop ConversationError) AcceptedChannel
confirm_at accepted none v = (err panicked, v)
confirm_at accepted (some c) v =
    confirmed accepted (into_channel accepted) (confirm_channel v.max_packet_size c) v

-- `confirm_and_register_channel`
unfoldable pub confirm_and_register_channel :
    AcceptedChannel → Exec Conversation (Stop ConversationError) AcceptedChannel
confirm_and_register_channel accepted v = confirm_at accepted (v.heap (into_channel accepted)) v

-- `accept_channel_with_metadata`, in one round: with no channel queued the task waits.
unfoldable pub accept_channel_with_metadata :
    Conversation → Option (Result (Stop ConversationError) AcceptedChannel × Conversation)
accept_channel_with_metadata v = elim (Accept.wait_next v.channels_accept_queue) [
  | none ↦ none
  | some taken ↦
      some (confirm_and_register_channel taken.0 (record v { channels_accept_queue = taken.1 }))
]
