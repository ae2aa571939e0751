-- ===== src/Conversation.antt =====
-- crates/ssh3-core/src/conversation.rs: a conversation, its channels, and the datagrams that
-- arrive for them. The channels live in a heap: the code shares them by `Arc<Channel>`, and what
-- it keeps in maps, queues and results is the location.
pub mod Manager
pub mod Datagrams
pub mod Dangling
pub mod Managed
pub mod Reachable
pub mod Registered
pub mod Across
use ssh.Base.{
  ℕ, ◌+◌, Bytes, Bool, true, false, Option, none, some, Map, empty, insert, codes, ◌>>=◌,
}
use ssh.Io.{Stream, Exec, Result, ok, err}
use ssh.Io.Sink.{Sink}
use ssh.Wire
use ssh.Forwarding.{SocketAddr, ip, port_of}
use ssh.Header.{build_forwarding_additional_bytes}
use ssh.Queue.Accept.{AcceptQueue}
use ssh.Queue.Accept
use ssh.Queue.Datagram.{DatagramQueue}
use ssh.Channel.Error.{ChannelError}
use ssh.Channel.State.{Stop, failed, panicked, Channel, ConversationDatagramSender, new_channel}

abbrev pub dangling_datagram_queue_size : ℕ
dangling_datagram_queue_size = 10

pub data ConversationError : Type 0 where
  channel : ChannelError → ConversationError
  proto : Wire.Error → ConversationError
  channel_not_found : ℕ → ConversationError

-- `AcceptedChannel` of crates/ssh3-core/src/channel.rs.
pub data AcceptedChannel : Type 0 where
  plain : ℕ → AcceptedChannel
  udp_forwarding : ℕ → SocketAddr → AcceptedChannel
  tcp_forwarding : ℕ → SocketAddr → AcceptedChannel

abbrev pub into_channel : AcceptedChannel → ℕ
into_channel (plain location) = location
into_channel (udp_forwarding location remote_addr) = location
into_channel (tcp_forwarding location remote_addr) = location

abbrev pub remote_addr : AcceptedChannel → Option SocketAddr
remote_addr (plain location) = none
remote_addr (udp_forwarding location addr) = some addr
remote_addr (tcp_forwarding location addr) = some addr

pub record Conversation : Type 0 where
  pub control_stream_id : ℕ
  pub conversation_id : Bytes
  pub max_packet_size : ℕ
  pub default_datagrams_queue_size : ℕ
  pub channels_accept_queue : AcceptQueue AcceptedChannel
  -- `ChannelsState`
  pub channels : Map ℕ
  pub dangling_datagram_queues : Map DatagramQueue
  -- The heap, and the next location.
  pub heap : Map Channel
  pub next_location : ℕ

-- `Conversation::new`
unfoldable pub new : ℕ → Bytes → ℕ → ℕ → Conversation
new control_stream_id conversation_id max_packet_size default_datagrams_queue_size = record {
  control_stream_id = control_stream_id;
  conversation_id = conversation_id;
  max_packet_size = max_packet_size;
  default_datagrams_queue_size = default_datagrams_queue_size;
  channels_accept_queue = Accept.new;
  channels = empty;
  dangling_datagram_queues = empty;
  heap = empty;
  next_location = 0;
}

-- `Arc::new`
unfoldable pub allocate : Channel → Conversation → ℕ × Conversation
allocate c v = (
  v.next_location,
  record v { heap = insert v.next_location c v.heap; next_location = v.next_location + 1 },
)

-- A change of the channel that a location holds.
unfoldable pub store : ℕ → Channel → Conversation → Conversation
store location c v = record v { heap = insert location c v.heap }

unfoldable pub datagram_sender_for_channel : Conversation → ℕ → ConversationDatagramSender
datagram_sender_for_channel v channel_id = record {
  control_stream_id = v.control_stream_id;
  channel_id = channel_id;
}

unfoldable pub queue_incoming_accepted_channel : AcceptedChannel → Conversation → Conversation
queue_incoming_accepted_channel accepted v = record v {
  channels_accept_queue = Accept.add v.channels_accept_queue accepted;
}

unfoldable pub queue_incoming_channel : ℕ → Conversation → Conversation
unfolding queue_incoming_accepted_channel
queue_incoming_channel location v = queue_incoming_accepted_channel (plain location) v
