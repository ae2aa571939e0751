-- ===== src/Incoming/Route.antt =====
-- `IncomingChannel::into_accepted_channel` and `IncomingChannelRouter`: from the stream that the peer
-- opened to the queue of the conversation it belongs to. The conversations live in a heap, as
-- `Arc<Conversation>` shares them; what the router keeps is their locations.
pub mod Delivered
use ssh.Base.{
  ℕ, Bytes, Bool, true, false, Option, none, some, Map, empty, insert, remove, codes, bytes_eq,
  if◌then◌else◌, ◌>>=◌,
}
use ssh.Io.{Stream, Result, ok, err}
use ssh.Io.Sink.{Sink}
use ssh.Forwarding.{SocketAddr}
use ssh.Header.{ChannelHeader}
use ssh.Channel.State.{Channel, ConversationDatagramSender, new_channel}
use ssh.Conversation
use ssh.Conversation.{
  AcceptedChannel, plain, udp_forwarding, tcp_forwarding, Conversation, allocate,
  datagram_sender_for_channel, queue_incoming_accepted_channel,
}
use ssh.Incoming.{ChannelSetupError, IncomingChannel}
use ssh.Incoming.Read.{read_incoming_channel}

abbrev pub is_udp : Bytes → Bool
is_udp channel_type = bytes_eq channel_type (codes "direct-udp")

abbrev pub is_tcp : Bytes → Bool
is_tcp channel_type = bytes_eq channel_type (codes "direct-tcp")

abbrev pub with_target :
    (ℕ → SocketAddr → AcceptedChannel) → Option SocketAddr → ℕ → AcceptedChannel
with_target kind none location = plain location
with_target kind (some addr) location = kind location addr

-- `match (channel_type.as_slice(), forwarding_target)`
abbrev pub accepted_as : Bytes → Option SocketAddr → ℕ → AcceptedChannel
accepted_as channel_type forwarding_target location =
    if is_udp channel_type
    then with_target udp_forwarding forwarding_target location
    else if is_tcp channel_type
    then with_target tcp_forwarding forwarding_target location
    else plain location

unfoldable pub into_accepted_channel :
    IncomingChannel
    → Bytes
    → Stream
    → Sink
    → Option ConversationDatagramSender
    → ℕ
    → Conversation
    → Option (AcceptedChannel × Conversation)
into_accepted_channel incoming conversation_id recv send datagram_sender datagrams_queue_size v = do
  c ←
      new_channel incoming.header.conversation_stream_id conversation_id incoming.stream_id
        incoming.header.channel_type incoming.header.max_packet_size recv send
        (if is_udp incoming.header.channel_type then datagram_sender else none) false false true
        datagrams_queue_size none
  some (
      let (location, v') = allocate c v in
      (accepted_as incoming.header.channel_type incoming.forwarding_target location, v'))

unfoldable pub into_accepted_channel_for_conversation :
    IncomingChannel → Stream → Sink → Conversation → Option (AcceptedChannel × Conversation)
into_accepted_channel_for_conversation incoming recv send v =
    into_accepted_channel incoming v.conversation_id recv send
      (if is_udp incoming.header.channel_type
        then some (datagram_sender_for_channel v incoming.stream_id)
        else none)
      v.default_datagrams_queue_size v

unfoldable pub into_channel :
    IncomingChannel
    → Bytes
    → Stream
    → Sink
    → Option ConversationDatagramSender
    → ℕ
    → Conversation
    → Option (ℕ × Conversation)
into_channel incoming conversation_id recv send datagram_sender datagrams_queue_size v = do
  accepted ←
      into_accepted_channel incoming conversation_id recv send datagram_sender datagrams_queue_size
        v
  some (Conversation.into_channel accepted.0, accepted.1)

pub record IncomingChannelRouter : Type 0 where
  pub conversations : Map ℕ
  -- The heap of conversations.
  pub heap : Map Conversation

pub data RouteIncomingChannelError : Type 0 where
  unknown_conversation : ℕ → ℕ → RouteIncomingChannelError

-- An error of the connection is a number.
pub data AcceptChannelError : Type 0 where
  connection : ℕ → AcceptChannelError
  setup : ChannelSetupError → AcceptChannelError

pub data RouteAcceptedChannelError : Type 0 where
  accept : AcceptChannelError → RouteAcceptedChannelError
  route : RouteIncomingChannelError → RouteAcceptedChannelError

abbrev pub registered : Option Conversation → ℕ → IncomingChannelRouter → IncomingChannelRouter
registered none location r = r
registered (some v) location r = record r {
  conversations = insert v.control_stream_id location r.conversations;
}

unfoldable pub register_conversation : ℕ → IncomingChannelRouter → IncomingChannelRouter
register_conversation location r = registered (r.heap location) location r

unfoldable pub unregister_conversation :
    ℕ → IncomingChannelRouter → Option ℕ × IncomingChannelRouter
unregister_conversation control_stream_id r = (
  r.conversations control_stream_id,
  record r { conversations = remove control_stream_id r.conversations },
)

unfoldable pub conversation : IncomingChannelRouter → ℕ → Option ℕ
conversation r control_stream_id = r.conversations control_stream_id

abbrev pub Routed : Type 0 → Type 0
Routed E = Option (Result E ℕ × IncomingChannelRouter)

abbrev pub queue_in :
    ℕ
    → Option (AcceptedChannel × Conversation)
    → IncomingChannelRouter
    → Routed RouteIncomingChannelError
queue_in location none r = none
queue_in location (some (accepted, v)) r = some (
  ok location,
  record r { heap = insert location (queue_incoming_accepted_channel accepted v) r.heap },
)

abbrev pub route_at :
    Option ℕ
    → IncomingChannel
    → Sink
    → Stream
    → IncomingChannelRouter
    → Routed RouteIncomingChannelError
route_at none incoming send recv r =
    some (err (unknown_conversation incoming.header.conversation_stream_id incoming.stream_id), r)
route_at (some location) incoming send recv r = do
  v ← r.heap location
  queue_in location (into_accepted_channel_for_conversation incoming recv send v) r

-- `none` stands for a location without a conversation.
unfoldable pub route_incoming_channel :
    IncomingChannel → Sink → Stream → IncomingChannelRouter → Routed RouteIncomingChannelError
route_incoming_channel incoming send recv r =
    route_at (conversation r incoming.header.conversation_stream_id) incoming send recv r

abbrev pub routed : Routed RouteIncomingChannelError → Routed RouteAcceptedChannelError
routed none = none
routed (some (ok location, r)) = some (ok location, r)
routed (some (err e, r)) = some (err (route e), r)

abbrev pub route_read :
    Result ChannelSetupError IncomingChannel × Stream
    → Sink
    → IncomingChannelRouter
    → Routed RouteAcceptedChannelError
route_read (err e, recv) send r = some (err (accept (setup e)), r)
route_read (ok incoming, recv) send r = routed (route_incoming_channel incoming send recv r)

-- The argument is what `accept_bi` of the connection answers: the number of a stream and its halves.
unfoldable pub accept_and_route_channel :
    Result ℕ (ℕ × Sink × Stream) → IncomingChannelRouter → Routed RouteAcceptedChannelError
accept_and_route_channel (err e) r = some (err (accept (AcceptChannelError.connection e)), r)
accept_and_route_channel (ok (stream_id, send, recv)) r =
    route_read (read_incoming_channel stream_id recv) send r
