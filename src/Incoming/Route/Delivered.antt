-- ===== src/Incoming/Route/Delivered.antt =====
-- Where `IncomingChannelRouter` of crates/ssh3-quinn/src/channel.rs leaves a channel.
use ssh.Base.{
  Option, ℕ, ◌+◌, Bytes, [], ◌∷◌, ◌++◌, ◌≡◌, refl, ap, ◌∙◌, true, false, none, some, insert, codes,
  bytes_eq, arith, Bool-cases, inl, inr, if◌then◌else◌,
}
use ssh.Io.{Stream, ok, prepend}
use ssh.Io.Sink.{Sink}
use ssh.Forwarding.{IpAddr, SocketAddr, from_ip, octets_of, socket_of}
use ssh.Forwarding.Octets.{IsIpAddr, IsPort}
use ssh.Header.{ChannelHeader, encode_header, build_forwarding_additional_bytes}
use ssh.Header.RoundTrip.{IsHeader}
use ssh.Queue.Accept
use ssh.Queue.Datagram
use ssh.Channel.State.{Channel, new_channel}
use ssh.Conversation.{
  AcceptedChannel, plain, udp_forwarding, tcp_forwarding, Conversation, allocate,
  datagram_sender_for_channel, queue_incoming_accepted_channel,
}
use ssh.Incoming.{IncomingChannel}
use ssh.Incoming.Target.{is_forwarding_type, read_incoming_channel-forwarding}
use ssh.Incoming.Route.{
  is_udp, accepted_as, into_accepted_channel, into_accepted_channel_for_conversation,
  IncomingChannelRouter, conversation, route_incoming_channel, routed, route_read,
  accept_and_route_channel,
}

-- The channel of the stream: the peer has confirmed it by opening it, and this side has yet to
-- confirm it. Only a channel of type `direct-udp` can send datagrams.
abbrev pub arriving : IncomingChannel → Sink → Stream → Conversation → Channel
arriving incoming send recv v = record {
  info = record {
    max_packet_size = incoming.header.max_packet_size;
    conversation_stream_id = incoming.header.conversation_stream_id;
    conversation_id = v.conversation_id;
    channel_id = incoming.stream_id;
    channel_type = incoming.header.channel_type;
  };
  confirm_sent = false;
  confirm_received = true;
  header = none;
  datagram_sender =
      if is_udp incoming.header.channel_type
      then some
          (record { control_stream_id = v.control_stream_id; channel_id = incoming.stream_id })
      else none;
  recv = recv;
  send = send;
  datagrams_queue = record { queue = []; capacity = v.default_datagrams_queue_size };
}

-- A channel with a target is a forwarding one if its type says which, and any other is plain.
abbrev pub kind : Bytes → Option SocketAddr → ℕ → AcceptedChannel
kind channel_type none location = plain location
kind channel_type (some addr) location =
    if bytes_eq channel_type (codes "direct-udp")
    then udp_forwarding location addr
    else if bytes_eq channel_type (codes "direct-tcp")
    then tcp_forwarding location addr
    else plain location

accepted_as-kind :
    (channel_type : Bytes) (target : Option SocketAddr) (location : ℕ)
    → accepted_as channel_type target location ≡ kind channel_type target location
accepted_as-kind channel_type none location = ground arith
accepted_as-kind channel_type (some addr) location = refl

-- The conversation with that channel last in its queue.
abbrev pub arrived : IncomingChannel → Sink → Stream → Conversation → Conversation
arrived incoming send recv v = record v {
  channels_accept_queue = record {
    queue =
        v.channels_accept_queue.queue
        ++ (kind incoming.header.channel_type incoming.forwarding_target v.next_location ∷ []);
  };
  heap = insert v.next_location (arriving incoming send recv v) v.heap;
  next_location = v.next_location + 1;
}

-- A channel for a conversation that is registered: the router leaves it last in the queue of that
-- conversation, and every other conversation as it was.
pub route_incoming_channel-arrived :
    (incoming : IncomingChannel) (send : Sink) (recv : Stream) (r : IncomingChannelRouter)
    (location : ℕ) (v : Conversation)
    → r.conversations incoming.header.conversation_stream_id ≡ some location
    → r.heap location ≡ some v
    → route_incoming_channel incoming send recv r
      ≡ some
          (ok location, record r { heap = insert location (arrived incoming send recv v) r.heap })
unfolding route_incoming_channel conversation into_accepted_channel_for_conversation
    into_accepted_channel new_channel allocate datagram_sender_for_channel
    queue_incoming_accepted_channel Accept.add Datagram.new
route_incoming_channel-arrived incoming send recv r location v e h =
    let named =
      accepted_as-kind incoming.header.channel_type incoming.forwarding_target v.next_location in
    rw e (
      rw h (
        rw (← named) (elim (Bool-cases (is_udp incoming.header.channel_type)) [
          | inl p ↦ rw p refl
          | inr p ↦ rw p refl
        ])))

-- The opener of a forwarding channel writes its header and its target; the router of the peer,
-- if the conversation of the header is registered, takes exactly these bytes, and leaves a
-- channel with the same header and the same target last in the queue of that conversation.
pub accept_and_route_channel-forwarding :
    (id : ℕ) (h : ChannelHeader) (a : IpAddr) (port : ℕ) (s : Stream) (send : Sink)
    (r : IncomingChannelRouter) (location : ℕ) (v : Conversation)
    → IsHeader h
    → is_forwarding_type h.channel_type ≡ true
    → IsIpAddr a
    → IsPort port
    → r.conversations h.conversation_stream_id ≡ some location
    → r.heap location ≡ some v
    → (more bs : Bytes) × (build_forwarding_additional_bytes a port ≡ some more)
      × (encode_header h (some more) ≡ some bs)
      × (accept_and_route_channel (ok (id, send, prepend bs s)) r
          ≡ some (
            ok location,
            record r {
              heap =
                  insert location
                    (arrived
                      (record {
                        stream_id = id;
                        header = h;
                        forwarding_target = some (socket_of (from_ip a) (octets_of a) port);
                      })
                      send
                      s
                      v)
                    r.heap;
            },
          ))
unfolding accept_and_route_channel
accept_and_route_channel-forwarding id h a port s send r location v hh f ha hp e k =
    let (more, bs, built, encoded, read) =
      read_incoming_channel-forwarding id h a port s hh f ha hp in
    (
      more,
      bs,
      built,
      encoded,
      ap (λ p. route_read p send r) read
          ∙ ap routed (route_incoming_channel-arrived _ send s r location v e k),
    )
