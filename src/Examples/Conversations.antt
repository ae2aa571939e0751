-- ===== src/Examples/Conversations.antt =====
-- Conversations, their channels and their datagrams.
use ssh.Base.{ℕ, Bytes, [], ◌∷◌, ◌++◌, ◌≡◌, refl, true, false, none, some, codes, arith, insert}
use ssh.Io.{ok, err, prepend}
use ssh.Wire.VarInt.{var_int}
use ssh.Channel.State.{Channel}
use ssh.Conversation.{Conversation, channel_not_found, new}
use ssh.Conversation.Manager.{open_channel}
use ssh.Conversation.Datagrams.{add_datagram}
use ssh.Conversation.Dangling.{dangling_delivered, dangling_replaced}
use ssh.Conversation.Managed.{IsManaged}
use ssh.Conversation.Reachable.{open_plain, datagram, accept, calls, calls-IsManaged}
use ssh.Forwarding.{IpAddr, v4, from_ip, octets_of, socket_of}
use ssh.Header.{ChannelHeader, encode_header, build_forwarding_additional_bytes}
use ssh.Incoming.{IncomingChannel}
use ssh.Incoming.Route.{IncomingChannelRouter, accept_and_route_channel}
use ssh.Incoming.Route.Delivered.{arrived, accept_and_route_channel-forwarding}
use ssh.Examples.Channels.{silent, open_sink}

abbrev pub alone : Conversation
alone = new 4 [] 30000 10

calls-IsManaged_example : IsManaged (
    calls alone (
      datagram (8 ∷ 1 ∷ []) ∷ open_plain 8 (codes "session") 1000 2 silent open_sink ∷ accept ∷ []))
calls-IsManaged_example =
    calls-IsManaged 4 [] 30000 10
      (datagram (8 ∷ 1 ∷ []) ∷ open_plain 8 (codes "session") 1000 2 silent open_sink ∷ accept ∷ [])

delivered_example :
    (v1 v2 : Conversation) × (location : ℕ) × (c : Channel) × (add_datagram
        (var_int 8 ++ (1 ∷ []))
        alone
      ≡ some (err (channel_not_found 8), v1))
    × (open_channel 8 (codes "session") 1000 2 silent open_sink v1 ≡ some (location, v2))
    × (v2.channels 8 ≡ some location)
    × (v2.heap location ≡ some c)
    × (c.datagrams_queue.queue ≡ (1 ∷ []) ∷ [])
unfolding new
delivered_example =
    dangling_delivered 8 (codes "session") 1000 2 silent open_sink (1 ∷ []) alone (omega arith) refl
      (omega arith)

replaced_example :
    (v1 v2 v3 : Conversation) × (location : ℕ) × (c : Channel) × (add_datagram
        (var_int 8 ++ (1 ∷ []))
        alone
      ≡ some (err (channel_not_found 8), v1))
    × (add_datagram (var_int 8 ++ (2 ∷ [])) v1 ≡ some (err (channel_not_found 8), v2))
    × (open_channel 8 (codes "session") 1000 2 silent open_sink v2 ≡ some (location, v3))
    × (v3.channels 8 ≡ some location)
    × (v3.heap location ≡ some c)
    × (c.datagrams_queue.queue ≡ (2 ∷ []) ∷ [])
unfolding new
replaced_example =
    dangling_replaced 8 (codes "session") 1000 2 silent open_sink (1 ∷ []) (2 ∷ []) alone
      (omega arith) refl (omega arith)

abbrev pub idle : Channel
idle = record {
  info = record {
    max_packet_size = 1000;
    conversation_stream_id = 4;
    conversation_id = [];
    channel_id = 8;
    channel_type = codes "session";
  };
  confirm_sent = true;
  confirm_received = false;
  header = none;
  datagram_sender = none;
  recv = silent;
  send = open_sink;
  datagrams_queue = record { queue = []; capacity = 2 };
}

abbrev pub with_idle : Conversation
with_idle = record alone { channels = λ k. some 0; heap = λ k. some idle; next_location = 1 }

abbrev udp_header : ChannelHeader
udp_header = record {
  conversation_stream_id = 4;
  channel_type = codes "direct-udp";
  max_packet_size = 30000;
}

abbrev router : IncomingChannelRouter
router = record { conversations = λ k. some 0; heap = λ k. some alone }

abbrev nameserver : IpAddr
nameserver = v4 (9 ∷ 9 ∷ 9 ∷ 9 ∷ [])

abbrev incoming_udp : IncomingChannel
incoming_udp = record {
  stream_id = 12;
  header = udp_header;
  forwarding_target = some (socket_of (from_ip nameserver) (octets_of nameserver) 53);
}

routed_example :
    (more bs : Bytes) × (build_forwarding_additional_bytes nameserver 53 ≡ some more)
    × (encode_header udp_header (some more) ≡ some bs)
    × (accept_and_route_channel (ok (12, open_sink, prepend bs silent)) router
        ≡ some (
          ok 0,
          record router {
            heap = insert 0 (arrived incoming_udp open_sink silent alone) router.heap;
          },
        ))
routed_example =
    accept_and_route_channel-forwarding 12 udp_header nameserver 53 silent open_sink router 0 alone
      (omega arith) refl (omega arith, refl) (omega arith) refl refl
