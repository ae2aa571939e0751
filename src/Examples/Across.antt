-- ===== src/Examples/Across.antt =====
-- One side's channel and the other's.
use ssh.Base.{empty, insert, Bytes, [], ◌∷◌, ◌≡◌, refl, true, some, arith}
use ssh.Io.{ok, prepend}
use ssh.Wire
use ssh.Channel.State.{Channel, ConversationDatagramSender}
use ssh.Channel.Receive.{next_message}
use ssh.Channel.Receive.Answers.{answer}
use ssh.Channel.Transmit.{Network, send_message, send_datagram}
use ssh.Channel.Transmit.Order.{wrote}
use ssh.Conversation.{Conversation, AcceptedChannel, plain, store}
use ssh.Conversation.Manager.{accept_channel_with_metadata}
use ssh.Conversation.Registered.{confirmed_channel, IsAccepted}
use ssh.Conversation.Datagrams.{cursor, add_datagram}
use ssh.Conversation.Across.{
  next_message-send_message, add_datagram-send_datagram, accept_channel_with_metadata-confirms,
}
use ssh.Incoming.Route.{IncomingChannelRouter}
use ssh.Http.{route_registered_datagram}
use ssh.Http.Dispatched.{queued_datagram, route_registered_datagram-send_datagram}
use ssh.Examples.Channels.{silent, small, hello}
use ssh.Examples.Conversations.{idle, with_idle}

message_example :
    (bs : Bytes) × (send_message hello idle ≡ (ok tt, wrote idle bs))
    × (next_message (record small { recv = prepend bs silent })
        ≡ some (answer true hello, record small { recv = silent }))
message_example = next_message-send_message hello idle small silent (omega arith) tt refl refl

abbrev sender : ConversationDatagramSender
sender = record { control_stream_id = 4; channel_id = 8 }

abbrev sending : Channel
sending = record idle { datagram_sender = some sender }

abbrev network : Network
network = record { datagrams = []; outcomes = [] }

datagram_example :
    (buf rest : Bytes) × (send_datagram (5 ∷ []) (sending, network)
      ≡ (ok tt, (wrote sending [], record network { datagrams = buf ∷ [] })))
    × (Wire.read_var_int (cursor buf) ≡ (ok 4, cursor rest))
    × (add_datagram rest with_idle
        ≡ some (
          ok tt,
          store 0
              (record idle { datagrams_queue = record { queue = (5 ∷ []) ∷ []; capacity = 2 } })
              with_idle,
        ))
datagram_example =
    add_datagram-send_datagram sending network sender (5 ∷ []) 0 idle with_idle refl refl refl
      (omega arith) (omega arith) refl refl (omega arith)

abbrev one_waits : Conversation
one_waits = record with_idle { channels_accept_queue = record { queue = plain 0 ∷ [] } }

accept_example :
    (after : Conversation) × (accept_channel_with_metadata one_waits ≡ some (ok (plain 0), after))
    × IsAccepted one_waits 0 (confirmed_channel one_waits idle) [] after
unfolding ssh.Conversation.new
accept_example =
    accept_channel_with_metadata-confirms one_waits (plain 0) [] idle refl refl refl (omega arith)

abbrev registering : IncomingChannelRouter
registering = record { conversations = insert 4 7 empty; heap = insert 7 with_idle empty }

routed_datagram_example :
    (buf : Bytes) × (send_datagram (5 ∷ []) (sending, network)
      ≡ (ok tt, (wrote sending [], record network { datagrams = buf ∷ [] })))
    × (route_registered_datagram registering buf
        ≡ some (
          ok (some 7),
          record registering {
            heap = insert 7 (store 0 (queued_datagram (5 ∷ []) idle) with_idle) registering.heap;
          },
        ))
unfolding insert
routed_datagram_example =
    route_registered_datagram-send_datagram sending network sender (5 ∷ []) 0 7 idle with_idle
      registering refl refl refl (omega arith) (omega arith) refl refl (omega arith) refl refl
