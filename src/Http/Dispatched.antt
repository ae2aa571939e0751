-- ===== src/Http/Dispatched.antt =====
-- Datagrams reach the channel of the registered conversation that they are for.
use ssh.Base.{◌∙◌, ℕ, ◌++◌, ◌<◌, ◌≡◌, ap, ◌∷◌, [], Bytes, some, insert, length}
use ssh.Io.{ok}
use ssh.Wire
use ssh.Wire.Bounds.{Fits}
use ssh.Channel.State.{Channel, ConversationDatagramSender}
use ssh.Channel.Transmit.{Network, send_datagram}
use ssh.Channel.Transmit.Order.{header_bytes, wrote, Writable}
use ssh.Conversation.{Conversation, store}
use ssh.Conversation.Datagrams.{cursor, add_datagram}
use ssh.Conversation.Across.{add_datagram-send_datagram}
use ssh.Incoming.Route.{IncomingChannelRouter}
use ssh.Http.{route_rest, route_to, route_registered_datagram}

-- The channel with one more datagram that waits.
abbrev pub queued_datagram : Bytes → Channel → Channel
queued_datagram payload c = record c {
  datagrams_queue = record c.datagrams_queue { queue = c.datagrams_queue.queue ++ (payload ∷ []) };
}

routed_rest :
    (router : IncomingChannelRouter) (buf rest : Bytes) (control_stream_id place : ℕ)
    (v v' : Conversation)
    → Wire.read_var_int (cursor buf) ≡ (ok control_stream_id, cursor rest)
    → router.conversations control_stream_id ≡ some place
    → router.heap place ≡ some v
    → add_datagram rest v ≡ some (ok tt, v')
    → route_registered_datagram router buf
      ≡ some (ok (some place), record router { heap = insert place v' router.heap })
unfolding route_registered_datagram
routed_rest router buf rest control_stream_id place v v' read registered held added =
    ap (λ r. route_rest r router) read
    ∙ ap (λ found. route_to found rest router) registered
    ∙ simp (held, added)

-- A datagram that a channel sends on a connection whose writes do not fail goes out behind the
-- pending header, and is routed to the conversation that is registered under the sender's stream:
-- the payload joins the end of the queue of its channel with the sender's number, if that queue
-- has room, and nothing else changes.
pub route_registered_datagram-send_datagram :
    (c : Channel) (net : Network) (sender : ConversationDatagramSender) (payload : Bytes)
    (location place : ℕ) (peer : Channel) (v : Conversation) (router : IncomingChannelRouter)
    → Writable c
    → c.datagram_sender ≡ some sender
    → net.outcomes ≡ []
    → Fits sender.control_stream_id
    → Fits sender.channel_id
    → v.channels sender.channel_id ≡ some location
    → v.heap location ≡ some peer
    → length peer.datagrams_queue.queue < peer.datagrams_queue.capacity
    → router.conversations sender.control_stream_id ≡ some place
    → router.heap place ≡ some v
    → (buf : Bytes) × (send_datagram payload (c, net) ≡ (
      ok tt,
      (wrote c (header_bytes c.header), record net { datagrams = net.datagrams ++ (buf ∷ []) }),
    ))
      × (route_registered_datagram router buf
          ≡ some (
            ok (some place),
            record router {
              heap = insert place (store location (queued_datagram payload peer) v) router.heap;
            },
          ))
route_registered_datagram-send_datagram c net sender payload location place peer v router w e n h k
      known there room registered held =
    let (buf, rest, sent, read, added) =
      add_datagram-send_datagram c net sender payload location peer v w e n h k known there room in
    (
      buf,
      sent,
      routed_rest router buf rest sender.control_stream_id place v _ read registered held added,
    )
