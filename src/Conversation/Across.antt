-- ===== src/Conversation/Across.antt =====
-- From one side's channel to the other side's: datagrams, messages, and the acceptance of a channel,
-- for crates/ssh3-core/src/conversation.rs.
use ssh.Base.{
  ℕ, Bytes, List, [], ◌∷◌, ◌++◌, ◌≡◌, refl, ap, ◌∙◌, none, some, length, ◌<◌, append_assoc,
}
use ssh.Io.{Stream, ok, prepend}
use ssh.Wire
use ssh.Wire.VarInt.{var_int, append_var_int-var_int, Reads-read_var_int}
use ssh.Wire.Bounds.{Fits}
use ssh.Message.{Message}
use ssh.Message.Layout.{layout, IsMessage}
use ssh.Queue.Accept
use ssh.Channel.State.{Channel, ConversationDatagramSender, datagram_bytes}
use ssh.Channel.Receive.{next_message}
use ssh.Channel.Receive.Answers.{Answered, answer, next_message-answers}
use ssh.Channel.Transmit.{send_message, Network, send_datagram, sender_send}
use ssh.Channel.Transmit.Order.{
  header_bytes, wrote, Writable, header_sent, send_message-layout, confirm_channel-layout,
}
use ssh.Conversation.{AcceptedChannel, into_channel, Conversation, store}
use ssh.Conversation.Manager.{
  add_channel, confirm_and_register_channel, accept_channel_with_metadata,
}
use ssh.Conversation.Registered.{confirmed_channel, IsAccepted, with_later, add_channel-IsAccepted}
use ssh.Conversation.Datagrams.{cursor, add_datagram}
use ssh.Conversation.Dangling.{add_datagram_known}

datagram_written :
    (sender : ConversationDatagramSender) (payload : Bytes)
    → Fits sender.control_stream_id
    → Fits sender.channel_id
    → datagram_bytes sender payload
      ≡ some (var_int sender.control_stream_id ++ (var_int sender.channel_id ++ payload))
unfolding datagram_bytes
datagram_written sender payload h k = simp (append_var_int-var_int, append_assoc, h, k)

datagram_sent :
    (c : Channel) (net : Network) (sender : ConversationDatagramSender) (payload : Bytes)
    → Writable c
    → c.datagram_sender ≡ some sender
    → net.outcomes ≡ []
    → Fits sender.control_stream_id
    → Fits sender.channel_id
    → send_datagram payload (c, net) ≡ (
      ok tt,
      (
        wrote c (header_bytes c.header),
        record net {
          datagrams =
              net.datagrams
              ++ ((var_int sender.control_stream_id ++ (var_int sender.channel_id ++ payload))
                  ∷ []);
        },
      ),
    )
unfolding send_datagram sender_send
datagram_sent c net sender payload w e n h k =
    rw (header_sent c w) (rw e (rw (datagram_written sender payload h k) (rw n refl)))

-- The message that one side sends, on a channel whose header went out and whose writes do not
-- fail, is what `next_message` of the other side takes from exactly the bytes sent, for a message
-- within the wire's limits that is no confirmation.
pub next_message-send_message :
    (m : Message) (c peer : Channel) (s : Stream)
    → IsMessage m
    → Answered m
    → Writable c
    → c.header ≡ none
    → (bs : Bytes) × (send_message m c ≡ (ok tt, wrote c bs))
      × (next_message (record peer { recv = prepend bs s })
          ≡ some (answer peer.confirm_sent m, record peer { recv = s }))
next_message-send_message m c peer s h a w e = (
  layout m,
  send_message-layout m c h w ∙ ap (λ o. (ok tt, wrote c (header_bytes o ++ layout m))) e,
  next_message-answers peer [] m s tt h a,
)

-- A datagram that a channel sends, with a sender of 62-bit numbers and where no write and no send
-- fails, goes out behind the pending header. Its first integer is the stream of the conversation.
-- The rest, given to `add_datagram` of a conversation with a channel of the sender's number whose
-- queue has room, puts the payload at the end of that queue.
pub add_datagram-send_datagram :
    (c : Channel) (net : Network) (sender : ConversationDatagramSender) (payload : Bytes)
    (location : ℕ) (peer : Channel) (v : Conversation)
    → Writable c
    → c.datagram_sender ≡ some sender
    → net.outcomes ≡ []
    → Fits sender.control_stream_id
    → Fits sender.channel_id
    → v.channels sender.channel_id ≡ some location
    → v.heap location ≡ some peer
    → length peer.datagrams_queue.queue < peer.datagrams_queue.capacity
    → (buf rest : Bytes) × (send_datagram payload (c, net) ≡ (
      ok tt,
      (wrote c (header_bytes c.header), record net { datagrams = net.datagrams ++ (buf ∷ []) }),
    ))
      × (Wire.read_var_int (cursor buf) ≡ (ok sender.control_stream_id, cursor rest))
      × (add_datagram rest v
          ≡ some (
            ok tt,
            store location
                (record peer {
                  datagrams_queue = record peer.datagrams_queue {
                    queue = peer.datagrams_queue.queue ++ (payload ∷ []);
                  };
                })
                v,
          ))
add_datagram-send_datagram c net sender payload location peer v w e n h k known there room = (
  var_int sender.control_stream_id ++ (var_int sender.channel_id ++ payload),
  var_int sender.channel_id ++ payload,
  datagram_sent c net sender payload w e n h k,
  (Reads-read_var_int sender.control_stream_id h).at
      (cursor (var_int sender.channel_id ++ payload)),
  add_datagram_known sender.channel_id location peer payload v k known there room,
)

-- The channel that waits longest, at a place of the heap and with writes that do not fail, is the
-- one that `accept_channel_with_metadata` returns: its confirmation, with the conversation's packet
-- size of at most 62 bits, is sent, it waits no more, and it is registered under its number, with
-- the queue that was made for it before, if there is one. No other channel, queue or number changes.
pub accept_channel_with_metadata-confirms :
    (v : Conversation) (accepted : AcceptedChannel) (later : List AcceptedChannel) (c : Channel)
    → v.channels_accept_queue.queue ≡ accepted ∷ later
    → v.heap (into_channel accepted) ≡ some c
    → Writable c
    → Fits v.max_packet_size
    → (after : Conversation) × (accept_channel_with_metadata v ≡ some (ok accepted, after))
      × IsAccepted v (into_channel accepted) (confirmed_channel v c) later after
unfolding accept_channel_with_metadata confirm_and_register_channel Accept.wait_next Accept.next
accept_channel_with_metadata-confirms v accepted later c q there w h =
    let sent = confirmed_channel v c in
    let location = into_channel accepted in
    (
      add_channel location (store location sent (with_later later v)),
      rw q (rw there (rw (confirm_channel-layout v.max_packet_size c h w) refl)),
      add_channel-IsAccepted location sent v later,
    )
