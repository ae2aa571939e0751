-- ===== src/Conversation/Registered.antt =====
-- What `add_channel` of crates/ssh3-core/src/conversation.rs makes of a conversation, for a channel
-- that was just confirmed.
use ssh.Base.{
  ℕ, List, ◌++◌, ◌≡◌, ◌≢◌, refl, ap, ◌∙◌, true, Option, none, some, lookup-insert,
  lookup-insert_other, lookup-remove, lookup-remove_other,
}
use ssh.Message.{channel_open_confirmation}
use ssh.Message.Layout.{layout}
use ssh.Queue.Datagram.{DatagramQueue}
use ssh.Channel.State.{Channel}
use ssh.Channel.Transmit.{set_datagram_queue}
use ssh.Channel.Transmit.Order.{header_bytes}
use ssh.Conversation.{AcceptedChannel, Conversation, store}
use ssh.Conversation.Manager.{adopt_queue, add_channel, get_channel}

-- The queue that was made for a channel before it was registered, or its own.
abbrev pub queue_for : Option DatagramQueue → DatagramQueue → DatagramQueue
queue_for none own = own
queue_for (some early) own = early

-- The channel after its pending header and its confirmation were sent.
abbrev pub confirmed_channel : Conversation → Channel → Channel
confirmed_channel v c = record c {
  header = none;
  confirm_sent = true;
  send = record c.send {
    sent =
        c.send.sent
        ++ (header_bytes c.header
            ++ layout (channel_open_confirmation (record { max_packet_size = v.max_packet_size })));
  };
}

adopt_queue-queue_for :
    (queue : Option DatagramQueue) (c : Channel)
    → adopt_queue queue c ≡ record c { datagrams_queue = queue_for queue c.datagrams_queue }
unfolding set_datagram_queue
adopt_queue-queue_for none c = refl
adopt_queue-queue_for (some queue) c = refl

-- What registering the channel at a place makes of a conversation: it is found under its number, and
-- has the queue that was made for it, which is set aside no more. The rest is as before.
abbrev pub IsRegistered : Conversation → ℕ → Channel → Conversation → Type 0
IsRegistered v location c after =
    (get_channel after c.info.channel_id ≡ some location)
    × (after.heap location
        ≡ some (record c {
          datagrams_queue =
              queue_for (v.dangling_datagram_queues c.info.channel_id) c.datagrams_queue;
        }))
    × (after.dangling_datagram_queues c.info.channel_id ≡ none)
    × ((id : ℕ)
        → id ≢ c.info.channel_id
        → (get_channel after id ≡ get_channel v id)
          × (after.dangling_datagram_queues id ≡ v.dangling_datagram_queues id))
    × ((place : ℕ) → place ≢ location → after.heap place ≡ v.heap place)

add_channel-IsRegistered :
    (location : ℕ) (c : Channel) (v : Conversation)
    → IsRegistered v location c (add_channel location (store location c v))
unfolding add_channel store get_channel
add_channel-IsRegistered location c v = rw (lookup-insert location c v.heap) (
  lookup-insert c.info.channel_id location v.channels,
  lookup-insert location _ _
      ∙ ap some (adopt_queue-queue_for (v.dangling_datagram_queues c.info.channel_id) c),
  lookup-remove c.info.channel_id v.dangling_datagram_queues,
  (λ id other. (
    lookup-insert_other c.info.channel_id id location v.channels other,
    lookup-remove_other c.info.channel_id id v.dangling_datagram_queues other,
  )),
  (λ place other.
      lookup-insert_other location place _ _ other
      ∙ lookup-insert_other location place c v.heap other),
)

add_channel-accept_queue :
    (location : ℕ) (c : Channel) (v : Conversation)
    → (add_channel location (store location c v)).channels_accept_queue ≡ v.channels_accept_queue
unfolding add_channel store
add_channel-accept_queue location c v = rw (lookup-insert location c v.heap) refl

-- The channel waits no more, and is registered.
abbrev pub IsAccepted : Conversation → ℕ → Channel → List AcceptedChannel → Conversation → Type 0
IsAccepted v location c later after =
    (after.channels_accept_queue ≡ record { queue = later }) × IsRegistered v location c after

abbrev pub with_later : List AcceptedChannel → Conversation → Conversation
with_later later v = record v { channels_accept_queue = record { queue = later } }

pub add_channel-IsAccepted :
    (location : ℕ) (c : Channel) (v : Conversation) (later : List AcceptedChannel)
    → IsAccepted v location c later (add_channel location (store location c (with_later later v)))
unfolding get_channel
add_channel-IsAccepted location c v later = (
  add_channel-accept_queue location c (with_later later v),
  add_channel-IsRegistered location c (with_later later v),
)
