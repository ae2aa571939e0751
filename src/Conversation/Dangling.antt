-- ===== src/Conversation/Dangling.antt =====
-- `add_datagram` of crates/ssh3-core/src/conversation.rs for channels that are registered and for
-- channels that are not, and the queue of a channel that is opened later.
use ssh.Base.{
  ℕ, Bytes, none, some, ◌++◌, [], ◌∷◌, ◌≡◌, refl, ◌∙◌, ap, true, false, insert, length, ◌<◌, arith,
  lookup-insert, ltb,
}
use ssh.Io.{Stream, ok, err}
use ssh.Io.Sink.{Sink}
use ssh.Wire.VarInt.{var_int, Reads-read_var_int}
use ssh.Wire.Bounds.{Fits}
use ssh.Header.{ChannelHeader, ssh_frame_type}
use ssh.Header.RoundTrip.{IsHeader, header_payload, encode_header-layout}
use ssh.Queue.Datagram
use ssh.Queue.Datagram.{DatagramQueue}
use ssh.Channel.State.{Channel, new_channel}
use ssh.Channel.Transmit.{wait_add_datagram, set_datagram_queue}
use ssh.Conversation.{
  channel_not_found, Conversation, store, allocate, dangling_datagram_queue_size,
}
use ssh.Conversation.Manager.{
  get_channel, dangling, add_channel, add_dangling_datagrams_queue, adopt_queue, adopt_channel,
  open_channel,
}
use ssh.Conversation.Datagrams.{cursor, add_datagram}

abbrev only : Bytes → DatagramQueue
only payload = record { queue = payload ∷ []; capacity = dangling_datagram_queue_size }

abbrev pub set_aside : ℕ → Bytes → Conversation → Conversation
set_aside channel_id payload v = record v {
  dangling_datagram_queues = insert channel_id (only payload) v.dangling_datagram_queues;
}

-- A datagram for a channel that is not registered: the caller gets an error that names the
-- channel, and a new queue with this datagram alone is set aside for it.
pub add_datagram_unknown :
    (channel_id : ℕ) (payload : Bytes) (v : Conversation)
    → Fits channel_id
    → v.channels channel_id ≡ none
    → add_datagram (var_int channel_id ++ payload) v
      ≡ some (err (channel_not_found channel_id), set_aside channel_id payload v)
unfolding add_datagram get_channel add_dangling_datagrams_queue Datagram.add Datagram.new
add_datagram_unknown channel_id payload v h e =
    rw ((Reads-read_var_int channel_id h).at (cursor payload)) (
      rw e (
        ap
          (λ found.
            some (err (channel_not_found channel_id), dangling found channel_id (only payload) v))
          e))

joined :
    (q : DatagramQueue) (payload : Bytes)
    → length q.queue < q.capacity
    → Datagram.wait_add q payload ≡ some (record q { queue = q.queue ++ (payload ∷ []) })
unfolding Datagram.wait_add
joined q payload room =
    let has_room : ltb (length q.queue) q.capacity ≡ true = ground arith in rw has_room refl

queued :
    (c : Channel) (payload : Bytes)
    → length c.datagrams_queue.queue < c.datagrams_queue.capacity
    → wait_add_datagram c payload
      ≡ some (record c {
        datagrams_queue = record c.datagrams_queue {
          queue = c.datagrams_queue.queue ++ (payload ∷ []);
        };
      })
unfolding wait_add_datagram
queued c payload room =
    ap (λ q. elim q [ none ↦ none | some queue ↦ some (record c { datagrams_queue = queue }) ])
      (joined c.datagrams_queue payload room)

-- A datagram for a registered channel whose queue has room joins the end of that queue.
pub add_datagram_known :
    (channel_id location : ℕ) (c : Channel) (payload : Bytes) (v : Conversation)
    → Fits channel_id
    → v.channels channel_id ≡ some location
    → v.heap location ≡ some c
    → length c.datagrams_queue.queue < c.datagrams_queue.capacity
    → add_datagram (var_int channel_id ++ payload) v
      ≡ some (
        ok tt,
        store location
            (record c {
              datagrams_queue = record c.datagrams_queue {
                queue = c.datagrams_queue.queue ++ (payload ∷ []);
              };
            })
            v,
      )
unfolding add_datagram get_channel
add_datagram_known channel_id location c payload v h e k room =
    rw ((Reads-read_var_int channel_id h).at (cursor payload)) (
      rw e (
        rw k (
          ap (λ added. elim added [ none ↦ none | some c' ↦ some (ok tt, store location c' v) ])
            (queued c payload room))))

module _ (stream_id : ℕ) (channel_type : Bytes) (max_packet_size size : ℕ) (recv : Stream)
    (send : Sink) where
  abbrev header_for : Conversation → ChannelHeader
  header_for v = record {
    conversation_stream_id = v.control_stream_id;
    channel_type = channel_type;
    max_packet_size = max_packet_size;
  }

  -- The channel that `open_channel` makes.
  abbrev opened_channel : Conversation → Channel
  opened_channel v = record {
    info = record {
      max_packet_size = max_packet_size;
      conversation_stream_id = v.control_stream_id;
      conversation_id = v.conversation_id;
      channel_id = stream_id;
      channel_type = channel_type;
    };
    confirm_sent = true;
    confirm_received = false;
    header = some (var_int ssh_frame_type ++ header_payload (header_for v));
    datagram_sender = none;
    recv = recv;
    send = send;
    datagrams_queue = Datagram.new size;
  }

  open_channel-adopts :
      (v : Conversation)
      → IsHeader (header_for v)
      → open_channel stream_id channel_type max_packet_size size recv send v
        ≡ some (adopt_channel (opened_channel v) v)
  unfolding open_channel new_channel
  open_channel-adopts v h = rw (encode_header-layout (header_for v) none h) refl

  adopted :
      (c : Channel) (v : Conversation)
      → (adopt_channel c v).1.heap v.next_location
        ≡ some (adopt_queue (v.dangling_datagram_queues c.info.channel_id) c)
  unfolding adopt_channel allocate add_channel store
  adopted c v = rw (lookup-insert v.next_location c v.heap) (lookup-insert v.next_location _ _)

  adopted_id :
      (c : Channel) (v : Conversation)
      → (adopt_channel c v).1.channels c.info.channel_id ≡ some v.next_location
  unfolding adopt_channel allocate add_channel store
  adopted_id c v = rw (lookup-insert v.next_location c v.heap) (lookup-insert c.info.channel_id _ _)

  -- A datagram for a channel that is not registered: `add_datagram`
  -- reports that the channel is not found, and the channel opened next, of a type and sizes within
  -- the wire's limits, is registered, and has this datagram in its queue.
  pub dangling_delivered :
      (payload : Bytes) (v : Conversation)
      → Fits stream_id
      → v.channels stream_id ≡ none
      → IsHeader (header_for v)
      → (v1 v2 : Conversation) × (location : ℕ) × (c : Channel) × (add_datagram
            (var_int stream_id ++ payload)
            v
          ≡ some (err (channel_not_found stream_id), v1))
        × (open_channel stream_id channel_type max_packet_size size recv send v1
            ≡ some (location, v2))
        × (v2.channels stream_id ≡ some location)
        × (v2.heap location ≡ some c)
        × (c.datagrams_queue.queue ≡ payload ∷ [])
  unfolding adopt_channel allocate set_datagram_queue
  dangling_delivered payload v h e hh =
      let v1 = set_aside stream_id payload v in
      let c = opened_channel v1 in
      let found = lookup-insert stream_id (only payload) v.dangling_datagram_queues in
      (
        v1,
        (adopt_channel c v1).1,
        v.next_location,
        adopt_queue (some (only payload)) c,
        add_datagram_unknown stream_id payload v h e,
        open_channel-adopts v1 hh,
        adopted_id c v1,
        adopted c v1 ∙ ap (λ q. some (adopt_queue q c)) found,
        refl,
      )

  -- Until a channel is opened, `add_datagram` reports for each of its datagrams that the channel is
  -- not found. The channel opened then, of a type and sizes within the wire's limits, has the last
  -- of these datagrams alone in its queue, whatever the first one was.
  pub dangling_replaced :
      (first second : Bytes) (v : Conversation)
      → Fits stream_id
      → v.channels stream_id ≡ none
      → IsHeader (header_for v)
      → (v1 v2 v3 : Conversation) × (location : ℕ) × (c : Channel) × (add_datagram
            (var_int stream_id ++ first)
            v
          ≡ some (err (channel_not_found stream_id), v1))
        × (add_datagram (var_int stream_id ++ second) v1
            ≡ some (err (channel_not_found stream_id), v2))
        × (open_channel stream_id channel_type max_packet_size size recv send v2
            ≡ some (location, v3))
        × (v3.channels stream_id ≡ some location)
        × (v3.heap location ≡ some c)
        × (c.datagrams_queue.queue ≡ second ∷ [])
  unfolding adopt_channel allocate set_datagram_queue
  dangling_replaced first second v h e hh =
      let v1 = set_aside stream_id first v in
      let v2 = set_aside stream_id second v1 in
      let c = opened_channel v2 in
      let found = lookup-insert stream_id (only second) v1.dangling_datagram_queues in
      (
        v1,
        v2,
        (adopt_channel c v2).1,
        v.next_location,
        adopt_queue (some (only second)) c,
        add_datagram_unknown stream_id first v h e,
        add_datagram_unknown stream_id second v1 h e,
        open_channel-adopts v2 hh,
        adopted_id c v2,
        adopted c v2 ∙ ap (λ q. some (adopt_queue q c)) found,
        refl,
      )
