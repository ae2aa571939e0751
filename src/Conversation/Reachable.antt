-- ===== src/Conversation/Reachable.antt =====
-- Sequences of calls on a conversation of crates/ssh3-core/src/conversation.rs.
use ssh.Base.{
  ℕ, Bytes, List, [], ◌∷◌, Option, none, some, ◌≡◌, refl, sym, ap, ◌∙◌, subst, insert,
  lookup-insert, lookup-insert_other, some-injective, none-ne-some, ◌>>=◌,
}
use ssh.Io.{Stream, Result, ok, err}
use ssh.Io.Sink.{Sink}
use ssh.Forwarding.{SocketAddr}
use ssh.Wire
use ssh.Queue.Datagram.{DatagramQueue}
use ssh.Queue.Datagram
use ssh.Queue.Accept
use ssh.Channel.Error.{ChannelError}
use ssh.Channel.State.{Stop, Channel, ChannelInfo}
use ssh.Channel.Transmit.{maybe_send_header, confirm_channel, add_datagram, wait_add_datagram}
use ssh.Channel.Transmit.Keeps.{confirm_channel-info}
use ssh.Conversation.{
  ConversationError, dangling_datagram_queue_size, Conversation, AcceptedChannel, into_channel, new,
  queue_incoming_accepted_channel, allocate, store,
}
use ssh.Conversation.Manager.{
  open_channel, open_new, opened, adopt_channel, open_udp_forwarding_channel,
  open_tcp_forwarding_channel, confirmed, confirm_at, confirm_and_register_channel,
  accept_channel_with_metadata, get_channel, drain, dangling, add_dangling_datagrams_queue,
}
use ssh.Conversation.Datagrams.{add_known, add_unknown, add_for, add_parsed, cursor}
use ssh.Conversation.Datagrams
use ssh.Conversation.Managed.{
  IsManaged, store-IsManaged, allocate-IsManaged, add_channel-IsManaged, adopt_channel-IsManaged,
}

-- A call on a conversation. `arrive` is the router's: a channel that the peer opened, in a new
-- place of the heap, is queued.
pub data Call : Type 0 where
  open_plain : ℕ → Bytes → ℕ → ℕ → Stream → Sink → Call
  open_udp : ℕ → ℕ → ℕ → SocketAddr → Stream → Sink → Call
  open_tcp : ℕ → ℕ → ℕ → SocketAddr → Stream → Sink → Call
  arrive : Channel → (ℕ → AcceptedChannel) → Call
  accept : Call
  datagram : Bytes → Call

abbrev left_by : {A : Type 0} → Conversation → Option (A × Conversation) → Conversation
left_by v none = v
left_by v (some (a, v')) = v'

-- The conversation after a call that returned, and the same one if the task waits or panics.
unfoldable pub call : Conversation → Call → Conversation
call v (open_plain id kind size room recv send) =
    left_by v (open_channel id kind size room recv send v)
call v (open_udp id size room addr recv send) =
    (open_udp_forwarding_channel id size room addr recv send v).1
call v (open_tcp id size room addr recv send) =
    (open_tcp_forwarding_channel id size room addr recv send v).1
call v (arrive c accepted) =
    let (location, v') = allocate c v in queue_incoming_accepted_channel (accepted location) v'
call v accept = left_by v (accept_channel_with_metadata v)
call v (datagram bytes) = left_by v (Datagrams.add_datagram bytes v)

unfoldable pub calls : Conversation → List Call → Conversation
calls v [] = v
calls v (c ∷ cs) = calls (call v c) cs

open_new-IsManaged :
    (made : Option Channel) (v : Conversation) → IsManaged v → IsManaged (open_new made v).1
open_new-IsManaged none v i = i
open_new-IsManaged (some c) v i = go (maybe_send_header c)
  where
    go : (r : Result (Stop ChannelError) (Unit {0}) × Channel) → IsManaged (opened r v).1
    go (ok sent, c') = adopt_channel-IsManaged c' v i
    go (err e, c') = i

opened-IsManaged :
    (made : Option Channel) (v : Conversation)
    → IsManaged v
    → IsManaged (left_by v (made >>= (λ c. some (adopt_channel c v))))
opened-IsManaged none v i = i
opened-IsManaged (some c) v i = adopt_channel-IsManaged c v i

confirm_at-IsManaged :
    (accepted : AcceptedChannel) (found : Option Channel) (v : Conversation)
    → v.heap (into_channel accepted) ≡ found
    → IsManaged v
    → IsManaged (confirm_at accepted found v).1
unfolding store
confirm_at-IsManaged accepted none v e i = i
confirm_at-IsManaged accepted (some c) v e i =
    go (confirm_channel v.max_packet_size c)
      (ap (λ (n : ChannelInfo). n.channel_id) (confirm_channel-info v.max_packet_size c))
  where
    go :
        (r : Result (Stop ChannelError) (Unit {0}) × Channel)
        → r.1.info.channel_id ≡ c.info.channel_id
        → IsManaged (confirmed accepted (into_channel accepted) r v).1
    go (err x, c') same = store-IsManaged (into_channel accepted) c c' v e same i
    go (ok done, c') same =
        add_channel-IsManaged (into_channel accepted) c' (store (into_channel accepted) c' v)
          (lookup-insert (into_channel accepted) c' v.heap)
          (store-IsManaged (into_channel accepted) c c' v e same i)

-- The queue of channels that wait plays no part.
accept-IsManaged :
    (waiting : Option (AcceptedChannel × Accept.AcceptQueue AcceptedChannel)) (v : Conversation)
    → IsManaged v
    → IsManaged (
        left_by v (elim waiting [
          | none ↦ none
          | some taken ↦
              some (
                confirm_and_register_channel taken.0 (record v { channels_accept_queue = taken.1 }))
        ]))
unfolding confirm_and_register_channel
accept-IsManaged none v i = i
accept-IsManaged (some (accepted, rest)) v i =
    confirm_at-IsManaged accepted (v.heap (into_channel accepted))
      (record v { channels_accept_queue = rest }) refl
      (record { known = i.known; apart = i.apart; free = i.free })

drain-info : (ds : List Bytes) (c : Channel) → (drain ds c).info ≡ c.info
unfolding drain add_datagram
drain-info [] c = refl
drain-info (d ∷ ds) c = drain-info ds (add_datagram c d).1

waited-info : (c c' : Channel) (d : Bytes) → wait_add_datagram c d ≡ some c' → c'.info ≡ c.info
unfolding wait_add_datagram
waited-info c c' d e = go (Datagram.wait_add c.datagrams_queue d) e
  where
    go :
        (q : Option DatagramQueue)
        → (elim q [ none ↦ none | some queue ↦ some (record c { datagrams_queue = queue }) ])
          ≡ some c'
        → c'.info ≡ c.info
    go none e = absurd (none-ne-some c' e)
    go (some q) e = ap (λ (x : Channel). x.info) (sym (some-injective _ c' e))

set_aside-IsManaged :
    (id : ℕ) (q : DatagramQueue) (v : Conversation)
    → v.channels id ≡ none
    → IsManaged v
    → IsManaged (record v { dangling_datagram_queues = insert id q v.dangling_datagram_queues })
set_aside-IsManaged id q v e i = record {
  known = i.known;
  apart = λ j l k.
      lookup-insert_other id j q v.dangling_datagram_queues
        (λ p. none-ne-some l (sym e ∙ ap v.channels (sym p) ∙ k))
      ∙ i.apart j l k;
  free = i.free;
}

abbrev added_to : Bytes → DatagramQueue
added_to payload = (Datagram.add (Datagram.new dangling_datagram_queue_size) payload).1

known-IsManaged :
    (found : Option Channel) (location : ℕ) (payload : Bytes) (v : Conversation)
    → v.heap location ≡ found
    → IsManaged v
    → IsManaged (left_by v (add_known found location payload v))
known-IsManaged none location payload v e i = i
known-IsManaged (some c) location payload v e i = go (wait_add_datagram c payload) refl
  where
    go :
        (added : Option Channel)
        → wait_add_datagram c payload ≡ added
        → IsManaged (
            left_by {A = Result ConversationError (Unit {0})} v
              (elim added [ none ↦ none | some c' ↦ some (ok tt, store location c' v) ]))
    go none w = i
    go (some c') w =
        store-IsManaged location c c' v e
          (ap (λ (n : ChannelInfo). n.channel_id) (waited-info c c' payload w)) i

arrived-IsManaged :
    (found : Option ℕ) (id : ℕ) (payload : Bytes) (v : Conversation)
    → v.channels id ≡ found
    → IsManaged v
    → IsManaged (left_by v (add_for found id payload v))
unfolding add_dangling_datagrams_queue
arrived-IsManaged none id payload v e i =
    subst (λ found. IsManaged (dangling found id (added_to payload) v)) (sym e)
      (set_aside-IsManaged id (added_to payload) v e i)
arrived-IsManaged (some location) id payload v e i =
    known-IsManaged (v.heap location) location payload v refl i

parsed-IsManaged :
    (r : Result Wire.Error ℕ × Stream) (v : Conversation)
    → IsManaged v
    → IsManaged (left_by v (add_parsed r v))
unfolding get_channel
parsed-IsManaged (err e, rest) v i = i
parsed-IsManaged (ok id, rest) v i = arrived-IsManaged (v.channels id) id rest.bytes v refl i

call-IsManaged : (v : Conversation) (c : Call) → IsManaged v → IsManaged (call v c)
unfolding call
call-IsManaged v (open_plain id kind size room recv send) i =
    unfold open_channel in opened-IsManaged _ v i
call-IsManaged v (open_udp id size room addr recv send) i =
    unfold open_udp_forwarding_channel in open_new-IsManaged _ v i
call-IsManaged v (open_tcp id size room addr recv send) i =
    unfold open_tcp_forwarding_channel in open_new-IsManaged _ v i
call-IsManaged v (arrive c accepted) i =
    unfold queue_incoming_accepted_channel in
    let j = allocate-IsManaged c v i in record { known = j.known; apart = j.apart; free = j.free }
call-IsManaged v accept i =
    unfold accept_channel_with_metadata in
    accept-IsManaged (Accept.wait_next v.channels_accept_queue) v i
call-IsManaged v (datagram bytes) i =
    unfold Datagrams.add_datagram in parsed-IsManaged (Wire.read_var_int (cursor bytes)) v i

calls_keep : (cs : List Call) (v : Conversation) → IsManaged v → IsManaged (calls v cs)
unfolding calls
calls_keep [] v i = i
calls_keep (c ∷ cs) v i = calls_keep cs (call v c) (call-IsManaged v c i)

new-IsManaged : (id : ℕ) (name : Bytes) (size room : ℕ) → IsManaged (new id name size room)
unfolding new
new-IsManaged id name size room = record {
  known = λ j l k. absurd (none-ne-some l k);
  apart = λ j l k. refl;
  free = λ l h. refl;
}

-- From a new conversation, after any calls in any order, with any peers and any failing writes:
-- every registered channel is there and has the number that it is registered under, no datagrams
-- are set aside for a registered channel, and no place of the heap past the last one is taken.
pub calls-IsManaged :
    (id : ℕ) (name : Bytes) (size room : ℕ) (cs : List Call)
    → IsManaged (calls (new id name size room) cs)
calls-IsManaged id name size room cs =
    calls_keep cs (new id name size room) (new-IsManaged id name size room)
