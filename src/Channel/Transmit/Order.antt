-- ===== src/Channel/Transmit/Order.antt =====
-- The order in which a channel's bytes leave it, for the sending operations of
-- crates/ssh3-core/src/channel.rs.
use ssh.Base.{
  ℕ, Bytes, List, [], ◌∷◌, ◌++◌, Option, none, some, Option-cases, inl, inr, ◌≡◌, refl, All, true,
  append_assoc, append-nil, take,
}
use ssh.Io.{ok, err, pure, ◌>>=◌}
use ssh.Io.Sink.{Sink, Fault, write_all}
use ssh.Message.{Message, channel_open_confirmation}
use ssh.Message.Layout.{layout, IsMessage}
use ssh.Message.Written.{to_vec-layout}
use ssh.Channel.Error.{io}
use ssh.Channel.State.{Channel, failed}
use ssh.Wire.Bounds.{Fits}
use ssh.Channel.Transmit.{Outcome, on_send, maybe_send_header, send_message, confirm_channel}

abbrev pub header_bytes : Option Bytes → Bytes
header_bytes none = []
header_bytes (some header) = header

-- The channel without its header, after these bytes went out.
abbrev pub wrote : Channel → Bytes → Channel
wrote c bs = record c { header = none; send = record c.send { sent = c.send.sent ++ bs } }

-- No write to this channel fails.
abbrev pub Writable : Channel → Type 0
Writable c = c.send.outcomes ≡ []

pub sink_open :
    (bs : Bytes) (k : Sink)
    → k.outcomes ≡ []
    → write_all bs k ≡ (ok tt, record k { sent = k.sent ++ bs })
unfolding write_all
sink_open bs k e = rw e refl

pub write_sent :
    (bs : Bytes) (c : Channel)
    → Writable c
    → on_send (write_all bs) c
      ≡ (ok tt, record c { send = record c.send { sent = c.send.sent ++ bs } })
write_sent bs c w = rw (sink_open bs c.send w) refl

pub header_sent :
    (c : Channel) → Writable c → maybe_send_header c ≡ (ok tt, wrote c (header_bytes c.header))
unfolding maybe_send_header pure
header_sent c w = elim (Option-cases c.header) [
  | inl e ↦ rw e (rw (append-nil c.send.sent) refl)
  | inr (header, e) ↦ rw e (write_sent header (record c { header = none }) w)
]

pub send_message-layout :
    (m : Message) (c : Channel)
    → IsMessage m
    → Writable c
    → send_message m c ≡ (ok tt, wrote c (header_bytes c.header ++ layout m))
unfolding send_message ◌>>=◌ pure
send_message-layout m c h w = rw (header_sent c w) (
    rw (to_vec-layout m h) (
      rw (← append_assoc c.send.sent (header_bytes c.header) (layout m))
        (write_sent (layout m) (wrote c (header_bytes c.header)) w)))

abbrev pub send_all : List Message → Outcome (Unit {0})
send_all [] = pure tt
send_all (m ∷ ms) = send_message m >>= (λ done. send_all ms)

abbrev pub layouts : List Message → Bytes
layouts [] = []
layouts (m ∷ ms) = layout m ++ layouts ms

-- On a channel whose writes do not fail, messages within the wire's limits, at least one, leave in
-- the order of the calls, with the pending header once, before the first of them.
pub send_all-layouts :
    (m : Message) (ms : List Message) (c : Channel)
    → All IsMessage (m ∷ ms)
    → Writable c
    → send_all (m ∷ ms) c ≡ (ok tt, wrote c (header_bytes c.header ++ layouts (m ∷ ms)))
unfolding ◌>>=◌ pure
send_all-layouts m [] c h w = rw (send_message-layout m c h.0 w) (rw (append-nil (layout m)) refl)
send_all-layouts m (n ∷ ns) c h w = rw (send_message-layout m c h.0 w) (
    rw (send_all-layouts n ns (wrote c (header_bytes c.header ++ layout m)) h.1 w) (
      rw (append_assoc c.send.sent (header_bytes c.header ++ layout m) (layouts (n ∷ ns)))
        (rw (append_assoc (header_bytes c.header) (layout m) (layouts (n ∷ ns))) refl)))

-- On a channel whose writes do not fail, `confirm_channel` with a size of at most 62 bits sends the
-- pending header, then the confirmation, and only then is the channel confirmed.
pub confirm_channel-layout :
    (n : ℕ) (c : Channel)
    → Fits n
    → Writable c
    → confirm_channel n c ≡ (
      ok tt,
      record (wrote c (
          header_bytes c.header
          ++ layout (channel_open_confirmation (record { max_packet_size = n })))) {
            confirm_sent = true;
          },
    )
unfolding confirm_channel ◌>>=◌
confirm_channel-layout n c h w =
    rw (send_message-layout (channel_open_confirmation (record { max_packet_size = n })) c h w) refl

-- The channel after a write that failed: a pending header is gone, whether all of it went out or
-- not, and nothing else of the message went out.
pub send_message_failed :
    (m : Message) (c : Channel) (header : Bytes) (f : Fault) (later : List (Option Fault))
    → c.header ≡ some header
    → c.send.outcomes ≡ some f ∷ later
    → send_message m c ≡ (
      err (failed (io f.error)),
      record c {
        header = none;
        send = record c.send { sent = c.send.sent ++ take f.accepted header; outcomes = later };
      },
    )
unfolding send_message ◌>>=◌ maybe_send_header write_all
send_message_failed m c header f later h w = rw h (rw w refl)
