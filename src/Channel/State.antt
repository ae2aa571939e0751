-- ===== src/Channel/State.antt =====
-- The state of a channel of crates/ssh3-core/src/channel.rs, and what it is made of.
use ssh.Base.{ℕ, Bytes, [], ◌++◌, Bool, true, false, Option, none, some, ◌>>=◌}
use ssh.Io.{Stream}
use ssh.Io.Sink.{Sink}
use ssh.Queue.Datagram.{DatagramQueue}
use ssh.Queue.Datagram
use ssh.Wire.{append_var_int}
use ssh.Header.{encode_header}

-- A call that fails, or that panics.
pub data Stop {ℓ} (E : Type ℓ) : Type ℓ where
  failed : E → Stop E
  panicked : Stop E

pub record ChannelInfo : Type 0 where
  pub max_packet_size : ℕ
  pub conversation_stream_id : ℕ
  pub conversation_id : Bytes
  pub channel_id : ℕ
  pub channel_type : Bytes

-- `ConversationDatagramSender`; the connection that it sends on is passed to `send_datagram`.
pub record ConversationDatagramSender : Type 0 where
  pub control_stream_id : ℕ
  pub channel_id : ℕ

-- The buffer of `ConversationDatagramSender::send`.
unfoldable pub datagram_bytes : ConversationDatagramSender → Bytes → Option Bytes
datagram_bytes sender datagram = do
  buf ← append_var_int [] sender.control_stream_id
  buf ← append_var_int buf sender.channel_id
  some (buf ++ datagram)

pub record Channel : Type 0 where
  pub info : ChannelInfo
  pub confirm_sent : Bool
  pub confirm_received : Bool
  pub header : Option Bytes
  pub datagram_sender : Option ConversationDatagramSender
  pub recv : Stream
  pub send : Sink
  pub datagrams_queue : DatagramQueue

-- `send_header.then(|| ChannelHeader { … }.encode(additional_header_bytes))`
abbrev pub header_of : Bool → ℕ → Bytes → ℕ → Option Bytes → Option (Option Bytes)
header_of true conversation_stream_id channel_type max_packet_size additional_header_bytes = do
  header ←
      encode_header
        (record {
          conversation_stream_id = conversation_stream_id;
          channel_type = channel_type;
          max_packet_size = max_packet_size;
        })
        additional_header_bytes
  some (some header)
header_of false conversation_stream_id channel_type max_packet_size additional_header_bytes =
    some none

-- `Channel::new`
unfoldable pub new_channel :
    ℕ
    → Bytes
    → ℕ
    → Bytes
    → ℕ
    → Stream
    → Sink
    → Option ConversationDatagramSender
    → Bool
    → Bool
    → Bool
    → ℕ
    → Option Bytes
    → Option Channel
new_channel conversation_stream_id conversation_id channel_id channel_type max_packet_size recv send
      datagram_sender send_header confirm_sent confirm_received datagrams_queue_size
      additional_header_bytes =
    do
      header ←
          header_of send_header conversation_stream_id channel_type max_packet_size
            additional_header_bytes
      some (record {
        info = record {
          max_packet_size = max_packet_size;
          conversation_stream_id = conversation_stream_id;
          conversation_id = conversation_id;
          channel_id = channel_id;
          channel_type = channel_type;
        };
        confirm_sent = confirm_sent;
        confirm_received = confirm_received;
        header = header;
        datagram_sender = datagram_sender;
        recv = recv;
        send = send;
        datagrams_queue = Datagram.new datagrams_queue_size;
      })
