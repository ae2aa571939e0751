-- ===== src/Incoming.antt =====
-- crates/ssh3-quinn/src/channel.rs: the stream of a channel that the peer opens. The header is read
-- from a `quinn::RecvStream`, whose `read_exact` fills the buffer or fails.
pub mod Read
pub mod Target
pub mod Route
use ssh.Base.{ℕ}
use ssh.Io.{IoError}
use ssh.Base.{Option}
use ssh.Wire
use ssh.Forwarding.{SocketAddr}
use ssh.Header.{ChannelHeader}

pub data ChannelSetupError : Type 0 where
  io : IoError → ChannelSetupError
  proto : Wire.Error → ChannelSetupError
  unexpected_frame_type : ℕ → ChannelSetupError

pub record IncomingChannel : Type 0 where
  pub stream_id : ℕ
  pub header : ChannelHeader
  pub forwarding_target : Option SocketAddr

-- The setup error for an error of the plain readers.
abbrev pub of_wire : Wire.Error → ChannelSetupError
of_wire (Wire.io e) = io e
of_wire (Wire.invalid_bool b) = proto (Wire.invalid_bool b)
of_wire (Wire.invalid_length n) = proto (Wire.invalid_length n)
of_wire (Wire.unknown_message_type k) = proto (Wire.unknown_message_type k)
of_wire (Wire.unknown_request_type t) = proto (Wire.unknown_request_type t)
of_wire (Wire.invalid_forwarding_protocol n) = proto (Wire.invalid_forwarding_protocol n)
of_wire (Wire.invalid_address_family n) = proto (Wire.invalid_address_family n)
