-- ===== src/Channel/Error.antt =====
-- The errors of crates/ssh3-core/src/channel.rs.
use ssh.Base.{ℕ, Bytes}
use ssh.Io.{IoError}
use ssh.Wire
use ssh.Message.{Message}

pub record ChannelOpenFailure : Type 0 where
  pub reason_code : ℕ
  pub error_message_utf8 : Bytes

pub data ChannelError : Type 0 where
  io : IoError → ChannelError
  proto : Wire.Error → ChannelError
  open_failure : ChannelOpenFailure → ChannelError
  non_confirmed : Message → ChannelError
  datagram_sender_missing : ℕ → ChannelError
  max_packet_size_too_small : ℕ → ℕ → ChannelError

-- The channel's error for an error of the plain readers.
abbrev pub of_wire : Wire.Error → ChannelError
of_wire (Wire.io e) = io e
of_wire (Wire.invalid_bool b) = proto (Wire.invalid_bool b)
of_wire (Wire.invalid_length n) = proto (Wire.invalid_length n)
of_wire (Wire.unknown_message_type k) = proto (Wire.unknown_message_type k)
of_wire (Wire.unknown_request_type t) = proto (Wire.unknown_request_type t)
of_wire (Wire.invalid_forwarding_protocol n) = proto (Wire.invalid_forwarding_protocol n)
of_wire (Wire.invalid_address_family n) = proto (Wire.invalid_address_family n)
