-- ===== src/Message.antt =====
-- The messages of crates/ssh3-proto/src/message.rs. Their parsers and encoders are in the modules
-- below.
pub mod Parse
pub mod Encode
pub mod Layout
pub mod Written
pub mod RoundTrip
pub mod Bounds
pub mod Prefix
use ssh.Base.{ℕ, Bytes, Bool}
use ssh.Forwarding.{ForwardingProtocol, IpAddr}

abbrev pub ssh_msg_channel_open_confirmation : ℕ
ssh_msg_channel_open_confirmation = 91

abbrev pub ssh_msg_channel_open_failure : ℕ
ssh_msg_channel_open_failure = 92

abbrev pub ssh_msg_channel_data : ℕ
ssh_msg_channel_data = 94

abbrev pub ssh_msg_channel_extended_data : ℕ
ssh_msg_channel_extended_data = 95

abbrev pub ssh_msg_channel_request : ℕ
ssh_msg_channel_request = 98

abbrev pub ssh_extended_data_none : ℕ
ssh_extended_data_none = 0

abbrev pub ssh_extended_data_stderr : ℕ
ssh_extended_data_stderr = 1

pub record ChannelOpenConfirmationMessage : Type 0 where
  pub max_packet_size : ℕ

pub record ChannelOpenFailureMessage : Type 0 where
  pub reason_code : ℕ
  pub error_message_utf8 : Bytes
  pub language_tag : Bytes

pub record DataOrExtendedDataMessage : Type 0 where
  pub data_type : ℕ
  pub contents : Bytes

pub record PtyRequest : Type 0 where
  pub term : Bytes
  pub char_width : ℕ
  pub char_height : ℕ
  pub pixel_width : ℕ
  pub pixel_height : ℕ
  pub encoded_terminal_modes : Bytes

pub record X11Request : Type 0 where
  pub single_connection : Bool
  pub x11_authentication_protocol : Bytes
  pub x11_authentication_cookie : Bytes
  pub x11_screen_number : ℕ

pub record ExecRequest : Type 0 where
  pub command : Bytes

pub record SubsystemRequest : Type 0 where
  pub subsystem_name : Bytes

pub record WindowChangeRequest : Type 0 where
  pub char_width : ℕ
  pub char_height : ℕ
  pub pixel_width : ℕ
  pub pixel_height : ℕ

pub record SignalRequest : Type 0 where
  pub signal_name_without_sig : Bytes

pub record ExitStatusRequest : Type 0 where
  pub exit_status : ℕ

pub record ExitSignalRequest : Type 0 where
  pub signal_name_without_sig : Bytes
  pub core_dumped : Bool
  pub error_message_utf8 : Bytes
  pub language_tag : Bytes

pub record ForwardingRequest : Type 0 where
  pub protocol : ForwardingProtocol
  pub ip_address : IpAddr
  pub port : ℕ

pub data ChannelRequest : Type 0 where
  pty : PtyRequest → ChannelRequest
  x11 : X11Request → ChannelRequest
  shell : ChannelRequest
  exec : ExecRequest → ChannelRequest
  subsystem : SubsystemRequest → ChannelRequest
  window_change : WindowChangeRequest → ChannelRequest
  signal : SignalRequest → ChannelRequest
  exit_status : ExitStatusRequest → ChannelRequest
  exit_signal : ExitSignalRequest → ChannelRequest
  forward_port : ForwardingRequest → ChannelRequest

pub record ChannelRequestMessage : Type 0 where
  pub want_reply : Bool
  pub request : ChannelRequest

pub data Message : Type 0 where
  channel_request : ChannelRequestMessage → Message
  channel_open_confirmation : ChannelOpenConfirmationMessage → Message
  channel_open_failure : ChannelOpenFailureMessage → Message
  data_message : DataOrExtendedDataMessage → Message
