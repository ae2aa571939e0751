-- ===== src/Header.antt =====
-- crates/ssh3-proto/src/channel.rs: the header that opens a channel's stream, and the target that
-- follows it on a forwarding channel.
pub mod Parse
pub mod RoundTrip
use ssh.Base.{ℕ, Bytes, [], ◌++◌, Option, none, some, ◌>>=◌}
use ssh.Wire.{append_var_int, append_ssh_bytes}
use ssh.Forwarding.{IpAddr, family_as_u64, from_ip, octets_of, to_be_bytes}

abbrev pub ssh_frame_type : ℕ
ssh_frame_type = 0xaf36_27e6

pub record ChannelHeader : Type 0 where
  pub conversation_stream_id : ℕ
  pub channel_type : Bytes
  pub max_packet_size : ℕ

-- `if let Some(bytes) = additional_bytes { out.extend_from_slice(bytes) }`
abbrev pub extend_with : Option Bytes → Bytes → Bytes
extend_with none out = out
extend_with (some bytes) out = out ++ bytes

unfoldable pub encode_header : ChannelHeader → Option Bytes → Option Bytes
encode_header h additional_bytes = do
  out1 ← append_var_int [] ssh_frame_type
  out2 ← append_var_int out1 h.conversation_stream_id
  out3 ← append_ssh_bytes out2 h.channel_type
  out4 ← append_var_int out3 h.max_packet_size
  some (extend_with additional_bytes out4)

unfoldable pub build_forwarding_additional_bytes : IpAddr → ℕ → Option Bytes
build_forwarding_additional_bytes remote_addr port = do
  out ← append_var_int [] (family_as_u64 (from_ip remote_addr))
  some ((out ++ octets_of remote_addr) ++ to_be_bytes port)
