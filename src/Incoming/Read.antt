-- ===== src/Incoming/Read.antt =====
-- `read_incoming_channel` of crates/ssh3-quinn/src/channel.rs and the readers that it is made of.
use ssh.Base.{
  ℕ, ◌+◌, ◌*◌, ◌/◌, ◌^◌, bit_and, Bytes, codes, bytes_eq, not, ◌||◌, Option, none, some,
  if◌then◌else◌, ◌==◌,
}
use ssh.Io.{Reader, pure, fail, ◌>>=◌, lift}
use ssh.Io
use ssh.Io.Agrees.{map_err}
use ssh.Wire.{only, checked_ssh_string_length}
use ssh.Forwarding.{
  ForwardingAddressFamily, ipv4, ipv6, SocketAddr, family_try_from, from_be_bytes, socket_of,
}
use ssh.Header.{ssh_frame_type}
use ssh.Incoming.{ChannelSetupError, io, proto, unexpected_frame_type, IncomingChannel}

unfoldable pub read_exact : ℕ → Reader ChannelSetupError Bytes
read_exact n = Io.read_exact io n

unfoldable pub read_byte : Reader ChannelSetupError ℕ
unfolding read_exact
read_byte = do byte ← read_exact 1; pure (only byte)

unfoldable pub read_var_int : Reader ChannelSetupError ℕ
read_var_int = do
  first_byte ← read_byte
  let len = 2 ^ (bit_and first_byte 0xc0 / 2 ^ 6)
  let b1 = bit_and first_byte 0x3f
  if len == 1 then pure b1 else do
    b2 ← read_byte
    if len == 2 then pure (b2 + b1 * 2 ^ 8) else do
      b3 ← read_byte
      b4 ← read_byte
      if len == 4 then pure (b4 + b3 * 2 ^ 8 + b2 * 2 ^ 16 + b1 * 2 ^ 24) else do
        b5 ← read_byte
        b6 ← read_byte
        b7 ← read_byte
        b8 ← read_byte
        pure (
            b8
            + b7 * 2 ^ 8
            + b6 * 2 ^ 16
            + b5 * 2 ^ 24
            + b4 * 2 ^ 32
            + b3 * 2 ^ 40
            + b2 * 2 ^ 48
            + b1 * 2 ^ 56)

unfoldable pub read_ssh_bytes : Reader ChannelSetupError Bytes
unfolding read_exact
read_ssh_bytes = do
  len ← read_var_int
  len' ← lift (map_err proto (checked_ssh_string_length len))
  read_exact len'

abbrev pub octets_len : ForwardingAddressFamily → ℕ
octets_len ipv4 = 4
octets_len ipv6 = 16

unfoldable pub read_forwarding_target : Reader ChannelSetupError SocketAddr
unfolding read_exact
read_forwarding_target = do
  family_number ← read_var_int
  family ← lift (map_err proto (family_try_from family_number))
  octets ← read_exact (octets_len family)
  port ← read_exact 2
  pure (socket_of family octets (from_be_bytes port))

-- The target follows the header of the two forwarding types.
unfoldable pub read_target : Bytes → Reader ChannelSetupError (Option SocketAddr)
read_target channel_type =
    if bytes_eq channel_type (codes "direct-udp") || bytes_eq channel_type (codes "direct-tcp")
    then (do target ← read_forwarding_target; pure (some target))
    else pure none

unfoldable pub read_header : ℕ → Reader ChannelSetupError IncomingChannel
read_header stream_id = do
  conversation_stream_id ← read_var_int
  channel_type ← read_ssh_bytes
  max_packet_size ← read_var_int
  forwarding_target ← read_target channel_type
  pure (record {
    stream_id = stream_id;
    header = record {
      conversation_stream_id = conversation_stream_id;
      channel_type = channel_type;
      max_packet_size = max_packet_size;
    };
    forwarding_target = forwarding_target;
  })

-- `stream_id` is what `recv.id()` returns.
unfoldable pub read_incoming_channel : ℕ → Reader ChannelSetupError IncomingChannel
read_incoming_channel stream_id = do
  frame_type ← read_var_int
  if not (frame_type == ssh_frame_type)
      then fail (unexpected_frame_type frame_type)
      else read_header stream_id
