-- ===== src/Header/Parse.antt =====
-- The parsers of crates/ssh3-proto/src/channel.rs.
use ssh.Io.{Reader, pure, ◌>>=◌, lift, read_exact}
use ssh.Wire.{Error, io, read_var_int, read_ssh_bytes}
use ssh.Forwarding.{SocketAddr, family_try_from, octet_len, from_be_bytes, socket_of}
use ssh.Header.{ChannelHeader}

unfoldable pub parse_payload : Reader Error ChannelHeader
parse_payload = do
  conversation_stream_id ← read_var_int
  channel_type ← read_ssh_bytes
  max_packet_size ← read_var_int
  pure (record {
    conversation_stream_id = conversation_stream_id;
    channel_type = channel_type;
    max_packet_size = max_packet_size;
  })

-- The octets have the family's length, so the conversions of the array never panic.
unfoldable pub parse_forwarding_payload : Reader Error SocketAddr
parse_forwarding_payload = do
  family_number ← read_var_int
  family ← lift (family_try_from family_number)
  octets ← read_exact io (octet_len family)
  port ← read_exact io 2
  pure (socket_of family octets (from_be_bytes port))

unfoldable pub parse_udp_forwarding_payload : Reader Error SocketAddr
unfolding parse_forwarding_payload
parse_udp_forwarding_payload = parse_forwarding_payload

unfoldable pub parse_tcp_forwarding_payload : Reader Error SocketAddr
unfolding parse_forwarding_payload
parse_tcp_forwarding_payload = parse_forwarding_payload
