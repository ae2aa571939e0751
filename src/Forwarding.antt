-- ===== src/Forwarding.antt =====
-- The addresses of port forwarding: the protocol and family numbers of
-- crates/ssh3-proto/src/message.rs, and `std::net`'s addresses as their octets.
pub mod Octets
use ssh.Base.{ℕ, ◌+◌, ◌*◌, Bytes, [], ◌∷◌, Option, if◌then◌else◌, ◌==◌}
use ssh.Io.{Result, ok, err, Reader, pure, ◌>>=◌, lift, read_exact}
use ssh.Wire.{Error, io, invalid_forwarding_protocol, invalid_address_family, byte_at}

pub data ForwardingProtocol : Type 0 where
  udp tcp : ForwardingProtocol

unfoldable pub protocol_as_u64 : ForwardingProtocol → ℕ
protocol_as_u64 udp = 0
protocol_as_u64 tcp = 1

unfoldable pub protocol_try_from : ℕ → Result Error ForwardingProtocol
protocol_try_from value =
    if value == 0
    then ok udp
    else if value == 1
    then ok tcp
    else err (invalid_forwarding_protocol value)

pub data ForwardingAddressFamily : Type 0 where
  ipv4 ipv6 : ForwardingAddressFamily

unfoldable pub octet_len : ForwardingAddressFamily → ℕ
octet_len ipv4 = 4
octet_len ipv6 = 16

unfoldable pub family_as_u64 : ForwardingAddressFamily → ℕ
family_as_u64 ipv4 = 4
family_as_u64 ipv6 = 6

unfoldable pub family_try_from : ℕ → Result Error ForwardingAddressFamily
family_try_from value =
    if value == 4
    then ok ipv4
    else if value == 6
    then ok ipv6
    else err (invalid_address_family value)

-- An address is its octets: 4 of them, or 16.
pub data IpAddr : Type 0 where
  v4 : Bytes → IpAddr
  v6 : Bytes → IpAddr

unfoldable pub from_ip : IpAddr → ForwardingAddressFamily
from_ip (v4 octets) = ipv4
from_ip (v6 octets) = ipv6

-- An address with its port; the IPv6 form also has a flow label and a scope.
pub data SocketAddr : Type 0 where
  socket_v4 : Bytes → ℕ → SocketAddr
  socket_v6 : Bytes → ℕ → ℕ → ℕ → SocketAddr

abbrev pub ip : SocketAddr → IpAddr
ip (socket_v4 octets port) = v4 octets
ip (socket_v6 octets port flowinfo scope_id) = v6 octets

abbrev pub port_of : SocketAddr → ℕ
port_of (socket_v4 octets port) = port
port_of (socket_v6 octets port flowinfo scope_id) = port

abbrev pub octets_of : IpAddr → Bytes
octets_of (v4 octets) = octets
octets_of (v6 octets) = octets

-- `u16::to_be_bytes` and `u16::from_be_bytes`
abbrev pub to_be_bytes : ℕ → Bytes
to_be_bytes port = byte_at port 8 ∷ byte_at port 0 ∷ []

abbrev pub from_be_bytes : Bytes → ℕ
from_be_bytes (hi ∷ lo ∷ []) = hi * 256 + lo
from_be_bytes bs = 0

-- The address that the octets of a family stand for.
abbrev pub ip_of : ForwardingAddressFamily → Bytes → IpAddr
ip_of ipv4 octets = v4 octets
ip_of ipv6 octets = v6 octets

abbrev pub socket_of : ForwardingAddressFamily → Bytes → ℕ → SocketAddr
socket_of ipv4 octets port = socket_v4 octets port
socket_of ipv6 octets port = socket_v6 octets port 0 0
