-- ===== src/Forwarding/Octets.antt =====
-- Ports, families and protocols of crates/ssh3-proto/src/message.rs as octets and numbers.
use ssh.Base.{ℕ, ◌^◌, ◌<◌, ◌≤◌, Bytes, AreBytes, [], ◌∷◌, ◌≡◌, refl, length, arith}
use ssh.Io.{ok}
use ssh.Wire.{max_varint}
use ssh.Forwarding.{
  ForwardingProtocol, udp, tcp, protocol_as_u64, protocol_try_from, ForwardingAddressFamily, ipv4,
  ipv6, octet_len, family_as_u64, family_try_from, IpAddr, v4, v6, from_ip, octets_of, to_be_bytes,
  from_be_bytes, ip_of,
}

abbrev pub IsPort : ℕ → Type 0
IsPort port = port < 2 ^ 16

-- The octets are bytes, as many as the family has.
abbrev pub IsIpAddr : IpAddr → Type 0
IsIpAddr (v4 octets) = AreBytes octets × (length octets ≡ 4)
IsIpAddr (v6 octets) = AreBytes octets × (length octets ≡ 16)

pub from_be_bytes-to_be_bytes : (port : ℕ) → IsPort port → from_be_bytes (to_be_bytes port) ≡ port
from_be_bytes-to_be_bytes port h = omega arith

pub from_be_bytes-IsPort : (bs : Bytes) → AreBytes bs → IsPort (from_be_bytes bs)
from_be_bytes-IsPort [] h = omega arith
from_be_bytes-IsPort (a ∷ []) h = omega arith
from_be_bytes-IsPort (a ∷ b ∷ []) h = omega arith
from_be_bytes-IsPort (a ∷ b ∷ c ∷ bs) h = omega arith

pub protocol_try_from-as_u64 :
    (p : ForwardingProtocol) → protocol_try_from (protocol_as_u64 p) ≡ ok p
unfolding protocol_try_from protocol_as_u64
protocol_try_from-as_u64 udp = refl
protocol_try_from-as_u64 tcp = refl

pub family_try_from-as_u64 :
    (f : ForwardingAddressFamily) → family_try_from (family_as_u64 f) ≡ ok f
unfolding family_try_from family_as_u64
family_try_from-as_u64 ipv4 = refl
family_try_from-as_u64 ipv6 = refl

pub protocol_fits : (p : ForwardingProtocol) → protocol_as_u64 p ≤ max_varint
unfolding protocol_as_u64
protocol_fits udp = omega arith
protocol_fits tcp = omega arith

pub family_fits : (f : ForwardingAddressFamily) → family_as_u64 f ≤ max_varint
unfolding family_as_u64
family_fits ipv4 = omega arith
family_fits ipv6 = omega arith

pub length-octets_of : (a : IpAddr) → IsIpAddr a → length (octets_of a) ≡ octet_len (from_ip a)
unfolding octet_len from_ip
length-octets_of (v4 octets) h = h.1
length-octets_of (v6 octets) h = h.1

pub ip_of-from_ip : (a : IpAddr) → ip_of (from_ip a) (octets_of a) ≡ a
unfolding from_ip
ip_of-from_ip (v4 octets) = refl
ip_of-from_ip (v6 octets) = refl

pub ip_of-IsIpAddr :
    (f : ForwardingAddressFamily) (octets : Bytes)
    → AreBytes octets
    → length octets ≡ octet_len f
    → IsIpAddr (ip_of f octets)
unfolding octet_len
ip_of-IsIpAddr ipv4 octets h e = (h, e)
ip_of-IsIpAddr ipv6 octets h e = (h, e)
