-- ===== src/Header/RoundTrip.antt =====
-- The wire form of the header and the target of crates/ssh3-proto/src/channel.rs, and its readers.
use ssh.Base.{ℕ, Bytes, ◌++◌, [], ◌≤◌, ◌≡◌, refl, ap, length, arith, Option, some, append_assoc}
use ssh.Io.Reads.{Reads, Reads-bind, Reads-pure, Reads-last, Reads-lift, Reads-read_exact}
use ssh.Wire.{io, max_varint}
use ssh.Wire.VarInt.{var_int, Reads-read_var_int, append_var_int-var_int}
use ssh.Wire.Strings.{wire_reads, ssh_string, append_ssh_bytes-ssh_string}
use ssh.Wire.Bounds.{Fits, IsSshString}
use ssh.Forwarding.{IpAddr, from_ip, octets_of, to_be_bytes, socket_of, family_as_u64}
use ssh.Forwarding.Octets.{
  IsIpAddr, IsPort, length-octets_of, family_fits, family_try_from-as_u64,
  from_be_bytes-to_be_bytes,
}
use ssh.Header.{
  ChannelHeader, ssh_frame_type, extend_with, encode_header, build_forwarding_additional_bytes,
}
use ssh.Header.Parse.{parse_payload, parse_forwarding_payload}

abbrev pub IsHeader : ChannelHeader → Type 0
IsHeader h = Fits h.conversation_stream_id × IsSshString h.channel_type × Fits h.max_packet_size

-- The wire form of a header behind the frame type.
unfoldable pub header_payload : ChannelHeader → Bytes
header_payload h =
    var_int h.conversation_stream_id ++ (ssh_string h.channel_type ++ var_int h.max_packet_size)

pub Reads-parse_payload :
    (h : ChannelHeader) → IsHeader h → Reads parse_payload (header_payload h) h
unfolding parse_payload header_payload
Reads-parse_payload h v = search wire_reads depth 8

pub frame_type_fits : ssh_frame_type ≤ max_varint
frame_type_fits = omega arith

pub encode_header-layout :
    (h : ChannelHeader) (more : Option Bytes)
    → IsHeader h
    → encode_header h more ≡ some (extend_with more (var_int ssh_frame_type ++ header_payload h))
unfolding encode_header header_payload
encode_header-layout h more v =
    let short : length h.channel_type ≤ max_varint = omega arith in
    simp (
      append_var_int-var_int, append_ssh_bytes-ssh_string, append_assoc, frame_type_fits, v.0,
      short, v.2,
    )

-- The wire form of a forwarding target.
unfoldable pub target_bytes : IpAddr → ℕ → Bytes
target_bytes a port = var_int (family_as_u64 (from_ip a)) ++ (octets_of a ++ to_be_bytes port)

pub build-target_bytes :
    (a : IpAddr) (port : ℕ) → build_forwarding_additional_bytes a port ≡ some (target_bytes a port)
unfolding build_forwarding_additional_bytes target_bytes
build-target_bytes a port =
    rw (append_var_int-var_int [] _ (family_fits (from_ip a))) (
      ap some (append_assoc (var_int (family_as_u64 (from_ip a))) (octets_of a) (to_be_bytes port)))

pub Reads-parse_forwarding_payload :
    (a : IpAddr) (port : ℕ)
    → IsIpAddr a
    → IsPort port
    → Reads parse_forwarding_payload
        (target_bytes a port)
        (socket_of (from_ip a) (octets_of a) port)
unfolding parse_forwarding_payload target_bytes
Reads-parse_forwarding_payload a port h hp =
    Reads-bind _ (Reads-read_var_int _ (family_fits (from_ip a))) (
      Reads-bind _ {bs = []} (Reads-lift _ _ (family_try_from-as_u64 (from_ip a))) (
        Reads-bind _ (Reads-read_exact io _ _ (length-octets_of a h)) (
          Reads-last _ (Reads-read_exact io 2 (to_be_bytes port) refl)
            (rw (from_be_bytes-to_be_bytes port hp) (Reads-pure _)))))
