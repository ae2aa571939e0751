-- ===== src/Incoming/Target.antt =====
-- `read_incoming_channel` and `read_forwarding_target` of crates/ssh3-quinn/src/channel.rs, against
-- the encoders and parsers of the protocol crate.
use ssh.Base.{
  ℕ, Bytes, [], ◌++◌, ◌≡◌, ◌≢◌, refl, sym, ap, ◌∙◌, Bool, true, false, ◌||◌, Option, none, some,
  arith, codes, bytes_eq, append_assoc, append-nil, ◌==◌,
}
use ssh.Io.{IoError, Stream, Result, ok, err, prepend, Reader, pure, fail, ◌>>=◌, lift}
use ssh.Io
use ssh.Io.Reads.{Reads, Reads-bind, Reads-last, Reads-pure}
use ssh.Io.Agrees.{Agrees, agrees_rules, Agrees-lift, Agrees-read_exact, Agrees-Reads, map_err}
use ssh.Wire
use ssh.Wire.{checked_ssh_string_length, max_varint}
use ssh.Wire.VarInt
use ssh.Wire.VarInt.{var_int}
use ssh.Wire.Strings
use ssh.Wire.Strings.{ssh_string}
use ssh.Wire.Bounds.{Fits, IsSshString}
use ssh.Forwarding.{
  ForwardingAddressFamily, ipv4, ipv6, octet_len, family_try_from, IpAddr, SocketAddr, from_ip,
  octets_of, socket_of,
}
use ssh.Forwarding.Octets.{IsIpAddr, IsPort}
use ssh.Header.{ChannelHeader, ssh_frame_type, encode_header, build_forwarding_additional_bytes}
use ssh.Header.Parse.{parse_forwarding_payload}
use ssh.Header.RoundTrip.{
  IsHeader, header_payload, frame_type_fits, encode_header-layout, target_bytes, build-target_bytes,
  Reads-parse_forwarding_payload,
}
use ssh.Incoming.{io, proto, unexpected_frame_type, of_wire}
use ssh.Incoming.Read.{
  read_exact, read_byte, read_var_int, read_ssh_bytes, octets_len, read_forwarding_target,
  read_target, read_header, read_incoming_channel,
}

exact : (n : ℕ) → Agrees of_wire (read_exact n) (Io.read_exact Wire.io n)
unfolding read_exact
exact n = Agrees-read_exact Wire.io io n (λ e. refl)

byte : Agrees of_wire read_byte Wire.read_byte
unfolding read_byte Wire.read_byte
byte = search (agrees_rules, exact)

int_agrees : Agrees of_wire read_var_int Wire.read_var_int
unfolding read_var_int Wire.read_var_int
int_agrees = search (agrees_rules, byte) depth 30

checked-of_wire :
    (n : ℕ)
    → map_err proto (checked_ssh_string_length n) ≡ map_err of_wire (checked_ssh_string_length n)
unfolding checked_ssh_string_length
checked-of_wire n = ground arith

checked :
    (n : ℕ)
    → Agrees of_wire
        (lift (map_err proto (checked_ssh_string_length n)))
        (lift (checked_ssh_string_length n))
checked n = rw (checked-of_wire n) (Agrees-lift (checked_ssh_string_length n))

family-of_wire : (n : ℕ) → map_err proto (family_try_from n) ≡ map_err of_wire (family_try_from n)
unfolding family_try_from
family-of_wire n = ground arith

family :
    (n : ℕ) → Agrees of_wire (lift (map_err proto (family_try_from n))) (lift (family_try_from n))
family n = rw (family-of_wire n) (Agrees-lift (family_try_from n))

octets :
    (f : ForwardingAddressFamily)
    → Agrees of_wire (read_exact (octets_len f)) (Io.read_exact Wire.io (octet_len f))
unfolding octet_len
octets ipv4 = exact 4
octets ipv6 = exact 16

bytes_agree : Agrees of_wire read_ssh_bytes Wire.read_ssh_bytes
unfolding read_ssh_bytes Wire.read_ssh_bytes
bytes_agree = search (agrees_rules, int_agrees, checked, exact)

target_agrees : Agrees of_wire read_forwarding_target parse_forwarding_payload
unfolding read_forwarding_target parse_forwarding_payload
target_agrees = search (agrees_rules, int_agrees, family, octets, exact) depth 12

-- On every stream, `read_forwarding_target` does what `parse_forwarding_payload` of the protocol
-- crate does, with its errors translated.
pub read_forwarding_target-parse :
    (s : Stream)
    → read_forwarding_target s
      ≡ (map_err of_wire (parse_forwarding_payload s).0, (parse_forwarding_payload s).1)
read_forwarding_target-parse s = target_agrees.at s

abbrev pub is_forwarding_type : Bytes → Bool
is_forwarding_type t = bytes_eq t (codes "direct-udp") || bytes_eq t (codes "direct-tcp")

int_read : (v : ℕ) → Fits v → Reads read_var_int (var_int v) v
int_read v h = Agrees-Reads int_agrees (VarInt.Reads-read_var_int v h)

bytes_read : (bs : Bytes) → IsSshString bs → Reads read_ssh_bytes (ssh_string bs) bs
bytes_read bs h = Agrees-Reads bytes_agree (Strings.Reads-read_ssh_bytes bs h.1)

-- The header's fields, and then the target.
Reads-read_header :
    (id : ℕ) (h : ChannelHeader) (t : Option SocketAddr) (bs : Bytes)
    → IsHeader h
    → Reads (read_target h.channel_type) bs t
    → Reads
        (read_header id)
        (header_payload h ++ bs)
        (record { stream_id = id; header = h; forwarding_target = t })
unfolding read_header header_payload
Reads-read_header id h t bs v r =
    rw
      (append_assoc (var_int h.conversation_stream_id)
        (ssh_string h.channel_type ++ var_int h.max_packet_size) bs)
      (rw (append_assoc (ssh_string h.channel_type) (var_int h.max_packet_size) bs) (
        Reads-bind _ (int_read h.conversation_stream_id v.0) (
          Reads-bind _ (bytes_read h.channel_type v.1)
            (Reads-bind _ (int_read h.max_packet_size v.2) (Reads-last _ r (Reads-pure _))))))

Reads-incoming :
    (id : ℕ) (h : ChannelHeader) (t : Option SocketAddr) (bs : Bytes)
    → IsHeader h
    → Reads (read_target h.channel_type) bs t
    → Reads
        (read_incoming_channel id)
        (var_int ssh_frame_type ++ (header_payload h ++ bs))
        (record { stream_id = id; header = h; forwarding_target = t })
unfolding read_incoming_channel
Reads-incoming id h t bs v r =
    Reads-bind _ (int_read ssh_frame_type frame_type_fits) (Reads-read_header id h t bs v r)

-- A channel of a forwarding type: its opener writes the header and the target, and the peer reads
-- exactly these bytes and gets the same header and the same address and port.
pub read_incoming_channel-forwarding :
    (id : ℕ) (h : ChannelHeader) (a : IpAddr) (port : ℕ) (s : Stream)
    → IsHeader h
    → is_forwarding_type h.channel_type ≡ true
    → IsIpAddr a
    → IsPort port
    → (more bs : Bytes) × (build_forwarding_additional_bytes a port ≡ some more)
      × (encode_header h (some more) ≡ some bs)
      × (read_incoming_channel id (prepend bs s) ≡ (
        ok (record {
          stream_id = id;
          header = h;
          forwarding_target = some (socket_of (from_ip a) (octets_of a) port);
        }),
        s,
      ))
unfolding read_target
read_incoming_channel-forwarding id h a port s v f ha hp = (
  target_bytes a port,
  var_int ssh_frame_type ++ (header_payload h ++ target_bytes a port),
  build-target_bytes a port,
  encode_header-layout h (some (target_bytes a port)) v
      ∙ ap some (append_assoc (var_int ssh_frame_type) (header_payload h) (target_bytes a port)),
  (Reads-incoming id h _ (target_bytes a port) v (
        rw f (
          Reads-last _ (Agrees-Reads target_agrees (Reads-parse_forwarding_payload a port ha hp))
            (Reads-pure _)))).at
      s,
)

-- A channel of any other type: the peer reads the header alone, and finds no target.
pub read_incoming_channel-plain :
    (id : ℕ) (h : ChannelHeader) (s : Stream)
    → IsHeader h
    → is_forwarding_type h.channel_type ≡ false
    → (bs : Bytes) × (encode_header h none ≡ some bs)
      × (read_incoming_channel id (prepend bs s)
          ≡ (ok (record { stream_id = id; header = h; forwarding_target = none }), s))
unfolding read_target
read_incoming_channel-plain id h s v f = (
  var_int ssh_frame_type ++ (header_payload h ++ []),
  encode_header-layout h none v
      ∙ ap (λ bs. some (var_int ssh_frame_type ++ bs)) (sym (append-nil (header_payload h))),
  (Reads-incoming id h none [] v (rw f (Reads-pure none))).at s,
)

-- A stream that starts with another frame type is refused, and only the type has been read.
pub read_incoming_channel_unexpected :
    (id k : ℕ) (s : Stream)
    → Fits k
    → k ≢ ssh_frame_type
    → read_incoming_channel id (prepend (var_int k) s) ≡ (err (unexpected_frame_type k), s)
unfolding read_incoming_channel ◌>>=◌ fail
read_incoming_channel_unexpected id k s h ne =
    let differs : (k == ssh_frame_type) ≡ false = ground arith in
    rw ((int_read k h).at s) (rw differs)
