-- ===== src/Message/RoundTrip.antt =====
-- `parse` of crates/ssh3-proto/src/message.rs against the wire form.
use ssh.Base.{
  ℕ, Bytes, ◌++◌, [], ◌≤◌, ◌≡◌, refl, sym, ==_iff, ◌==◌, length, arith, some, Bool-cases, inl, inr,
}
use ssh.Io.{Stream, prepend, ok}
use ssh.Io.Reads.{Reads, Reads-bind, Reads-pure, Reads-last, Reads-lift, Reads-read_exact}
use ssh.Wire.{io}
use ssh.Wire.VarInt.{var_int, Reads-read_var_int}
use ssh.Wire.Strings.{wire_reads, Reads-read_ssh_bytes, ssh_string, bool_byte}
use ssh.Wire.Bounds.{IsSshString}
use ssh.Forwarding.{from_ip, to_be_bytes}
use ssh.Forwarding.Octets.{
  length-octets_of, protocol_fits, family_fits, protocol_try_from-as_u64, family_try_from-as_u64,
  ip_of-from_ip, from_be_bytes-to_be_bytes,
}
use ssh.Message.{
  ssh_msg_channel_data, ssh_msg_channel_extended_data, ssh_extended_data_none, PtyRequest,
  X11Request, WindowChangeRequest, ExitSignalRequest, ForwardingRequest, DataOrExtendedDataMessage,
  ChannelOpenFailureMessage, ChannelRequestMessage, ChannelRequest, pty, x11, shell, exec,
  subsystem, window_change, signal, exit_status, exit_signal, forward_port, Message,
  channel_request, channel_open_confirmation, channel_open_failure, data_message,
}
use ssh.Message.Parse.{
  parse_confirmation, parse_failure, parse_data, parse_extended, parse_pty, parse_x11, parse_exec,
  parse_subsystem, parse_window_change, parse_signal, parse_exit_status, parse_exit_signal,
  parse_forwarding, parse_request, parse_channel_request, parse_kind, parse,
}
use ssh.Message.Encode.{request_type, encoded_len, to_vec}
use ssh.Message.Layout.{payload, layout, IsRequest, IsMessage}
use ssh.Message.Written.{encoded_len-layout, to_vec-layout, request_type-IsSshString}

string_read : (bs : Bytes) → IsSshString bs → length bs ≤ 16777216
string_read bs h = h.1

Reads-parse_pty : (r : PtyRequest) → IsRequest (pty r) → Reads parse_pty (payload (pty r)) r
unfolding parse_pty
Reads-parse_pty r h = search wire_reads depth 12

Reads-parse_x11 : (r : X11Request) → IsRequest (x11 r) → Reads parse_x11 (payload (x11 r)) r
unfolding parse_x11
Reads-parse_x11 r h = search wire_reads depth 10

Reads-parse_window_change :
    (r : WindowChangeRequest)
    → IsRequest (window_change r)
    → Reads parse_window_change (payload (window_change r)) r
unfolding parse_window_change
Reads-parse_window_change r h = search wire_reads depth 10

Reads-parse_exit_signal :
    (r : ExitSignalRequest)
    → IsRequest (exit_signal r)
    → Reads parse_exit_signal (payload (exit_signal r)) r
unfolding parse_exit_signal
Reads-parse_exit_signal r h = search wire_reads depth 10

Reads-parse_forwarding :
    (r : ForwardingRequest)
    → IsRequest (forward_port r)
    → Reads parse_forwarding (payload (forward_port r)) r
unfolding parse_forwarding
Reads-parse_forwarding r h = Reads-bind _ (Reads-read_var_int _ (protocol_fits r.protocol)) (
    Reads-bind _ {bs = []} (Reads-lift _ _ (protocol_try_from-as_u64 r.protocol)) (
      Reads-bind _ (Reads-read_var_int _ (family_fits (from_ip r.ip_address))) (
        Reads-bind _ {bs = []} (Reads-lift _ _ (family_try_from-as_u64 (from_ip r.ip_address))) (
          Reads-bind _ (Reads-read_exact io _ _ (length-octets_of r.ip_address h.0)) (
            Reads-last _ (Reads-read_exact io 2 (to_be_bytes r.port) refl) (
              rw (ip_of-from_ip r.ip_address, from_be_bytes-to_be_bytes r.port h.1)
                (Reads-pure r)))))))

Reads-parse_request :
    (r : ChannelRequest) → IsRequest r → Reads (parse_request (request_type r)) (payload r) r
unfolding parse_request request_type
Reads-parse_request (pty r) h = Reads-last _ (Reads-parse_pty r h) (Reads-pure _)
Reads-parse_request (x11 r) h = Reads-last _ (Reads-parse_x11 r h) (Reads-pure _)
Reads-parse_request shell h = Reads-pure shell
Reads-parse_request (exec r) h =
    unfold parse_exec in
    Reads-last _ (Reads-last _ (Reads-read_ssh_bytes _ h.1) (Reads-pure _)) (Reads-pure _)
Reads-parse_request (subsystem r) h =
    unfold parse_subsystem in
    Reads-last _ (Reads-last _ (Reads-read_ssh_bytes _ h.1) (Reads-pure _)) (Reads-pure _)
Reads-parse_request (window_change r) h =
    Reads-last _ (Reads-parse_window_change r h) (Reads-pure _)
Reads-parse_request (signal r) h =
    unfold parse_signal in
    Reads-last _ (Reads-last _ (Reads-read_ssh_bytes _ h.1) (Reads-pure _)) (Reads-pure _)
Reads-parse_request (exit_status r) h =
    unfold parse_exit_status in
    Reads-last _ (Reads-last _ (Reads-read_var_int _ h) (Reads-pure _)) (Reads-pure _)
Reads-parse_request (exit_signal r) h = Reads-last _ (Reads-parse_exit_signal r h) (Reads-pure _)
Reads-parse_request (forward_port r) h = Reads-last _ (Reads-parse_forwarding r h) (Reads-pure _)

Reads-parse_channel_request :
    (m : ChannelRequestMessage)
    → IsRequest m.request
    → Reads parse_channel_request
        (ssh_string (request_type m.request) ++ (bool_byte m.want_reply ++ payload m.request))
        m
unfolding parse_channel_request
Reads-parse_channel_request m h =
    search (wire_reads, Reads-parse_request, request_type-IsSshString m.request)

Reads-parse_failure :
    (m : ChannelOpenFailureMessage)
    → IsMessage (channel_open_failure m)
    → Reads parse_failure
        (var_int m.reason_code ++ (ssh_string m.error_message_utf8 ++ ssh_string m.language_tag))
        m
unfolding parse_failure
Reads-parse_failure m h = search wire_reads depth 8

-- On the number of the message.
numbered :
    (k : ℕ) {bs : Bytes} {m : Message}
    → k ≤ 98
    → Reads (parse_kind k) bs m
    → Reads parse (var_int k ++ bs) m
unfolding parse
numbered k small h = Reads-bind _ (Reads-read_var_int k (omega arith)) h

plain_data :
    (m : DataOrExtendedDataMessage)
    → IsSshString m.contents
    → m.data_type ≡ ssh_extended_data_none
    → Reads (parse_kind ssh_msg_channel_data) (ssh_string m.contents) (data_message m)
unfolding parse_kind parse_data
plain_data m h e =
    let same : record m { data_type = 0 } ≡ m =
      λ i. record { data_type = sym e i; contents = m.contents } in
    Reads-last _ (Reads-last _ (Reads-read_ssh_bytes m.contents h.1) (Reads-pure _))
      (rw same (Reads-pure _))

extended_data :
    (m : DataOrExtendedDataMessage)
    → IsMessage (data_message m)
    → Reads
        (parse_kind ssh_msg_channel_extended_data)
        (var_int m.data_type ++ ssh_string m.contents)
        (data_message m)
unfolding parse_kind parse_extended
extended_data m h = Reads-last _ (search wire_reads depth 8) (Reads-pure _)

pub Reads-parse : (m : Message) → IsMessage m → Reads parse (layout m) m
unfolding layout
Reads-parse (channel_request m) h =
    numbered 98 (omega arith)
      (unfold parse_kind in Reads-last _ (Reads-parse_channel_request m h) (Reads-pure _))
Reads-parse (channel_open_confirmation m) h = numbered 91 (omega arith) (
    unfold parse_kind parse_confirmation in
    Reads-last _ (Reads-last _ (Reads-read_var_int _ h) (Reads-pure _)) (Reads-pure _))
Reads-parse (channel_open_failure m) h =
    numbered 92 (omega arith)
      (unfold parse_kind in Reads-last _ (Reads-parse_failure m h) (Reads-pure _))
Reads-parse (data_message m) h = elim (Bool-cases (m.data_type == ssh_extended_data_none)) [
  | inl p ↦ rw p (numbered 94 (omega arith) (plain_data m h.1 ((==_iff _ _).0 p)))
  | inr p ↦ rw p (numbered 95 (omega arith) (extended_data m h))
]

-- Every message that fits the wire is encoded without a panic, into as many bytes as `encoded_len`
-- says, and `parse` takes exactly these bytes from a stream and returns the message.
pub parse-to_vec :
    (m : Message) (s : Stream)
    → IsMessage m
    → (bs : Bytes) × (to_vec m ≡ some bs)
      × (encoded_len m ≡ some (length bs))
      × (parse (prepend bs s) ≡ (ok m, s))
parse-to_vec m s h = (layout m, to_vec-layout m h, encoded_len-layout m h, (Reads-parse m h).at s)
