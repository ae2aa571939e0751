-- ===== src/Message/Written.antt =====
-- `encode` and `encoded_len` of crates/ssh3-proto/src/message.rs against the wire form.
use ssh.Base.{
  ℕ, Bytes, ◌++◌, [], ◌≤◌, ◌≡◌, refl, length, arith, ap, Bool-cases, inl, inr, ◌==◌, append-nil,
  some, append_assoc, length-append,
}
use ssh.Wire.{max_varint, append_ssh_bytes, ssh_string_len}
use ssh.Wire.VarInt.{append_var_int-var_int}
use ssh.Wire.VarIntLen.{var_int_len-var_int}
use ssh.Wire.Strings.{
  ssh_string, append_ssh_bytes-ssh_string, ssh_string_len-ssh_string, write_bool-bool_byte,
  length-bool_byte,
}
use ssh.Wire.Bounds.{IsSshString}
use ssh.Forwarding.{from_ip}
use ssh.Forwarding.Octets.{length-octets_of, protocol_fits, family_fits}
use ssh.Message.{
  ssh_extended_data_none, ChannelRequest, pty, x11, shell, exec, subsystem, window_change, signal,
  exit_status, exit_signal, forward_port, Message, channel_request, channel_open_confirmation,
  channel_open_failure, data_message,
}
use ssh.Message.Encode.{
  encode_confirmation, encode_failure, encode_data_type, encode_data, encode_pty, encode_x11,
  encode_exec, encode_subsystem, encode_window_change, encode_signal, encode_exit_status,
  encode_exit_signal, encode_forwarding, request_type, encode_payload, encode_channel_request,
  encode, encoded_len_confirmation, encoded_len_failure, encoded_len_data, encoded_len_pty,
  encoded_len_x11, encoded_len_exec, encoded_len_subsystem, encoded_len_window_change,
  encoded_len_signal, encoded_len_exit_status, encoded_len_exit_signal, encoded_len_forwarding,
  encoded_payload_len, encoded_len_channel_request, encoded_len, to_vec,
}
use ssh.Message.Layout.{payload, layout, IsRequest, IsMessage}

string_written :
    (out bs : Bytes) → IsSshString bs → append_ssh_bytes out bs ≡ some (out ++ ssh_string bs)
string_written out bs h = append_ssh_bytes-ssh_string out bs (omega arith)

string_measured : (bs : Bytes) → IsSshString bs → ssh_string_len bs ≡ some (length (ssh_string bs))
string_measured bs h = ssh_string_len-ssh_string bs (omega arith)

ruleset writes = (string_written, append_var_int-var_int, write_bool-bool_byte, append_assoc)

ruleset measures = (string_measured, var_int_len-var_int, length-append, length-bool_byte)

pub request_type-IsSshString : (r : ChannelRequest) → IsSshString (request_type r)
unfolding request_type
request_type-IsSshString (pty r) = omega arith
request_type-IsSshString _ = omega arith

pub encode_payload-payload :
    (r : ChannelRequest) (out : Bytes)
    → IsRequest r
    → encode_payload r out ≡ some (out ++ payload r)
unfolding encode_payload
encode_payload-payload (pty r) out h =
    unfold encode_pty in simp (writes, h.0, h.1, h.2, h.3, h.4, h.5)
encode_payload-payload (x11 r) out h = unfold encode_x11 in simp (writes, h.0, h.1, h.2)
encode_payload-payload shell out h = rw append-nil
encode_payload-payload (exec r) out h = unfold encode_exec in string_written out _ h
encode_payload-payload (subsystem r) out h = unfold encode_subsystem in string_written out _ h
encode_payload-payload (window_change r) out h =
    unfold encode_window_change in simp (writes, h.0, h.1, h.2, h.3)
encode_payload-payload (signal r) out h = unfold encode_signal in string_written out _ h
encode_payload-payload (exit_status r) out h =
    unfold encode_exit_status in append_var_int-var_int out _ h
encode_payload-payload (exit_signal r) out h =
    unfold encode_exit_signal in simp (writes, h.0, h.1, h.2)
encode_payload-payload (forward_port r) out h =
    unfold encode_forwarding in
    simp (writes, protocol_fits r.protocol, family_fits (from_ip r.ip_address))

pub encoded_payload_len-payload :
    (r : ChannelRequest) → IsRequest r → encoded_payload_len r ≡ some (length (payload r))
unfolding encoded_payload_len
encoded_payload_len-payload (pty r) h =
    unfold encoded_len_pty in simp (measures, h.0, h.1, h.2, h.3, h.4, h.5) (ap some (omega arith))
encoded_payload_len-payload (x11 r) h =
    unfold encoded_len_x11 in simp (measures, h.0, h.1, h.2) (ap some (omega arith))
encoded_payload_len-payload shell h = refl
encoded_payload_len-payload (exec r) h = unfold encoded_len_exec in string_measured _ h
encoded_payload_len-payload (subsystem r) h = unfold encoded_len_subsystem in string_measured _ h
encoded_payload_len-payload (window_change r) h =
    unfold encoded_len_window_change in simp (measures, h.0, h.1, h.2, h.3) (ap some (omega arith))
encoded_payload_len-payload (signal r) h = unfold encoded_len_signal in string_measured _ h
encoded_payload_len-payload (exit_status r) h =
    unfold encoded_len_exit_status in var_int_len-var_int _ h
encoded_payload_len-payload (exit_signal r) h =
    unfold encoded_len_exit_signal in simp (measures, h.0, h.1, h.2) (ap some (omega arith))
encoded_payload_len-payload (forward_port r) h =
    unfold encoded_len_forwarding in
    simp (measures, protocol_fits r.protocol, family_fits (from_ip r.ip_address))
      (ap some (omega (arith, length-octets_of r.ip_address h.0)))

msg_fits : (k : ℕ) → k ≤ 98 → k ≤ max_varint
msg_fits k h = omega arith

-- On a message that fits the wire `encode` appends its wire form.
pub encode-layout :
    (m : Message) (out : Bytes) → IsMessage m → encode m out ≡ some (out ++ layout m)
unfolding encode layout
encode-layout (channel_request m) out h =
    unfold encode_channel_request in
    simp (
      writes,
      msg_fits 98 (omega arith),
      request_type-IsSshString m.request,
      encode_payload-payload,
      h,
    )
encode-layout (channel_open_confirmation m) out h =
    unfold encode_confirmation in simp (writes, msg_fits 91 (omega arith), h)
encode-layout (channel_open_failure m) out h =
    unfold encode_failure in simp (writes, msg_fits 92 (omega arith), h.0, h.1, h.2)
encode-layout (data_message m) out h =
    unfold encode_data encode_data_type in
    elim (Bool-cases (m.data_type == ssh_extended_data_none)) [
      | inl p ↦ rw p (simp (writes, msg_fits 94 (omega arith), h.1))
      | inr p ↦ rw p (simp (writes, msg_fits 95 (omega arith), h.0, h.1))
    ]

-- `encoded_len` is the length of the wire form.
pub encoded_len-layout : (m : Message) → IsMessage m → encoded_len m ≡ some (length (layout m))
unfolding encoded_len layout
encoded_len-layout (channel_request m) h =
    unfold encoded_len_channel_request in
    simp
      (
        measures,
        msg_fits 98 (omega arith),
        request_type-IsSshString m.request,
        encoded_payload_len-payload,
        h,
      )
      (ap some (omega arith))
encoded_len-layout (channel_open_confirmation m) h =
    unfold encoded_len_confirmation in simp (measures, msg_fits 91 (omega arith), h)
encoded_len-layout (channel_open_failure m) h =
    unfold encoded_len_failure in
    simp (measures, msg_fits 92 (omega arith), h.0, h.1, h.2) (ap some (omega arith))
encoded_len-layout (data_message m) h =
    unfold encoded_len_data in
    elim (Bool-cases (m.data_type == ssh_extended_data_none)) [
      | inl p ↦ rw p (simp (measures, msg_fits 94 (omega arith), h.1))
      | inr p ↦ rw p (simp (measures, msg_fits 95 (omega arith), h.0, h.1) (ap some (omega arith)))
    ]

pub to_vec-layout : (m : Message) → IsMessage m → to_vec m ≡ some (layout m)
unfolding to_vec
to_vec-layout m h = rw (encoded_len-layout m h) (encode-layout m [] h)
