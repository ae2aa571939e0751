-- ===== src/Message/Encode.antt =====
-- `encode` and `encoded_len` of each message of crates/ssh3-proto/src/message.rs: `none` is the panic
-- of an integer over 62 bits.
use ssh.Base.{ℕ, Bytes, ◌+◌, ◌++◌, [], Option, some, ◌>>=◌, if◌then◌else◌, ◌==◌, codes}
use ssh.Wire.{append_var_int, append_ssh_bytes, write_bool, var_int_len, ssh_string_len}
use ssh.Forwarding.{protocol_as_u64, family_as_u64, octet_len, from_ip, octets_of, to_be_bytes}
use ssh.Message.{
  ssh_msg_channel_open_confirmation, ssh_msg_channel_open_failure, ssh_msg_channel_data,
  ssh_msg_channel_extended_data, ssh_msg_channel_request, ssh_extended_data_none,
  ChannelOpenConfirmationMessage, ChannelOpenFailureMessage, DataOrExtendedDataMessage, PtyRequest,
  X11Request, ExecRequest, SubsystemRequest, WindowChangeRequest, SignalRequest, ExitStatusRequest,
  ExitSignalRequest, ForwardingRequest, ChannelRequest, pty, x11, shell, exec, subsystem,
  window_change, signal, exit_status, exit_signal, forward_port, ChannelRequestMessage, Message,
  channel_request, channel_open_confirmation, channel_open_failure, data_message,
}

unfoldable pub encode_confirmation : ChannelOpenConfirmationMessage → Bytes → Option Bytes
encode_confirmation m out = do
  out1 ← append_var_int out ssh_msg_channel_open_confirmation
  append_var_int out1 m.max_packet_size

unfoldable pub encode_failure : ChannelOpenFailureMessage → Bytes → Option Bytes
encode_failure m out = do
  out1 ← append_var_int out ssh_msg_channel_open_failure
  out2 ← append_var_int out1 m.reason_code
  out3 ← append_ssh_bytes out2 m.error_message_utf8
  append_ssh_bytes out3 m.language_tag

-- The message number, and the data type unless it is none.
unfoldable pub encode_data_type : DataOrExtendedDataMessage → Bytes → Option Bytes
encode_data_type m out =
    if m.data_type == ssh_extended_data_none
    then append_var_int out ssh_msg_channel_data
    else do out1 ← append_var_int out ssh_msg_channel_extended_data; append_var_int out1 m.data_type

unfoldable pub encode_data : DataOrExtendedDataMessage → Bytes → Option Bytes
encode_data m out = do out1 ← encode_data_type m out; append_ssh_bytes out1 m.contents

unfoldable pub encode_pty : PtyRequest → Bytes → Option Bytes
encode_pty r out = do
  out1 ← append_ssh_bytes out r.term
  out2 ← append_var_int out1 r.char_width
  out3 ← append_var_int out2 r.char_height
  out4 ← append_var_int out3 r.pixel_width
  out5 ← append_var_int out4 r.pixel_height
  append_ssh_bytes out5 r.encoded_terminal_modes

unfoldable pub encode_x11 : X11Request → Bytes → Option Bytes
encode_x11 r out = do
  out1 ← append_ssh_bytes (write_bool out r.single_connection) r.x11_authentication_protocol
  out2 ← append_ssh_bytes out1 r.x11_authentication_cookie
  append_var_int out2 r.x11_screen_number

unfoldable pub encode_exec : ExecRequest → Bytes → Option Bytes
encode_exec r out = append_ssh_bytes out r.command

unfoldable pub encode_subsystem : SubsystemRequest → Bytes → Option Bytes
encode_subsystem r out = append_ssh_bytes out r.subsystem_name

unfoldable pub encode_window_change : WindowChangeRequest → Bytes → Option Bytes
encode_window_change r out = do
  out1 ← append_var_int out r.char_width
  out2 ← append_var_int out1 r.char_height
  out3 ← append_var_int out2 r.pixel_width
  append_var_int out3 r.pixel_height

unfoldable pub encode_signal : SignalRequest → Bytes → Option Bytes
encode_signal r out = append_ssh_bytes out r.signal_name_without_sig

unfoldable pub encode_exit_status : ExitStatusRequest → Bytes → Option Bytes
encode_exit_status r out = append_var_int out r.exit_status

unfoldable pub encode_exit_signal : ExitSignalRequest → Bytes → Option Bytes
encode_exit_signal r out = do
  out1 ← append_ssh_bytes out r.signal_name_without_sig
  out2 ← append_ssh_bytes (write_bool out1 r.core_dumped) r.error_message_utf8
  append_ssh_bytes out2 r.language_tag

unfoldable pub encode_forwarding : ForwardingRequest → Bytes → Option Bytes
encode_forwarding r out = do
  out1 ← append_var_int out (protocol_as_u64 r.protocol)
  out2 ← append_var_int out1 (family_as_u64 (from_ip r.ip_address))
  some ((out2 ++ octets_of r.ip_address) ++ to_be_bytes r.port)

unfoldable pub request_type : ChannelRequest → Bytes
request_type (pty r) = codes "pty-req"
request_type (x11 r) = codes "x11-req"
request_type shell = codes "shell"
request_type (exec r) = codes "exec"
request_type (subsystem r) = codes "subsystem"
request_type (window_change r) = codes "window-change"
request_type (signal r) = codes "signal"
request_type (exit_status r) = codes "exit-status"
request_type (exit_signal r) = codes "exit-signal"
request_type (forward_port r) = codes "forward-port"

unfoldable pub encode_payload : ChannelRequest → Bytes → Option Bytes
encode_payload (pty r) out = encode_pty r out
encode_payload (x11 r) out = encode_x11 r out
encode_payload shell out = some out
encode_payload (exec r) out = encode_exec r out
encode_payload (subsystem r) out = encode_subsystem r out
encode_payload (window_change r) out = encode_window_change r out
encode_payload (signal r) out = encode_signal r out
encode_payload (exit_status r) out = encode_exit_status r out
encode_payload (exit_signal r) out = encode_exit_signal r out
encode_payload (forward_port r) out = encode_forwarding r out

unfoldable pub encode_channel_request : ChannelRequestMessage → Bytes → Option Bytes
encode_channel_request m out = do
  out1 ← append_var_int out ssh_msg_channel_request
  out2 ← append_ssh_bytes out1 (request_type m.request)
  encode_payload m.request (write_bool out2 m.want_reply)

unfoldable pub encode : Message → Bytes → Option Bytes
encode (channel_request m) out = encode_channel_request m out
encode (channel_open_confirmation m) out = encode_confirmation m out
encode (channel_open_failure m) out = encode_failure m out
encode (data_message m) out = encode_data m out

unfoldable pub encoded_len_confirmation : ChannelOpenConfirmationMessage → Option ℕ
encoded_len_confirmation m = do
  a ← var_int_len ssh_msg_channel_open_confirmation
  b ← var_int_len m.max_packet_size
  some (a + b)

unfoldable pub encoded_len_failure : ChannelOpenFailureMessage → Option ℕ
encoded_len_failure m = do
  a ← var_int_len ssh_msg_channel_open_failure
  b ← var_int_len m.reason_code
  c ← ssh_string_len m.error_message_utf8
  d ← ssh_string_len m.language_tag
  some (a + b + c + d)

unfoldable pub encoded_len_data : DataOrExtendedDataMessage → Option ℕ
encoded_len_data m =
    if m.data_type == ssh_extended_data_none
    then (do a ← var_int_len ssh_msg_channel_data; b ← ssh_string_len m.contents; some (a + b))
    else do
      a ← var_int_len ssh_msg_channel_extended_data
      b ← var_int_len m.data_type
      c ← ssh_string_len m.contents
      some (a + b + c)

unfoldable pub encoded_len_pty : PtyRequest → Option ℕ
encoded_len_pty r = do
  a ← ssh_string_len r.term
  b ← var_int_len r.char_width
  c ← var_int_len r.char_height
  d ← var_int_len r.pixel_width
  e ← var_int_len r.pixel_height
  f ← ssh_string_len r.encoded_terminal_modes
  some (a + b + c + d + e + f)

unfoldable pub encoded_len_x11 : X11Request → Option ℕ
encoded_len_x11 r = do
  a ← ssh_string_len r.x11_authentication_protocol
  b ← ssh_string_len r.x11_authentication_cookie
  c ← var_int_len r.x11_screen_number
  some (1 + a + b + c)

unfoldable pub encoded_len_exec : ExecRequest → Option ℕ
encoded_len_exec r = ssh_string_len r.command

unfoldable pub encoded_len_subsystem : SubsystemRequest → Option ℕ
encoded_len_subsystem r = ssh_string_len r.subsystem_name

unfoldable pub encoded_len_window_change : WindowChangeRequest → Option ℕ
encoded_len_window_change r = do
  a ← var_int_len r.char_width
  b ← var_int_len r.char_height
  c ← var_int_len r.pixel_width
  d ← var_int_len r.pixel_height
  some (a + b + c + d)

unfoldable pub encoded_len_signal : SignalRequest → Option ℕ
encoded_len_signal r = ssh_string_len r.signal_name_without_sig

unfoldable pub encoded_len_exit_status : ExitStatusRequest → Option ℕ
encoded_len_exit_status r = var_int_len r.exit_status

unfoldable pub encoded_len_exit_signal : ExitSignalRequest → Option ℕ
encoded_len_exit_signal r = do
  a ← ssh_string_len r.signal_name_without_sig
  b ← ssh_string_len r.error_message_utf8
  c ← ssh_string_len r.language_tag
  some (a + 1 + b + c)

unfoldable pub encoded_len_forwarding : ForwardingRequest → Option ℕ
encoded_len_forwarding r = do
  let family = from_ip r.ip_address
  a ← var_int_len (protocol_as_u64 r.protocol)
  b ← var_int_len (family_as_u64 family)
  some (a + b + octet_len family + 2)

unfoldable pub encoded_payload_len : ChannelRequest → Option ℕ
encoded_payload_len (pty r) = encoded_len_pty r
encoded_payload_len (x11 r) = encoded_len_x11 r
encoded_payload_len shell = some 0
encoded_payload_len (exec r) = encoded_len_exec r
encoded_payload_len (subsystem r) = encoded_len_subsystem r
encoded_payload_len (window_change r) = encoded_len_window_change r
encoded_payload_len (signal r) = encoded_len_signal r
encoded_payload_len (exit_status r) = encoded_len_exit_status r
encoded_payload_len (exit_signal r) = encoded_len_exit_signal r
encoded_payload_len (forward_port r) = encoded_len_forwarding r

unfoldable pub encoded_len_channel_request : ChannelRequestMessage → Option ℕ
encoded_len_channel_request m = do
  a ← var_int_len ssh_msg_channel_request
  b ← ssh_string_len (request_type m.request)
  c ← encoded_payload_len m.request
  some (a + b + 1 + c)

unfoldable pub encoded_len : Message → Option ℕ
encoded_len (channel_request m) = encoded_len_channel_request m
encoded_len (channel_open_confirmation m) = encoded_len_confirmation m
encoded_len (channel_open_failure m) = encoded_len_failure m
encoded_len (data_message m) = encoded_len_data m

-- `Message::to_vec`: the length is computed first, for the capacity.
unfoldable pub to_vec : Message → Option Bytes
to_vec m = do capacity ← encoded_len m; encode m []
