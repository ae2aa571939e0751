-- ===== src/Message/Parse.antt =====
-- `Message::parse` of crates/ssh3-proto/src/message.rs and the `parse` of each payload.
use ssh.Base.{ℕ, Bytes, codes, bytes_eq, if◌then◌else◌, ◌==◌}
use ssh.Io.{Reader, pure, fail, ◌>>=◌, lift, read_exact}
use ssh.Wire.{
  Error, io, unknown_message_type, unknown_request_type, read_var_int, read_ssh_bytes, read_bool,
}
use ssh.Forwarding.{protocol_try_from, family_try_from, octet_len, ip_of, from_be_bytes}
use ssh.Message.{
  ssh_msg_channel_open_confirmation, ssh_msg_channel_open_failure, ssh_msg_channel_data,
  ssh_msg_channel_extended_data, ssh_msg_channel_request, ssh_extended_data_none,
  ChannelOpenConfirmationMessage, ChannelOpenFailureMessage, DataOrExtendedDataMessage, PtyRequest,
  X11Request, ExecRequest, SubsystemRequest, WindowChangeRequest, SignalRequest, ExitStatusRequest,
  ExitSignalRequest, ForwardingRequest, ChannelRequest, pty, x11, shell, exec, subsystem,
  window_change, signal, exit_status, exit_signal, forward_port, ChannelRequestMessage, Message,
  channel_request, channel_open_confirmation, channel_open_failure, data_message,
}

unfoldable pub parse_confirmation : Reader Error ChannelOpenConfirmationMessage
parse_confirmation = do
  max_packet_size ← read_var_int
  pure (record { max_packet_size = max_packet_size })

unfoldable pub parse_failure : Reader Error ChannelOpenFailureMessage
parse_failure = do
  reason_code ← read_var_int
  error_message_utf8 ← read_ssh_bytes
  language_tag ← read_ssh_bytes
  pure (record {
    reason_code = reason_code;
    error_message_utf8 = error_message_utf8;
    language_tag = language_tag;
  })

unfoldable pub parse_data : Reader Error DataOrExtendedDataMessage
parse_data = do
  contents ← read_ssh_bytes
  pure (record { data_type = ssh_extended_data_none; contents = contents })

unfoldable pub parse_extended : Reader Error DataOrExtendedDataMessage
parse_extended = do
  data_type ← read_var_int
  contents ← read_ssh_bytes
  pure (record { data_type = data_type; contents = contents })

unfoldable pub parse_pty : Reader Error PtyRequest
parse_pty = do
  term ← read_ssh_bytes
  char_width ← read_var_int
  char_height ← read_var_int
  pixel_width ← read_var_int
  pixel_height ← read_var_int
  encoded_terminal_modes ← read_ssh_bytes
  pure (record {
    term = term;
    char_width = char_width;
    char_height = char_height;
    pixel_width = pixel_width;
    pixel_height = pixel_height;
    encoded_terminal_modes = encoded_terminal_modes;
  })

unfoldable pub parse_x11 : Reader Error X11Request
parse_x11 = do
  single_connection ← read_bool
  x11_authentication_protocol ← read_ssh_bytes
  x11_authentication_cookie ← read_ssh_bytes
  x11_screen_number ← read_var_int
  pure (record {
    single_connection = single_connection;
    x11_authentication_protocol = x11_authentication_protocol;
    x11_authentication_cookie = x11_authentication_cookie;
    x11_screen_number = x11_screen_number;
  })

unfoldable pub parse_exec : Reader Error ExecRequest
parse_exec = do command ← read_ssh_bytes; pure (record { command = command })

unfoldable pub parse_subsystem : Reader Error SubsystemRequest
parse_subsystem = do name ← read_ssh_bytes; pure (record { subsystem_name = name })

unfoldable pub parse_window_change : Reader Error WindowChangeRequest
parse_window_change = do
  char_width ← read_var_int
  char_height ← read_var_int
  pixel_width ← read_var_int
  pixel_height ← read_var_int
  pure (record {
    char_width = char_width;
    char_height = char_height;
    pixel_width = pixel_width;
    pixel_height = pixel_height;
  })

unfoldable pub parse_signal : Reader Error SignalRequest
parse_signal = do name ← read_ssh_bytes; pure (record { signal_name_without_sig = name })

unfoldable pub parse_exit_status : Reader Error ExitStatusRequest
parse_exit_status = do status ← read_var_int; pure (record { exit_status = status })

unfoldable pub parse_exit_signal : Reader Error ExitSignalRequest
parse_exit_signal = do
  signal_name_without_sig ← read_ssh_bytes
  core_dumped ← read_bool
  error_message_utf8 ← read_ssh_bytes
  language_tag ← read_ssh_bytes
  pure (record {
    signal_name_without_sig = signal_name_without_sig;
    core_dumped = core_dumped;
    error_message_utf8 = error_message_utf8;
    language_tag = language_tag;
  })

-- The octets have the family's length, so the conversions of the array never panic.
unfoldable pub parse_forwarding : Reader Error ForwardingRequest
parse_forwarding = do
  protocol_number ← read_var_int
  protocol ← lift (protocol_try_from protocol_number)
  family_number ← read_var_int
  family ← lift (family_try_from family_number)
  octets ← read_exact io (octet_len family)
  port ← read_exact io 2
  pure (record { protocol = protocol; ip_address = ip_of family octets; port = from_be_bytes port })

unfoldable pub parse_request : Bytes → Reader Error ChannelRequest
parse_request request_type =
    if bytes_eq request_type (codes "pty-req")
    then (do r ← parse_pty; pure (pty r))
    else if bytes_eq request_type (codes "x11-req")
    then (do r ← parse_x11; pure (x11 r))
    else if bytes_eq request_type (codes "shell")
    then pure shell
    else if bytes_eq request_type (codes "exec")
    then (do r ← parse_exec; pure (exec r))
    else if bytes_eq request_type (codes "subsystem")
    then (do r ← parse_subsystem; pure (subsystem r))
    else if bytes_eq request_type (codes "window-change")
    then (do r ← parse_window_change; pure (window_change r))
    else if bytes_eq request_type (codes "signal")
    then (do r ← parse_signal; pure (signal r))
    else if bytes_eq request_type (codes "exit-status")
    then (do r ← parse_exit_status; pure (exit_status r))
    else if bytes_eq request_type (codes "exit-signal")
    then (do r ← parse_exit_signal; pure (exit_signal r))
    else if bytes_eq request_type (codes "forward-port")
    then (do r ← parse_forwarding; pure (forward_port r))
    else fail (unknown_request_type request_type)

unfoldable pub parse_channel_request : Reader Error ChannelRequestMessage
parse_channel_request = do
  request_type ← read_ssh_bytes
  want_reply ← read_bool
  request ← parse_request request_type
  pure (record { want_reply = want_reply; request = request })

unfoldable pub parse_kind : ℕ → Reader Error Message
parse_kind kind =
    if kind == ssh_msg_channel_request
    then (do m ← parse_channel_request; pure (channel_request m))
    else if kind == ssh_msg_channel_open_confirmation
    then (do m ← parse_confirmation; pure (channel_open_confirmation m))
    else if kind == ssh_msg_channel_open_failure
    then (do m ← parse_failure; pure (channel_open_failure m))
    else if kind == ssh_msg_channel_data
    then (do m ← parse_data; pure (data_message m))
    else if kind == ssh_msg_channel_extended_data
    then (do m ← parse_extended; pure (data_message m))
    else fail (unknown_message_type kind)

unfoldable pub parse : Reader Error Message
parse = do kind ← read_var_int; parse_kind kind
