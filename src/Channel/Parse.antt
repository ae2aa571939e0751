-- ===== src/Channel/Parse.antt =====
-- The readers at the end of crates/ssh3-core/src/channel.rs, which parse messages from a
-- `ReceiveStream`.
use ssh.Base.{
  ℕ, ◌+◌, ◌*◌, ◌/◌, ◌^◌, bit_and, Bytes, codes, bytes_eq, Bool, true, false, if◌then◌else◌, ◌==◌,
}
use ssh.Io.{Reader, pure, fail, ◌>>=◌, lift, read_exact}
use ssh.Io.Agrees.{map_err}
use ssh.Wire
use ssh.Wire.{only, checked_ssh_string_length}
use ssh.Forwarding.{
  ForwardingAddressFamily, ipv4, ipv6, protocol_try_from, family_try_from, ip_of, from_be_bytes,
}
use ssh.Message.{
  ssh_msg_channel_open_confirmation, ssh_msg_channel_open_failure, ssh_msg_channel_data,
  ssh_msg_channel_extended_data, ssh_msg_channel_request, ssh_extended_data_none, ChannelRequest,
  pty, x11, shell, exec, subsystem, window_change, signal, exit_status, exit_signal, forward_port,
  ChannelRequestMessage, Message, channel_request, channel_open_confirmation, channel_open_failure,
  data_message,
}
use ssh.Channel.Error.{ChannelError, io, proto}

unfoldable pub read_byte : Reader ChannelError ℕ
read_byte = do byte ← read_exact io 1; pure (only byte)

unfoldable pub read_var_int : Reader ChannelError ℕ
read_var_int = do
  first_byte ← read_byte
  let len = 2 ^ (bit_and first_byte 0xc0 / 2 ^ 6)
  let b1 = bit_and first_byte 0x3f
  if len == 1 then pure b1 else do
    b2 ← read_byte
    if len == 2 then pure (b2 + b1 * 2 ^ 8) else do
      b3 ← read_byte
      b4 ← read_byte
      if len == 4 then pure (b4 + b3 * 2 ^ 8 + b2 * 2 ^ 16 + b1 * 2 ^ 24) else do
        b5 ← read_byte
        b6 ← read_byte
        b7 ← read_byte
        b8 ← read_byte
        pure (
            b8
            + b7 * 2 ^ 8
            + b6 * 2 ^ 16
            + b5 * 2 ^ 24
            + b4 * 2 ^ 32
            + b3 * 2 ^ 40
            + b2 * 2 ^ 48
            + b1 * 2 ^ 56)

unfoldable pub read_ssh_bytes : Reader ChannelError Bytes
read_ssh_bytes = do
  len ← read_var_int
  len' ← lift (map_err proto (checked_ssh_string_length len))
  read_exact io len'

abbrev pub check_bool : ℕ → Reader ChannelError Bool
check_bool b =
    if b == 0 then pure false else if b == 1 then pure true else fail (proto (Wire.invalid_bool b))

unfoldable pub read_bool : Reader ChannelError Bool
read_bool = do b ← read_byte; check_bool b

abbrev pub octets_len : ForwardingAddressFamily → ℕ
octets_len ipv4 = 4
octets_len ipv6 = 16

abbrev pub read_pty : Reader ChannelError ChannelRequest
read_pty = do
  term ← read_ssh_bytes
  char_width ← read_var_int
  char_height ← read_var_int
  pixel_width ← read_var_int
  pixel_height ← read_var_int
  encoded_terminal_modes ← read_ssh_bytes
  pure (
      pty (record {
        term = term;
        char_width = char_width;
        char_height = char_height;
        pixel_width = pixel_width;
        pixel_height = pixel_height;
        encoded_terminal_modes = encoded_terminal_modes;
      }))

abbrev pub read_x11 : Reader ChannelError ChannelRequest
read_x11 = do
  single_connection ← read_bool
  x11_authentication_protocol ← read_ssh_bytes
  x11_authentication_cookie ← read_ssh_bytes
  x11_screen_number ← read_var_int
  pure (
      x11 (record {
        single_connection = single_connection;
        x11_authentication_protocol = x11_authentication_protocol;
        x11_authentication_cookie = x11_authentication_cookie;
        x11_screen_number = x11_screen_number;
      }))

abbrev pub read_window_change : Reader ChannelError ChannelRequest
read_window_change = do
  char_width ← read_var_int
  char_height ← read_var_int
  pixel_width ← read_var_int
  pixel_height ← read_var_int
  pure (
      window_change (record {
        char_width = char_width;
        char_height = char_height;
        pixel_width = pixel_width;
        pixel_height = pixel_height;
      }))

abbrev pub read_exit_signal : Reader ChannelError ChannelRequest
read_exit_signal = do
  signal_name_without_sig ← read_ssh_bytes
  core_dumped ← read_bool
  error_message_utf8 ← read_ssh_bytes
  language_tag ← read_ssh_bytes
  pure (
      exit_signal (record {
        signal_name_without_sig = signal_name_without_sig;
        core_dumped = core_dumped;
        error_message_utf8 = error_message_utf8;
        language_tag = language_tag;
      }))

abbrev pub read_forward_port : Reader ChannelError ChannelRequest
read_forward_port = do
  protocol_number ← read_var_int
  protocol ← lift (map_err proto (protocol_try_from protocol_number))
  family_number ← read_var_int
  family ← lift (map_err proto (family_try_from family_number))
  octets ← read_exact io (octets_len family)
  port ← read_exact io 2
  pure (
      forward_port (record {
        protocol = protocol;
        ip_address = ip_of family octets;
        port = from_be_bytes port;
      }))

-- The arms of `match request_type.as_slice()`.
unfoldable pub read_request : Bytes → Reader ChannelError ChannelRequest
read_request request_type =
    if bytes_eq request_type (codes "pty-req")
    then read_pty
    else if bytes_eq request_type (codes "x11-req")
    then read_x11
    else if bytes_eq request_type (codes "shell")
    then pure shell
    else if bytes_eq request_type (codes "exec")
    then (do command ← read_ssh_bytes; pure (exec (record { command = command })))
    else if bytes_eq request_type (codes "subsystem")
    then (do name ← read_ssh_bytes; pure (subsystem (record { subsystem_name = name })))
    else if bytes_eq request_type (codes "window-change")
    then read_window_change
    else if bytes_eq request_type (codes "signal")
    then (do name ← read_ssh_bytes; pure (signal (record { signal_name_without_sig = name })))
    else if bytes_eq request_type (codes "exit-status")
    then (do status ← read_var_int; pure (exit_status (record { exit_status = status })))
    else if bytes_eq request_type (codes "exit-signal")
    then read_exit_signal
    else if bytes_eq request_type (codes "forward-port")
    then read_forward_port
    else fail (proto (Wire.unknown_request_type request_type))

unfoldable pub read_channel_request : Reader ChannelError ChannelRequestMessage
read_channel_request = do
  request_type ← read_ssh_bytes
  want_reply ← read_bool
  request ← read_request request_type
  pure (record { want_reply = want_reply; request = request })

-- The arms of `match message_type`.
unfoldable pub read_kind : ℕ → Reader ChannelError Message
read_kind message_type =
    if message_type == ssh_msg_channel_request
    then (do m ← read_channel_request; pure (channel_request m))
    else if message_type == ssh_msg_channel_open_confirmation
    then (do
      max_packet_size ← read_var_int
      pure (channel_open_confirmation (record { max_packet_size = max_packet_size })))
    else if message_type == ssh_msg_channel_open_failure
    then (do
      reason_code ← read_var_int
      error_message_utf8 ← read_ssh_bytes
      language_tag ← read_ssh_bytes
      pure (
          channel_open_failure (record {
            reason_code = reason_code;
            error_message_utf8 = error_message_utf8;
            language_tag = language_tag;
          })))
    else if message_type == ssh_msg_channel_data
    then (do
      contents ← read_ssh_bytes
      pure (data_message (record { data_type = ssh_extended_data_none; contents = contents })))
    else if message_type == ssh_msg_channel_extended_data
    then (do
      data_type ← read_var_int
      contents ← read_ssh_bytes
      pure (data_message (record { data_type = data_type; contents = contents })))
    else fail (proto (Wire.unknown_message_type message_type))

unfoldable pub parse_message : Reader ChannelError Message
parse_message = do message_type ← read_var_int; read_kind message_type
