-- ===== src/Message/Layout.antt =====
-- The wire form of each message, and which messages have one: integers of at most 62 bits, and
-- strings of bytes within the limit of the readers.
use ssh.Base.{Bytes, ◌++◌, [], if◌then◌else◌, ◌==◌}
use ssh.Wire.VarInt.{var_int}
use ssh.Wire.Strings.{ssh_string, bool_byte}
use ssh.Wire.Bounds.{Fits, IsSshString}
use ssh.Forwarding.{protocol_as_u64, family_as_u64, from_ip, octets_of, to_be_bytes}
use ssh.Forwarding.Octets.{IsPort, IsIpAddr}
use ssh.Message.Encode.{request_type}
use ssh.Message.{
  ssh_msg_channel_open_confirmation, ssh_msg_channel_open_failure, ssh_msg_channel_data,
  ssh_msg_channel_extended_data, ssh_msg_channel_request, ssh_extended_data_none,
  DataOrExtendedDataMessage, ChannelRequest, pty, x11, shell, exec, subsystem, window_change,
  signal, exit_status, exit_signal, forward_port, Message, channel_request,
  channel_open_confirmation, channel_open_failure, data_message,
}

-- The payload of a request.
abbrev pub payload : ChannelRequest → Bytes
payload (pty r) =
    ssh_string r.term
    ++ (var_int r.char_width
        ++ (var_int r.char_height
            ++ (var_int r.pixel_width
                ++ (var_int r.pixel_height ++ ssh_string r.encoded_terminal_modes))))
payload (x11 r) =
    bool_byte r.single_connection
    ++ (ssh_string r.x11_authentication_protocol
        ++ (ssh_string r.x11_authentication_cookie ++ var_int r.x11_screen_number))
payload shell = []
payload (exec r) = ssh_string r.command
payload (subsystem r) = ssh_string r.subsystem_name
payload (window_change r) =
    var_int r.char_width
    ++ (var_int r.char_height ++ (var_int r.pixel_width ++ var_int r.pixel_height))
payload (signal r) = ssh_string r.signal_name_without_sig
payload (exit_status r) = var_int r.exit_status
payload (exit_signal r) =
    ssh_string r.signal_name_without_sig
    ++ (bool_byte r.core_dumped ++ (ssh_string r.error_message_utf8 ++ ssh_string r.language_tag))
payload (forward_port r) =
    var_int (protocol_as_u64 r.protocol)
    ++ (var_int (family_as_u64 (from_ip r.ip_address))
        ++ (octets_of r.ip_address ++ to_be_bytes r.port))

-- The data of a message behind its number.
abbrev pub data_bytes : DataOrExtendedDataMessage → Bytes
data_bytes m =
    if m.data_type == ssh_extended_data_none
    then var_int ssh_msg_channel_data ++ ssh_string m.contents
    else var_int ssh_msg_channel_extended_data ++ (var_int m.data_type ++ ssh_string m.contents)

unfoldable pub layout : Message → Bytes
layout (channel_request m) =
    var_int ssh_msg_channel_request
    ++ (ssh_string (request_type m.request) ++ (bool_byte m.want_reply ++ payload m.request))
layout (channel_open_confirmation m) =
    var_int ssh_msg_channel_open_confirmation ++ var_int m.max_packet_size
layout (channel_open_failure m) =
    var_int ssh_msg_channel_open_failure
    ++ (var_int m.reason_code ++ (ssh_string m.error_message_utf8 ++ ssh_string m.language_tag))
layout (data_message m) = data_bytes m

abbrev pub IsRequest : ChannelRequest → Type 0
IsRequest (pty r) =
    IsSshString r.term
    × Fits r.char_width
    × Fits r.char_height
    × Fits r.pixel_width
    × Fits r.pixel_height
    × IsSshString r.encoded_terminal_modes
IsRequest (x11 r) =
    IsSshString r.x11_authentication_protocol
    × IsSshString r.x11_authentication_cookie
    × Fits r.x11_screen_number
IsRequest shell = Unit
IsRequest (exec r) = IsSshString r.command
IsRequest (subsystem r) = IsSshString r.subsystem_name
IsRequest (window_change r) =
    Fits r.char_width × Fits r.char_height × Fits r.pixel_width × Fits r.pixel_height
IsRequest (signal r) = IsSshString r.signal_name_without_sig
IsRequest (exit_status r) = Fits r.exit_status
IsRequest (exit_signal r) =
    IsSshString r.signal_name_without_sig
    × IsSshString r.error_message_utf8
    × IsSshString r.language_tag
IsRequest (forward_port r) = IsIpAddr r.ip_address × IsPort r.port

-- What a message on the wire can hold.
abbrev pub IsMessage : Message → Type 0
IsMessage (channel_request m) = IsRequest m.request
IsMessage (channel_open_confirmation m) = Fits m.max_packet_size
IsMessage (channel_open_failure m) =
    Fits m.reason_code × IsSshString m.error_message_utf8 × IsSshString m.language_tag
IsMessage (data_message m) = Fits m.data_type × IsSshString m.contents
