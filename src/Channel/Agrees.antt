-- ===== src/Channel/Agrees.antt =====
-- `parse_message` of crates/ssh3-core/src/channel.rs against `Message::parse` of
-- crates/ssh3-proto/src/message.rs.
use ssh.Base.{ℕ, Bytes, ◌≡◌, refl, Bool, arith}
use ssh.Io.{Stream, pure, fail, ◌>>=◌, lift, read_exact}
use ssh.Io.Agrees.{
  Agrees, Agrees-pure, Agrees-fail, Agrees-lift, Agrees-if, Agrees-bind, Agrees-read_exact,
  Agrees-assoc, Agrees-pure_bind, map_err, agrees_rules,
}
use ssh.Wire
use ssh.Channel.Error.{io, proto, of_wire}
use ssh.Channel.Parse.{
  read_byte, read_var_int, read_ssh_bytes, read_bool, octets_len, read_pty, read_x11,
  read_window_change, read_exit_signal, read_forward_port, read_request, read_channel_request,
  read_kind, parse_message,
}
use ssh.Wire.{checked_ssh_string_length}
use ssh.Forwarding.{
  ForwardingAddressFamily, ipv4, ipv6, octet_len, protocol_try_from, family_try_from,
}
use ssh.Message.{ChannelRequest, pty, x11, window_change, exit_signal, forward_port, Message}
use ssh.Message.Parse.{
  parse_confirmation, parse_failure, parse_data, parse_extended, parse_pty, parse_x11, parse_exec,
  parse_subsystem, parse_window_change, parse_signal, parse_exit_status, parse_exit_signal,
  parse_forwarding, parse_request, parse_channel_request, parse_kind, parse,
}

exact : (n : ℕ) → Agrees of_wire (read_exact io n) (read_exact Wire.io n)
exact n = Agrees-read_exact Wire.io io n (λ e. refl)

byte : Agrees of_wire read_byte Wire.read_byte
unfolding read_byte Wire.read_byte
byte = search (agrees_rules, exact)

var_int : Agrees of_wire read_var_int Wire.read_var_int
unfolding read_var_int Wire.read_var_int
var_int = search (agrees_rules, byte) depth 30

checked-of_wire :
    (n : ℕ)
    → map_err proto (checked_ssh_string_length n) ≡ map_err of_wire (checked_ssh_string_length n)
unfolding checked_ssh_string_length
checked-of_wire n = ground arith

checked :
    (n : ℕ)
    → Agrees of_wire
        (lift (map_err proto (checked_ssh_string_length n)))
        (lift (checked_ssh_string_length n))
checked n = rw (checked-of_wire n) (Agrees-lift (checked_ssh_string_length n))

protocol-of_wire :
    (n : ℕ) → map_err proto (protocol_try_from n) ≡ map_err of_wire (protocol_try_from n)
unfolding protocol_try_from
protocol-of_wire n = ground arith

protocol :
    (n : ℕ)
    → Agrees of_wire (lift (map_err proto (protocol_try_from n))) (lift (protocol_try_from n))
protocol n = rw (protocol-of_wire n) (Agrees-lift (protocol_try_from n))

family-of_wire : (n : ℕ) → map_err proto (family_try_from n) ≡ map_err of_wire (family_try_from n)
unfolding family_try_from
family-of_wire n = ground arith

family :
    (n : ℕ) → Agrees of_wire (lift (map_err proto (family_try_from n))) (lift (family_try_from n))
family n = rw (family-of_wire n) (Agrees-lift (family_try_from n))

octets :
    (f : ForwardingAddressFamily)
    → Agrees of_wire (read_exact io (octets_len f)) (read_exact Wire.io (octet_len f))
unfolding octet_len
octets ipv4 = exact 4
octets ipv6 = exact 16

string : Agrees of_wire read_ssh_bytes Wire.read_ssh_bytes
unfolding read_ssh_bytes Wire.read_ssh_bytes
string = search (agrees_rules, var_int, checked, exact)

not_bool :
    (b : ℕ)
    → Agrees of_wire (fail {A = Bool} (proto (Wire.invalid_bool b))) (fail (Wire.invalid_bool b))
not_bool b = Agrees-fail (Wire.invalid_bool b)

bool : Agrees of_wire read_bool Wire.read_bool
unfolding read_bool Wire.read_bool
bool = search (agrees_rules, byte, not_bool)

no_request :
    (t : Bytes)
    → Agrees of_wire
        (fail {A = ChannelRequest} (proto (Wire.unknown_request_type t)))
        (fail (Wire.unknown_request_type t))
no_request t = Agrees-fail (Wire.unknown_request_type t)

no_message :
    (k : ℕ)
    → Agrees of_wire
        (fail {A = Message} (proto (Wire.unknown_message_type k)))
        (fail (Wire.unknown_message_type k))
no_message k = Agrees-fail (Wire.unknown_message_type k)

ruleset same = (
  Agrees-pure, Agrees-if, Agrees-bind, Agrees-assoc, Agrees-pure_bind, var_int, string, bool,
  protocol, family, octets, exact,
)

pty_agrees : Agrees of_wire read_pty (parse_pty >>= λ r. pure (pty r))
unfolding parse_pty
pty_agrees = search same depth 20

x11_agrees : Agrees of_wire read_x11 (parse_x11 >>= λ r. pure (x11 r))
unfolding parse_x11
x11_agrees = search same depth 20

window_change_agrees :
    Agrees of_wire read_window_change (parse_window_change >>= λ r. pure (window_change r))
unfolding parse_window_change
window_change_agrees = search same depth 20

exit_signal_agrees :
    Agrees of_wire read_exit_signal (parse_exit_signal >>= λ r. pure (exit_signal r))
unfolding parse_exit_signal
exit_signal_agrees = search same depth 20

forward_port_agrees :
    Agrees of_wire read_forward_port (parse_forwarding >>= λ r. pure (forward_port r))
unfolding parse_forwarding
forward_port_agrees = search same depth 20

request_agrees : (t : Bytes) → Agrees of_wire (read_request t) (parse_request t)
unfolding read_request parse_request parse_exec parse_subsystem parse_signal parse_exit_status
request_agrees t =
    search
      (
        same, no_request, pty_agrees, x11_agrees, window_change_agrees, exit_signal_agrees,
        forward_port_agrees,
      )
      depth 30

channel_request_agrees : Agrees of_wire read_channel_request parse_channel_request
unfolding read_channel_request parse_channel_request
channel_request_agrees = search (same, request_agrees) depth 10

kind_agrees : (k : ℕ) → Agrees of_wire (read_kind k) (parse_kind k)
unfolding read_kind parse_kind parse_confirmation parse_failure parse_data parse_extended
kind_agrees k = search (same, no_message, channel_request_agrees) depth 30

pub message_agrees : Agrees of_wire parse_message parse
unfolding parse_message parse
message_agrees = search (same, kind_agrees)

-- On every stream, `parse_message` of the core takes the same bytes as `Message::parse` of the
-- protocol crate and returns the same message, or the same error wrapped as a channel's: an error
-- of the stream as `Io`, any other as `Proto`.
pub parse_message-parse :
    (s : Stream) → parse_message s ≡ (map_err of_wire (parse s).0, (parse s).1)
parse_message-parse s = message_agrees.at s
