-- ===== src/Channel/Consumes.antt =====
-- How many bytes `parse_message` of crates/ssh3-core/src/channel.rs takes.
use ssh.Base.{ℕ, Bytes}
use ssh.Io.Takes.{Shrinks, Takes, shrinks_rules, Takes-read_exact, Takes-bind}
use ssh.Channel.Error.{io}
use ssh.Channel.Parse.{
  read_byte, read_var_int, read_ssh_bytes, read_bool, read_request, read_channel_request, read_kind,
  parse_message,
}

Shrinks-read_byte : Shrinks read_byte
unfolding read_byte
Shrinks-read_byte = search shrinks_rules

Shrinks-read_var_int : Shrinks read_var_int
unfolding read_var_int
Shrinks-read_var_int = search (shrinks_rules, Shrinks-read_byte) depth 30

Shrinks-read_ssh_bytes : Shrinks read_ssh_bytes
unfolding read_ssh_bytes
Shrinks-read_ssh_bytes = search (shrinks_rules, Shrinks-read_var_int)

Shrinks-read_bool : Shrinks read_bool
unfolding read_bool
Shrinks-read_bool = search (shrinks_rules, Shrinks-read_byte)

ruleset shrinking = (shrinks_rules, Shrinks-read_var_int, Shrinks-read_ssh_bytes, Shrinks-read_bool)

Shrinks-read_request : (t : Bytes) → Shrinks (read_request t)
unfolding read_request
Shrinks-read_request t = search shrinking depth 30

Shrinks-read_kind : (k : ℕ) → Shrinks (read_kind k)
unfolding read_kind read_channel_request
Shrinks-read_kind k = search (shrinking, Shrinks-read_request) depth 30

Takes-read_byte : Takes read_byte
unfolding read_byte
Takes-read_byte = Takes-bind _ _ (Takes-read_exact io 0) (search shrinks_rules)

Takes-read_var_int : Takes read_var_int
unfolding read_var_int
Takes-read_var_int =
    Takes-bind _ _ Takes-read_byte (search (shrinks_rules, Shrinks-read_byte) depth 30)

pub Takes-parse_message : Takes parse_message
unfolding parse_message
Takes-parse_message = Takes-bind _ _ Takes-read_var_int Shrinks-read_kind
