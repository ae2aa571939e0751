-- ===== src/Wire/Prefix.antt =====
-- The readers of crates/ssh3-proto/src/wire.rs on streams that go on.
use ssh.Io.Stable.{Stable, stable_rules, Stable-read_exact}
use ssh.Wire.{io, read_byte, read_var_int, read_ssh_bytes, read_bool}

pub Stable-read_byte : Stable io read_byte
unfolding read_byte
Stable-read_byte = search (stable_rules, Stable-read_exact)

pub Stable-read_var_int : Stable io read_var_int
unfolding read_var_int
Stable-read_var_int = search (stable_rules, Stable-read_byte) depth 30

pub Stable-read_ssh_bytes : Stable io read_ssh_bytes
unfolding read_ssh_bytes
Stable-read_ssh_bytes = search (stable_rules, Stable-read_var_int, Stable-read_exact)

pub Stable-read_bool : Stable io read_bool
unfolding read_bool
Stable-read_bool = search (stable_rules, Stable-read_byte)

pub ruleset wire_stable =
    (stable_rules, Stable-read_exact, Stable-read_var_int, Stable-read_ssh_bytes, Stable-read_bool)
