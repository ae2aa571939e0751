-- ===== src/Wire/RoundTrip.antt =====
-- Writers of crates/ssh3-proto/src/wire.rs against their readers.
use ssh.Base.{Bytes, ℕ, [], ◌≤◌, ◌≡◌, some, length, arith}
use ssh.Io.{Stream, ok, prepend}
use ssh.Wire.{
  max_varint, max_ssh_string_len, read_var_int, append_var_int, var_int_len, read_ssh_bytes,
  append_ssh_bytes, ssh_string_len,
}
use ssh.Wire.VarInt.{var_int, append_var_int-var_int, Reads-read_var_int}
use ssh.Wire.VarIntLen.{var_int_len-var_int}
use ssh.Wire.Strings.{
  ssh_string, append_ssh_bytes-ssh_string, ssh_string_len-ssh_string, Reads-read_ssh_bytes,
}

-- `append_var_int` writes every integer of at most 62 bits in as many bytes as `var_int_len` says,
-- and `read_var_int` takes exactly these bytes from a stream and returns the integer.
pub read_var_int-append_var_int :
    (v : ℕ) (s : Stream)
    → v ≤ max_varint
    → (bs : Bytes) × (append_var_int [] v ≡ some bs)
      × (var_int_len v ≡ some (length bs))
      × (read_var_int (prepend bs s) ≡ (ok v, s))
read_var_int-append_var_int v s h = (
  var_int v,
  append_var_int-var_int [] v h,
  var_int_len-var_int v h,
  (Reads-read_var_int v h).at s,
)

-- `append_ssh_bytes` writes every string whose length is within the limit in as many bytes as
-- `ssh_string_len` says, and `read_ssh_bytes` takes exactly these bytes from a stream and returns
-- the string.
pub read_ssh_bytes-append_ssh_bytes :
    (bs : Bytes) (s : Stream)
    → length bs ≤ max_ssh_string_len
    → (out : Bytes) × (append_ssh_bytes [] bs ≡ some out)
      × (ssh_string_len bs ≡ some (length out))
      × (read_ssh_bytes (prepend out s) ≡ (ok bs, s))
read_ssh_bytes-append_ssh_bytes bs s h = (
  ssh_string bs,
  append_ssh_bytes-ssh_string [] bs (omega arith),
  ssh_string_len-ssh_string bs (omega arith),
  (Reads-read_ssh_bytes bs h).at s,
)
