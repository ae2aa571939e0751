-- ===== src/Client/Agent/Octets.antt =====
-- What the agent's client reads of what was written in its format.
use ssh.Base.{
  ℕ, ◌%◌, ◌^◌, ◌<◌, ◌≡◌, refl, Bytes, ◌++◌, append_assoc, false, ltb, length, length-append,
  take-append, drop-append, arith,
}
use ssh.Io.{ok, ◌>>=◌}
use ssh.Client.Agent.{
  to_be_bytes, from_be_bytes, append_ssh_string, read_u32, split_at, read_ssh_string,
}

pub from_be_bytes-to_be_bytes : (n : ℕ) → n < 2 ^ 32 → from_be_bytes (to_be_bytes n) ≡ n
unfolding from_be_bytes to_be_bytes
from_be_bytes-to_be_bytes n h = omega arith

pub length-to_be_bytes : (n : ℕ) → length (to_be_bytes n) ≡ 4
unfolding to_be_bytes
length-to_be_bytes n = omega arith

pub read_u32-to_be_bytes :
    (n : ℕ) (rest : Bytes) → n < 2 ^ 32 → read_u32 (to_be_bytes n ++ rest) ≡ (ok n, rest)
unfolding read_u32 to_be_bytes
read_u32-to_be_bytes n rest h =
    let enough : ltb (length (to_be_bytes n ++ rest)) 4 ≡ false = ground arith in
    rw (enough, from_be_bytes-to_be_bytes n h) refl

-- A string with its length.
abbrev pub framed : Bytes → Bytes
framed bytes = to_be_bytes (length bytes) ++ bytes

split_at-append : (bytes rest : Bytes) → split_at (length bytes) (bytes ++ rest) ≡ (ok bytes, rest)
split_at-append bytes rest =
    let enough : ltb (length (bytes ++ rest)) (length bytes) ≡ false =
      ground (arith, length-append bytes rest) in
    rw (enough, take-append bytes rest, drop-append bytes rest) refl

pub read_ssh_string-framed :
    (bytes rest : Bytes)
    → length bytes < 2 ^ 32
    → read_ssh_string (framed bytes ++ rest) ≡ (ok bytes, rest)
unfolding read_ssh_string ◌>>=◌
read_ssh_string-framed bytes rest h =
    rw
      (
        append_assoc (to_be_bytes (length bytes)) bytes rest,
        read_u32-to_be_bytes (length bytes) (bytes ++ rest) h,
      )
      (split_at-append bytes rest)

pub append_ssh_string-framed :
    (buf bytes : Bytes) → length bytes < 2 ^ 32 → append_ssh_string buf bytes ≡ buf ++ framed bytes
unfolding append_ssh_string
append_ssh_string-framed buf bytes h =
    let whole : length bytes % 2 ^ 32 ≡ length bytes = omega arith in
    rw (whole) (append_assoc buf (to_be_bytes (length bytes)) bytes)
