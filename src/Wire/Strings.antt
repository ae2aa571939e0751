-- ===== src/Wire/Strings.antt =====
-- The wire form of strings and booleans of crates/ssh3-proto/src/wire.rs.
use ssh.Base.{
  ℕ, ◌≤◌, ◌<◌, Bytes, [], ◌++◌, ◌∷◌, ◌≡◌, refl, Bool, true, false, some, arith, length,
  append_assoc, length-append,
}
use ssh.Io.{Stream, err, ok, prepend, Reader, ◌>>=◌, lift}
use ssh.Io.Reads.{Reads, reads_rules, Reads-pure, Reads-bind, Reads-lift, Reads-read_exact}
use ssh.Wire.{
  Error, io, invalid_length, max_varint, max_ssh_string_len, checked_ssh_string_length,
  read_ssh_bytes, append_ssh_bytes, ssh_string_len, read_bool, write_bool,
}
use ssh.Wire.VarInt.{var_int, Reads-read_var_int, append_var_int-var_int, byte_then}
use ssh.Wire.VarIntLen.{var_int_len-var_int}

-- The wire form of an SSH string.
unfoldable pub ssh_string : Bytes → Bytes
ssh_string bs = var_int (length bs) ++ bs

pub append_ssh_bytes-ssh_string :
    (out bs : Bytes)
    → length bs ≤ max_varint
    → append_ssh_bytes out bs ≡ some (out ++ ssh_string bs)
unfolding append_ssh_bytes ssh_string
append_ssh_bytes-ssh_string out bs h =
    rw (append_var_int-var_int out (length bs) h) (rw (append_assoc out (var_int (length bs)) bs))

pub ssh_string_len-ssh_string :
    (bs : Bytes) → length bs ≤ max_varint → ssh_string_len bs ≡ some (length (ssh_string bs))
unfolding ssh_string_len ssh_string
ssh_string_len-ssh_string bs h =
    rw (var_int_len-var_int (length bs) h) (rw (length-append (var_int (length bs)) bs))

length_passes : (n : ℕ) → n ≤ max_ssh_string_len → checked_ssh_string_length n ≡ ok n
unfolding checked_ssh_string_length
length_passes n h = ground arith

pub Reads-read_ssh_bytes :
    (bs : Bytes) → length bs ≤ max_ssh_string_len → Reads read_ssh_bytes (ssh_string bs) bs
unfolding read_ssh_bytes ssh_string
Reads-read_ssh_bytes bs h = Reads-bind _ (Reads-read_var_int (length bs) (omega arith)) (
    Reads-bind _ {bs = []} {cs = bs} (Reads-lift _ _ (length_passes (length bs) h))
      (Reads-read_exact io (length bs) bs refl))

-- The wire form of a boolean.
unfoldable pub bool_byte : Bool → Bytes
bool_byte true = 1 ∷ []
bool_byte false = 0 ∷ []

pub Reads-read_bool : (b : Bool) → Reads read_bool (bool_byte b) b
unfolding read_bool bool_byte
Reads-read_bool true = byte_then _ 1 [] true (Reads-pure true)
Reads-read_bool false = byte_then _ 0 [] false (Reads-pure false)

pub length-bool_byte : (b : Bool) → length (bool_byte b) ≡ 1
unfolding bool_byte
length-bool_byte true = refl
length-bool_byte false = refl

pub write_bool-bool_byte : (out : Bytes) (b : Bool) → write_bool out b ≡ out ++ bool_byte b
unfolding write_bool bool_byte
write_bool-bool_byte out true = refl
write_bool-bool_byte out false = refl

length_fails :
    (n : ℕ) → max_ssh_string_len < n → checked_ssh_string_length n ≡ err (invalid_length n)
unfolding checked_ssh_string_length
length_fails n h = ground arith

-- A string whose length is over the limit is refused with that length, and the bytes behind the
-- length stay on the stream.
pub read_ssh_bytes_oversized :
    (n : ℕ) (s : Stream)
    → max_ssh_string_len < n
    → n ≤ max_varint
    → read_ssh_bytes (prepend (var_int n) s) ≡ (err (invalid_length n), s)
unfolding read_ssh_bytes ◌>>=◌ lift
read_ssh_bytes_oversized n s big fits =
    rw ((Reads-read_var_int n fits).at s) (rw (length_fails n big))

-- A boolean, then the rest.
pub bool_then :
    {A : Type 0} (f : Bool → Reader Error A) (b : Bool) {bs : Bytes} {a : A}
    → Reads (f b) bs a
    → Reads (read_bool >>= f) (bool_byte b ++ bs) a
bool_then f b h = Reads-bind f (Reads-read_bool b) h

-- What the readers of wire.rs do on the wire forms, for `search`.
pub ruleset wire_reads =
    (reads_rules, Reads-read_var_int, Reads-read_ssh_bytes, bool_then, Reads-read_exact, Reads-lift)
