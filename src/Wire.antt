-- ===== src/Wire.antt =====
-- crates/ssh3-proto/src/wire.rs: variable-length integers of 1, 2, 4 or 8 bytes, SSH strings and
-- booleans. A reader is a function of its stream; a writer takes the bytes written so far, and
-- `none` is a panic. `usize` is 64 bits wide.
pub mod VarInt
pub mod VarIntLen
pub mod RoundTrip
pub mod Strings
pub mod Bounds
pub mod Prefix
use ssh.Base.{
  ℕ, zero, suc, ◌+◌, ◌-◌, ◌*◌, ◌/◌, ◌%◌, ◌^◌, bit_and, bit_or, Bytes, List, [], ◌∷◌, ◌++◌, Bool,
  true, false, ◌||◌, Option, none, some, if◌then◌else◌, leb, ltb, ◌==◌, length,
}
use ssh.Base
use ssh.Io.{IoError, Result, ok, err, Reader, pure, fail, ◌>>=◌, lift, read_exact}

pub data Error : Type 0 where
  io : IoError → Error
  invalid_bool : ℕ → Error
  invalid_length : ℕ → Error
  unknown_message_type : ℕ → Error
  unknown_request_type : Bytes → Error
  invalid_forwarding_protocol : ℕ → Error
  invalid_address_family : ℕ → Error

abbrev pub max_varint_1 : ℕ
max_varint_1 = 63

abbrev pub max_varint_2 : ℕ
max_varint_2 = 16383

abbrev pub max_varint_4 : ℕ
max_varint_4 = 1073741823

abbrev pub max_varint_8 : ℕ
max_varint_8 = 4611686018427387903

abbrev pub max_varint : ℕ
max_varint = max_varint_8

abbrev pub max_ssh_string_len : ℕ
max_ssh_string_len = 16 * 1024 * 1024

-- The only byte of a buffer of one.
abbrev pub only : Bytes → ℕ
only [] = 0
only (b ∷ bs) = b

unfoldable pub read_byte : Reader Error ℕ
read_byte = do byte ← read_exact io 1; pure (only byte)

unfoldable pub read_var_int : Reader Error ℕ
read_var_int = do
  first_byte ← read_byte
  let len = 2 ^ (bit_and first_byte 0xc0 / 2 ^ 6)
  let b1 = bit_and first_byte 0x3f
  if len == 1 then pure b1 else do
    b2 ← read_byte
    if len == 2 then pure (b2 + b1 * 2 ^ 8) else do
      b3 ← read_byte
      b4 ← read_byte
      if len == 4 then pure (b4 + b3 * 2 ^ 8 + b2 * 2 ^ 16 + b1 * 2 ^ 24) else do
        b5 ← read_byte
        b6 ← read_byte
        b7 ← read_byte
        b8 ← read_byte
        pure (
            b8
            + b7 * 2 ^ 8
            + b6 * 2 ^ 16
            + b5 * 2 ^ 24
            + b4 * 2 ^ 32
            + b3 * 2 ^ 40
            + b2 * 2 ^ 48
            + b1 * 2 ^ 56)

-- `(value >> n) as u8`
abbrev pub byte_at : ℕ → ℕ → ℕ
byte_at value n = value / 2 ^ n % 256

unfoldable pub append_var_int : Bytes → ℕ → Option Bytes
append_var_int out value =
    if leb value max_varint_1
    then some (out ++ (byte_at value 0 ∷ []))
    else if leb value max_varint_2
    then some (out ++ (bit_or (byte_at value 8) 0x40 ∷ byte_at value 0 ∷ []))
    else if leb value max_varint_4
    then some (
        out
        ++ (bit_or (byte_at value 24) 0x80
            ∷ byte_at value 16
            ∷ byte_at value 8
            ∷ byte_at value 0
            ∷ []))
    else if leb value max_varint_8
    then some (
        out
        ++ (bit_or (byte_at value 56) 0xc0
            ∷ byte_at value 48
            ∷ byte_at value 40
            ∷ byte_at value 32
            ∷ byte_at value 24
            ∷ byte_at value 16
            ∷ byte_at value 8
            ∷ byte_at value 0
            ∷ []))
    else none

unfoldable pub var_int_len : ℕ → Option ℕ
var_int_len value =
    if leb value max_varint_1
    then some 1
    else if leb value max_varint_2
    then some 2
    else if leb value max_varint_4
    then some 4
    else if leb value max_varint_8
    then some 8
    else none

-- `for _ in 0..n { out.push(0) }`
abbrev pub push_zeros : ℕ → Bytes → Bytes
push_zeros zero out = out
push_zeros (suc n) out = push_zeros n (out ++ (0 ∷ []))

-- `for shift_index in (0..n).rev() { out.push((value >> (shift_index * 8)) as u8) }`
abbrev pub push_shifted : ℕ → ℕ → Bytes → Bytes
push_shifted zero value out = out
push_shifted (suc n) value out = push_shifted n value (out ++ (byte_at value (n * 8) ∷ []))

-- The byte that marks the length of a padded integer.
abbrev pub push_marker : ℕ → Bytes → Bytes
push_marker length' out =
    if length' == 2
    then out ++ (0x40 ∷ [])
    else if length' == 4
    then out ++ (0x80 ∷ [])
    else if length' == 8
    then out ++ (0xc0 ∷ [])
    else out

-- The padded form is written for `actual_len < length'`.
abbrev pub append_padded : Bytes → ℕ → ℕ → ℕ → Option Bytes
append_padded out value length' actual_len =
    if ltb length' actual_len
    then none
    else if actual_len == length'
    then append_var_int out value
    else some (
        push_shifted actual_len value
          (push_zeros (length' - actual_len - 1) (push_marker length' out)))

unfoldable pub append_var_int_with_len : Bytes → ℕ → ℕ → Option Bytes
append_var_int_with_len out value length' =
    if length' == 1 || length' == 2 || length' == 4 || length' == 8
    then Base.◌>>=◌ (var_int_len value) (append_padded out value length')
    else none

-- A length that passes is below 2 ^ 24, so the conversion to `usize` never fails.
unfoldable pub checked_ssh_string_length : ℕ → Result Error ℕ
checked_ssh_string_length length' =
    if ltb max_ssh_string_len length' then err (invalid_length length') else ok length'

unfoldable pub read_ssh_bytes : Reader Error Bytes
read_ssh_bytes = do
  length' ← read_var_int
  length'' ← lift (checked_ssh_string_length length')
  read_exact io length''

unfoldable pub append_ssh_bytes : Bytes → Bytes → Option Bytes
append_ssh_bytes out bytes =
    Base.◌>>=◌ (append_var_int out (length bytes)) (λ out'. some (out' ++ bytes))

unfoldable pub ssh_string_len : Bytes → Option ℕ
ssh_string_len bytes = Base.◌>>=◌ (var_int_len (length bytes)) (λ n. some (n + length bytes))

-- The value of one boolean byte.
abbrev pub check_bool : ℕ → Reader Error Bool
check_bool b = if b == 0 then pure false else if b == 1 then pure true else fail (invalid_bool b)

unfoldable pub read_bool : Reader Error Bool
read_bool = do b ← read_byte; check_bool b

unfoldable pub write_bool : Bytes → Bool → Bytes
write_bool out true = out ++ (1 ∷ [])
write_bool out false = out ++ (0 ∷ [])

unfoldable pub min_u64 : ℕ → ℕ → ℕ
min_u64 a b = if leb a b then a else b
