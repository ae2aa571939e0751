-- ===== src/Wire/Bounds.antt =====
-- The values that the readers of crates/ssh3-proto/src/wire.rs can return.
use ssh.Base.{
  ℕ, ◌+◌, ◌*◌, ◌^◌, ◌≤◌, ◌<◌, Bytes, AreBytes, IsByte, [], ◌∷◌, ◌≡◌, Bool, length, arith, bit_and,
  low_bits,
}
use ssh.Io.{Result, ok, Reader, ◌>>=◌, lift, read_exact}
use ssh.Io.Yields.{
  Yields, Yields-pure, Yields-fail, Yields-if, Yields-lift, Yields-bind, Yields-weaken,
  Yields-read_exact, yields_rules,
}
use ssh.Wire.{
  Error, io, max_varint, max_ssh_string_len, only, read_byte, read_var_int,
  checked_ssh_string_length, read_ssh_bytes, read_bool,
}

only-IsByte : (bs : Bytes) → AreBytes bs → IsByte (only bs)
only-IsByte [] h = omega arith
only-IsByte (b ∷ bs) h = h.0

pub Yields-read_byte : Yields IsByte read_byte
unfolding read_byte
Yields-read_byte =
    Yields-bind _ _ (Yields-read_exact io 1) (λ bs h. Yields-pure (only bs) (only-IsByte bs h.0))

abbrev pub Fits : ℕ → Type 0
Fits v = v ≤ max_varint

-- A read and the rest of the block.
module _ {B : Type 0} {Q : B → Type 0} where
  pub byte-then :
      (f : ℕ → Reader Error B) → ((b : ℕ) → IsByte b → Yields Q (f b)) → Yields Q (read_byte >>= f)
  byte-then f h = Yields-bind read_byte f Yields-read_byte h

low_lt : (b : ℕ) → IsByte b → bit_and b 0x3f < 64
low_lt b h = rw (low_bits b h) (omega arith)

module _ (b b2 b3 b4 b5 b6 b7 b8 : ℕ) (h : IsByte b) where
  one-Fits : Fits (bit_and b 0x3f)
  one-Fits = omega (arith, low_lt b h)

  two-Fits : IsByte b2 → Fits (b2 + bit_and b 0x3f * 2 ^ 8)
  two-Fits h2 = omega (arith, low_lt b h)

  four-Fits :
      IsByte b2
      → IsByte b3
      → IsByte b4
      → Fits (b4 + b3 * 2 ^ 8 + b2 * 2 ^ 16 + bit_and b 0x3f * 2 ^ 24)
  four-Fits h2 h3 h4 = omega (arith, low_lt b h)

  eight-Fits :
      IsByte b2
      → IsByte b3
      → IsByte b4
      → IsByte b5
      → IsByte b6
      → IsByte b7
      → IsByte b8
      → Fits (
          b8
          + b7 * 2 ^ 8
          + b6 * 2 ^ 16
          + b5 * 2 ^ 24
          + b4 * 2 ^ 32
          + b3 * 2 ^ 40
          + b2 * 2 ^ 48
          + bit_and b 0x3f * 2 ^ 56)
  eight-Fits h2 h3 h4 h5 h6 h7 h8 = omega (arith, low_lt b h)

pub Yields-read_var_int : Yields Fits read_var_int
unfolding read_var_int
Yields-read_var_int =
    search (yields_rules, byte-then, one-Fits, two-Fits, four-Fits, eight-Fits) depth 30

abbrev pub IsSshString : Bytes → Type 0
IsSshString bs = AreBytes bs × (length bs ≤ max_ssh_string_len)

checked-le : (n k : ℕ) → checked_ssh_string_length n ≡ ok k → k ≤ max_ssh_string_len
unfolding checked_ssh_string_length
checked-le n k e = ground arith

Yields-checked : (n : ℕ) → Yields (λ k. k ≤ max_ssh_string_len) (lift (checked_ssh_string_length n))
Yields-checked n = Yields-lift _ (checked-le n)

as_string : (n : ℕ) → n ≤ max_ssh_string_len → Yields IsSshString (read_exact io n)
as_string n h = Yields-weaken (Yields-read_exact io n) λ bs k. (k.0, omega (arith, k.1))

pub Yields-read_ssh_bytes : Yields IsSshString read_ssh_bytes
unfolding read_ssh_bytes
Yields-read_ssh_bytes =
    Yields-bind _ _ Yields-read_var_int λ n _. Yields-bind _ _ (Yields-checked n) as_string

pub Yields-read_bool : Yields (λ (b : Bool). Unit {0}) read_bool
unfolding read_bool
Yields-read_bool = search (yields_rules, byte-then)

module _ {B : Type 0} {Q : B → Type 0} where
  pub var_int-then :
      (f : ℕ → Reader Error B) → ((v : ℕ) → Fits v → Yields Q (f v)) → Yields Q (read_var_int >>= f)
  var_int-then f h = Yields-bind read_var_int f Yields-read_var_int h

  pub ssh_bytes-then :
      (f : Bytes → Reader Error B)
      → ((bs : Bytes) → IsSshString bs → Yields Q (f bs))
      → Yields Q (read_ssh_bytes >>= f)
  ssh_bytes-then f h = Yields-bind read_ssh_bytes f Yields-read_ssh_bytes h

  pub bool-then :
      (f : Bool → Reader Error B) → ((b : Bool) → Yields Q (f b)) → Yields Q (read_bool >>= f)
  bool-then f h = Yields-bind read_bool f Yields-read_bool (λ b _. h b)

  pub exact-then :
      (n : ℕ) (f : Bytes → Reader Error B)
      → ((bs : Bytes) → AreBytes bs → length bs ≡ n → Yields Q (f bs))
      → Yields Q (read_exact io n >>= f)
  exact-then n f h = Yields-bind (read_exact io n) f (Yields-read_exact io n) (λ bs k. h bs k.0 k.1)

pub lift-then :
    {A B : Type 0} {Q : B → Type 0} (r : Result Error A) (f : A → Reader Error B)
    → ((a : A) → Yields Q (f a))
    → Yields Q (lift r >>= f)
lift-then r f h =
    Yields-bind (lift r) f (Yields-lift {P = λ _. Unit {0}} r (λ a e. tt)) (λ a _. h a)

pub ruleset wire_yields = (
  Yields-pure, Yields-fail, Yields-lift, Yields-if, var_int-then, ssh_bytes-then, bool-then,
  exact-then,
)
