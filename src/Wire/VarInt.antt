-- ===== src/Wire/VarInt.antt =====
-- The wire form of an integer in plain arithmetic, for `append_var_int` and `read_var_int` of
-- crates/ssh3-proto/src/wire.rs.
use ssh.Base.{
  ℕ, ◌+◌, ◌*◌, ◌/◌, ◌^◌, ◌≤◌, ◌<◌, bit_and, Bytes, [], ◌∷◌, ◌++◌, ◌≡◌, refl, ◌∙◌, none, some,
  if◌then◌else◌, leb, arith, top_bits, low_bits, set_40, set_80, set_c0, Bool-cases, inl, inr,
}
use ssh.Io.{Reader, pure, ◌>>=◌}
use ssh.Io.Reads.{Reads, Reads-pure, Reads-bind, Reads-last, Reads-read_exact}
use ssh.Wire.{
  Error, io, max_varint_1, max_varint_2, max_varint_4, max_varint, byte_at, read_byte, read_var_int,
  append_var_int,
}

abbrev pub two_bytes : ℕ → Bytes
two_bytes v = (v / 2 ^ 8 + 64) ∷ byte_at v 0 ∷ []

abbrev pub four_bytes : ℕ → Bytes
four_bytes v = (v / 2 ^ 24 + 128) ∷ byte_at v 16 ∷ byte_at v 8 ∷ byte_at v 0 ∷ []

abbrev pub eight_bytes : ℕ → Bytes
eight_bytes v =
    (v / 2 ^ 56 + 192)
    ∷ byte_at v 48
    ∷ byte_at v 40
    ∷ byte_at v 32
    ∷ byte_at v 24
    ∷ byte_at v 16
    ∷ byte_at v 8
    ∷ byte_at v 0
    ∷ []

-- The wire form of an integer of at most 62 bits.
unfoldable pub var_int : ℕ → Bytes
var_int v =
    if leb v max_varint_1
    then v ∷ []
    else if leb v max_varint_2
    then two_bytes v
    else if leb v max_varint_4
    then four_bytes v
    else eight_bytes v

pub append_var_int-var_int :
    (out : Bytes) (v : ℕ) → v ≤ max_varint → append_var_int out v ≡ some (out ++ var_int v)
unfolding append_var_int var_int
append_var_int-var_int out v h =
    ground (arith, set_40 (byte_at v 8), set_80 (byte_at v 24), set_c0 (byte_at v 56))

pub append_var_int_panics : (out : Bytes) (v : ℕ) → max_varint < v → append_var_int out v ≡ none
unfolding append_var_int
append_var_int_panics out v h = ground arith

pub Reads-read_byte : (b : ℕ) → Reads read_byte (b ∷ []) b
unfolding read_byte
Reads-read_byte b = Reads-last _ (Reads-read_exact io 1 (b ∷ []) refl) (Reads-pure b)

-- One byte, then the rest.
pub byte_then :
    {A : Type 0} (f : ℕ → Reader Error A) (b : ℕ) (bs : Bytes) (a : A)
    → Reads (f b) bs a
    → Reads (read_byte >>= f) (b ∷ bs) a
byte_then f b bs a h = Reads-bind f {bs = b ∷ []} {cs = bs} (Reads-read_byte b) h

module _ (b k : ℕ) (small : b < 64) where
  top : k < 4 → bit_and (b + 64 * k) 0xc0 / 2 ^ 6 ≡ k
  top h = top_bits (b + 64 * k) (omega arith) ∙ omega arith

  low : k < 4 → bit_and (b + 64 * k) 0x3f ≡ b
  low h = low_bits (b + 64 * k) (omega arith) ∙ omega arith

pure_eq : (a b : ℕ) → a ≡ b → Reads {E = Error} (pure a) [] b
pure_eq a b e = rw e (Reads-pure b)

pub one : (v : ℕ) → v < 64 → Reads read_var_int (v ∷ []) v
unfolding read_var_int
one v h = byte_then _ v [] v (rw (marker, low_bits v (omega arith)) (pure_eq _ v (omega arith)))
  where
    marker : bit_and v 0xc0 / 2 ^ 6 ≡ 0
    marker = top_bits v (omega arith) ∙ omega arith

pub two : (v : ℕ) → v < 2 ^ 14 → Reads read_var_int (two_bytes v) v
unfolding read_var_int
two v h =
    let small : v / 2 ^ 8 < 64 = omega arith in
    byte_then _ _ _ v (
      rw (top (v / 2 ^ 8) 1 small (omega arith), low (v / 2 ^ 8) 1 small (omega arith))
        (byte_then _ _ [] v (pure_eq _ v (omega arith))))

pub four : (v : ℕ) → v < 2 ^ 30 → Reads read_var_int (four_bytes v) v
unfolding read_var_int
four v h =
    let small : v / 2 ^ 24 < 64 = omega arith in
    byte_then _ _ _ v (
      rw (top (v / 2 ^ 24) 2 small (omega arith), low (v / 2 ^ 24) 2 small (omega arith))
        (byte_then _ _ _ v (byte_then _ _ _ v (byte_then _ _ [] v (pure_eq _ v (omega arith))))))

pub eight : (v : ℕ) → v < 2 ^ 62 → Reads read_var_int (eight_bytes v) v
unfolding read_var_int
eight v h =
    let small : v / 2 ^ 56 < 64 = omega arith in
    byte_then _ _ _ v (
      rw (top (v / 2 ^ 56) 3 small (omega arith), low (v / 2 ^ 56) 3 small (omega arith))
        (byte_then _ _ _ v (
          byte_then _ _ _ v (
            byte_then _ _ _ v (
              byte_then _ _ _ v (
                byte_then _ _ _ v
                  (byte_then _ _ _ v (byte_then _ _ [] v (pure_eq _ v (omega arith))))))))))

-- `read_var_int` takes exactly the wire form and returns the integer.
pub Reads-read_var_int : (v : ℕ) → v ≤ max_varint → Reads read_var_int (var_int v) v
unfolding var_int
Reads-read_var_int v h = elim (Bool-cases (leb v max_varint_1)) [
  | inl p ↦ rw p (one v (ground arith))
  | inr p ↦ rw p (elim (Bool-cases (leb v max_varint_2)) [
    | inl q ↦ rw q (two v (ground arith))
    | inr q ↦ rw q (elim (Bool-cases (leb v max_varint_4)) [
      | inl r ↦ rw r (four v (ground arith))
      | inr r ↦ rw r (eight v (omega arith))
    ])
  ])
]
