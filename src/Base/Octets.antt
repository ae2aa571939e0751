-- ===== src/Base/Octets.antt =====
-- Bytes are numbers below 256. Text literals as bytes, equality of byte strings, and the masks of
-- the wire format as arithmetic, each a table checked by evaluation.
use Prim.Native.Nat.{ℕ, zero, suc, ◌+◌, ◌/◌, ◌%◌, ◌<◌, ◌^◌, bit_and, bit_or}
use Prim.Native.Char.{code}
use Prim.Native.String.{String}
use mathlib.Core.Path.{◌≡◌, refl}
use mathlib.Core.Logic.{◌↔◌, ◌⊎◌, inl, inr}
use mathlib.Core.Bool.{Bool, true, false, ◌&&◌}
use mathlib.Core.List.{List, [], ◌∷◌}
use native.Mathlib.Omega.{arith}
use ssh.Base.Tests.{◌==◌}
use ssh.Base.Lists.{All}

abbrev pub Bytes : Type 0
Bytes = List ℕ

abbrev pub IsByte : ℕ → Type 0
IsByte b = b < 256

abbrev pub AreBytes : Bytes → Type 0
AreBytes = All IsByte

-- The bytes of an ASCII literal, Rust's `b"..."`.
abbrev pub codes : String → Bytes
codes String.[] = []
codes (String.◌∷◌ c s) = code c ∷ codes s

abbrev pub bytes_eq : Bytes → Bytes → Bool
bytes_eq [] [] = true
bytes_eq [] (y ∷ ys) = false
bytes_eq (x ∷ xs) [] = false
bytes_eq (x ∷ xs) (y ∷ ys) = x == y && bytes_eq xs ys

bytes_eq→eq : (xs ys : Bytes) → bytes_eq xs ys ≡ true → xs ≡ ys
bytes_eq→eq [] [] h = refl
bytes_eq→eq [] (y ∷ ys) h = cc
bytes_eq→eq (x ∷ xs) [] h = cc
bytes_eq→eq (x ∷ xs) (y ∷ ys) h = ground (arith, bytes_eq→eq xs ys)

bytes_eq_refl : (xs : Bytes) → bytes_eq xs xs ≡ true
bytes_eq_refl [] = refl
bytes_eq_refl (x ∷ xs) = ground (arith, bytes_eq_refl xs)

pub bytes_eq_iff : (xs ys : Bytes) → (bytes_eq xs ys ≡ true) ↔ (xs ≡ ys)
bytes_eq_iff xs ys = (bytes_eq→eq xs ys, λ e. rw (← e) (bytes_eq_refl xs))

same_or_less : (b bound : ℕ) → b < suc bound → (b ≡ bound) ⊎ (b < bound)
same_or_less b bound h = omega arith

module _ (f g : ℕ → ℕ) where
  -- Whether the two functions have the same values below a bound.
  same_values : ℕ → Bool
  same_values zero = true
  same_values (suc bound) = same_values bound && f bound == g bound

  same_at : (bound : ℕ) → same_values bound ≡ true → (b : ℕ) → b < bound → f b ≡ g b
  unfolding same_values
  same_at zero table b small = absurd (omega arith)
  same_at (suc bound) table b small =
      let before : (c : ℕ) → c < bound → f c ≡ g c = same_at bound (ground arith) in
      elim (same_or_less b bound small) [
        | inl e ↦ ground (arith, e)
        | inr less ↦ ground (arith, before b less)
      ]

pub top_bits : (b : ℕ) → b < 256 → bit_and b 0xc0 / 2 ^ 6 ≡ b / 64
unfolding same_values
top_bits = same_at _ _ 256 refl

pub low_bits : (b : ℕ) → b < 256 → bit_and b 0x3f ≡ b % 64
unfolding same_values
low_bits = same_at _ _ 256 refl

pub set_40 : (b : ℕ) → b < 64 → bit_or b 0x40 ≡ b + 64
unfolding same_values
set_40 = same_at _ _ 64 refl

pub set_80 : (b : ℕ) → b < 64 → bit_or b 0x80 ≡ b + 128
unfolding same_values
set_80 = same_at _ _ 64 refl

pub set_c0 : (b : ℕ) → b < 64 → bit_or b 0xc0 ≡ b + 192
unfolding same_values
set_c0 = same_at _ _ 64 refl
