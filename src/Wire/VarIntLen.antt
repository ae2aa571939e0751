-- ===== src/Wire/VarIntLen.antt =====
-- The lengths of integers, and `append_var_int_with_len` of crates/ssh3-proto/src/wire.rs.
use ssh.Base.{
  ℕ, ◌*◌, ◌≤◌, ◌<◌, ◌-◌, Bytes, [], ◌∷◌, ◌++◌, ◌≡◌, refl, ◌∙◌, some, none, ◌⊎◌, inl, inr, ltb,
  if◌then◌else◌, arith, length, append_assoc, append-nil, Bool-cases, ◌||◌, none, true, false, zero,
  suc, ◌==◌,
}
use native.Mathlib.Decide.{dec_lt}
use ssh.Io.Reads.{Reads}
use ssh.Wire.{
  max_varint, byte_at, read_var_int, var_int_len, append_var_int_with_len, append_padded,
  push_zeros, push_shifted, push_marker,
}
use ssh.Wire.VarInt.{
  var_int, two_bytes, four_bytes, eight_bytes, one, two, four, eight, append_var_int-var_int,
}

pub var_int_len-var_int : (v : ℕ) → v ≤ max_varint → var_int_len v ≡ some (length (var_int v))
unfolding var_int_len var_int
var_int_len-var_int v h = ground arith

-- The lengths that an integer can be written with.
abbrev pub IsWidth : ℕ → Type 0
IsWidth n = (n ≡ 1) ⊎ (n ≡ 2) ⊎ (n ≡ 4) ⊎ (n ≡ 8)

-- The form of `n` bytes, for `n` of 1, 2, 4 or 8.
unfoldable pub form : ℕ → ℕ → Bytes
form n v =
    if n == 1
    then v ∷ []
    else if n == 2
    then two_bytes v
    else if n == 4
    then four_bytes v
    else eight_bytes v

abbrev padded : ℕ → ℕ → ℕ → Bytes
padded v n w = push_shifted n v (push_zeros (w - n - 1) (push_marker w []))

one_in_two : (v : ℕ) → v < 64 → padded v 1 2 ≡ form 2 v
unfolding form
one_in_two v h = ground arith

one_in_four : (v : ℕ) → v < 64 → padded v 1 4 ≡ form 4 v
unfolding form
one_in_four v h = ground arith

one_in_eight : (v : ℕ) → v < 64 → padded v 1 8 ≡ form 8 v
unfolding form
one_in_eight v h = ground arith

two_in_four : (v : ℕ) → v < 16384 → padded v 2 4 ≡ form 4 v
unfolding form
two_in_four v h = ground arith

two_in_eight : (v : ℕ) → v < 16384 → padded v 2 8 ≡ form 8 v
unfolding form
two_in_eight v h = ground arith

four_in_eight : (v : ℕ) → v < 1073741824 → padded v 4 8 ≡ form 8 v
unfolding form
four_in_eight v h = ground arith

push_zeros-append : (n : ℕ) (out bs : Bytes) → push_zeros n (out ++ bs) ≡ out ++ push_zeros n bs
push_zeros-append zero out bs = refl
push_zeros-append (suc n) out bs =
    rw (append_assoc out bs (0 ∷ [])) (push_zeros-append n out (bs ++ (0 ∷ [])))

push_shifted-append :
    (n v : ℕ) (out bs : Bytes) → push_shifted n v (out ++ bs) ≡ out ++ push_shifted n v bs
push_shifted-append zero v out bs = refl
push_shifted-append (suc n) v out bs =
    rw (append_assoc out bs (byte_at v (n * 8) ∷ []))
      (push_shifted-append n v out (bs ++ (byte_at v (n * 8) ∷ [])))

push_marker-append : (w : ℕ) (out : Bytes) → push_marker w out ≡ out ++ push_marker w []
push_marker-append w out = ground (arith, append-nil out)

append_padded-padded :
    (out : Bytes) (v n w : ℕ) → n < w → append_padded out v w n ≡ some (out ++ padded v n w)
append_padded-padded out v n w h =
    let wide : ltb w n ≡ false = ground arith in
    let differ : (n == w) ≡ false = ground arith in
    rw (wide, differ, push_marker-append w out)
      (rw (push_zeros-append (w - n - 1) out (push_marker w []))
        (rw (push_shifted-append n v out (push_zeros (w - n - 1) (push_marker w [])))))

-- The width of the shortest form, and the values that have it.
abbrev WidthOf : ℕ → ℕ → Type 0
WidthOf v n =
    ((n ≡ 1) × (0 ≤ v) × (v < 64))
    ⊎ ((n ≡ 2) × (64 ≤ v) × (v < 16384))
    ⊎ ((n ≡ 4) × (16384 ≤ v) × (v < 1073741824))
    ⊎ ((n ≡ 8) × (1073741824 ≤ v) × (v ≤ max_varint))

var_int_len-WidthOf : (v n : ℕ) → var_int_len v ≡ some n → WidthOf v n
unfolding var_int_len
var_int_len-WidthOf v n e = ground arith

padded-form : (v n w : ℕ) → WidthOf v n → IsWidth w → n < w → padded v n w ≡ form w v
padded-form v n w (inl (e, large, small)) (inl f) h = absurd (omega arith)
padded-form v n w (inl (e, large, small)) (inr (inl f)) h = rw (e, f) (one_in_two v small)
padded-form v n w (inl (e, large, small)) (inr (inr (inl f))) h = rw (e, f) (one_in_four v small)
padded-form v n w (inl (e, large, small)) (inr (inr (inr f))) h = rw (e, f) (one_in_eight v small)
padded-form v n w (inr (inl (e, large, small))) (inl f) h = absurd (omega arith)
padded-form v n w (inr (inl (e, large, small))) (inr (inl f)) h = absurd (omega arith)
padded-form v n w (inr (inl (e, large, small))) (inr (inr (inl f))) h =
    rw (e, f) (two_in_four v small)
padded-form v n w (inr (inl (e, large, small))) (inr (inr (inr f))) h =
    rw (e, f) (two_in_eight v small)
padded-form v n w (inr (inr (inl (e, large, small)))) (inl f) h = absurd (omega arith)
padded-form v n w (inr (inr (inl (e, large, small)))) (inr (inl f)) h = absurd (omega arith)
padded-form v n w (inr (inr (inl (e, large, small)))) (inr (inr (inl f))) h = absurd (omega arith)
padded-form v n w (inr (inr (inl (e, large, small)))) (inr (inr (inr f))) h =
    rw (e, f) (four_in_eight v small)
padded-form v n w (inr (inr (inr (e, large, small)))) (inl f) h = absurd (omega arith)
padded-form v n w (inr (inr (inr (e, large, small)))) (inr (inl f)) h = absurd (omega arith)
padded-form v n w (inr (inr (inr (e, large, small)))) (inr (inr (inl f))) h = absurd (omega arith)
padded-form v n w (inr (inr (inr (e, large, small)))) (inr (inr (inr f))) h = absurd (omega arith)

var_int-form : (v n : ℕ) → WidthOf v n → var_int v ≡ form n v
unfolding var_int form
var_int-form v n h = ground arith

form-Reads : (v n w : ℕ) → WidthOf v n → IsWidth w → n ≤ w → Reads read_var_int (form w v) v
form-Reads v n w wv (inl f) h = rw f (unfold form in one v (ground arith))
form-Reads v n w wv (inr (inl f)) h = rw f (unfold form in two v (ground arith))
form-Reads v n w wv (inr (inr (inl f))) h = rw f (unfold form in four v (ground arith))
form-Reads v n w wv (inr (inr (inr f))) h = rw f (unfold form in eight v (ground arith))

length-form : (v w : ℕ) → IsWidth w → length (form w v) ≡ w
unfolding form
length-form v w h = ground arith

with_len_written :
    (out : Bytes) (v w n : ℕ)
    → WidthOf v n
    → IsWidth w
    → n ≤ w
    → append_padded out v w n ≡ some (out ++ form w v)
with_len_written out v w n wv ww h = elim (dec_lt n w) [
  | yes lt ↦ rw (append_padded-padded out v n w lt, padded-form v n w wv ww lt)
  | no nlt ↦
      let same : n ≡ w = omega arith in
      let fits : v ≤ max_varint = ground arith in
      let narrow : ltb w n ≡ false = ground arith in
      let equal : (n == w) ≡ true = ground arith in
      rw (narrow, equal) (append_var_int-var_int out v fits ∙ rw (var_int-form v n wv, same))
]

-- `append_var_int_with_len` writes an integer of at most 62 bits in the wanted number of bytes, if
-- that is 1, 2, 4 or 8 and no less than the integer needs, and `read_var_int` reads it back.
pub append_var_int_with_len-Reads :
    (out : Bytes) (v w n : ℕ)
    → var_int_len v ≡ some n
    → IsWidth w
    → n ≤ w
    → (append_var_int_with_len out v w ≡ some (out ++ form w v))
      × (length (form w v) ≡ w)
      × Reads read_var_int (form w v) v
unfolding append_var_int_with_len
append_var_int_with_len-Reads out v w n e ww h =
    let wv = var_int_len-WidthOf v n e in
    (
      ground (arith, with_len_written out v w n wv ww h),
      length-form v w ww,
      form-Reads v n w wv ww h,
    )

var_int_len_panics : (v : ℕ) → max_varint < v → var_int_len v ≡ none
unfolding var_int_len
var_int_len_panics v h = ground arith

-- `append_var_int_with_len` panics on a length other than 1, 2, 4 or 8, on an integer of more than 62 bits, and on a length that is too
-- short for the integer.
pub append_var_int_with_len_panics :
    (out : Bytes) (v w n : ℕ)
    → ¬ IsWidth w ⊎ (max_varint < v) ⊎ ((var_int_len v ≡ some n) × (w < n))
    → append_var_int_with_len out v w ≡ none
unfolding append_var_int_with_len
append_var_int_with_len_panics out v w n (inl h) =
    elim (Bool-cases (w == 1 || w == 2 || w == 4 || w == 8)) [
      | inl p ↦ absurd (h (ground arith))
      | inr p ↦ rw p
    ]
append_var_int_with_len_panics out v w n (inr (inl h)) = ground (arith, var_int_len_panics v h)
append_var_int_with_len_panics out v w n (inr (inr h)) = ground arith
