-- ===== src/Io.antt =====
-- Byte streams as the code sees them through `std::io::Read` and the `ReceiveStream` trait of
-- crates/ssh3-core/src/transport.rs: bytes that will arrive, and the error that every read past
-- them returns. A read that fails has taken what was there.
pub mod Reads
pub mod Yields
pub mod Stable
pub mod Agrees
pub mod Sink
pub mod Takes
pub mod Fallible
use ssh.Base.{ℕ, Bytes, [], ◌++◌, if◌then◌else◌, leb, length, take, drop}

-- The kinds of `std::io::Error` that the code names, and any other.
pub data IoError : Type 0 where
  unexpected_eof connection_reset connection_aborted not_connected broken_pipe : IoError
  invalid_data invalid_input permission_denied not_found unsupported : IoError
  other : ℕ → IoError

pub record Stream : Type 0 where
  pub bytes : Bytes
  pub ending : IoError

pub data Result {ℓ κ} (E : Type ℓ) (A : Type κ) : Type (ℓ ⊔ κ) where
  ok : A → Result E A
  err : E → Result E A

-- An operation on a state that may fail. What it did before it failed stays done.
abbrev pub Exec {ℓ κ μ} : Type ℓ → Type κ → Type μ → Type (ℓ ⊔ κ ⊔ μ)
Exec S E A = S → Result E A × S

abbrev pub Reader {ℓ κ} : Type ℓ → Type κ → Type (ℓ ⊔ κ)
Reader E A = Exec Stream E A

-- The stream that delivers `bs` first.
abbrev pub prepend : Bytes → Stream → Stream
prepend bs s = record { bytes = bs ++ s.bytes; ending = s.ending }

-- The stream that delivers `more` before it ends.
abbrev pub extend : Stream → Bytes → Stream
extend s more = record { bytes = s.bytes ++ more; ending = s.ending }

module _ {ℓ κ μ} {S : Type μ} {E : Type ℓ} {A : Type κ} where
  unfoldable pub pure : A → Exec S E A
  pure a s = (ok a, s)

  unfoldable pub fail : E → Exec S E A
  fail e s = (err e, s)

module _ {ℓ κ μ ν} {S : Type ν} {E : Type ℓ} {A : Type κ} {B : Type μ} where
  abbrev pub resume : Result E A → (A → Exec S E B) → Exec S E B
  resume (ok a) f s = f a s
  resume (err e) f s = (err e, s)

  infixl 5 ◌>>=◌
  unfoldable pub ◌>>=◌ : Exec S E A → (A → Exec S E B) → Exec S E B
  unfolding pure fail
  ◌>>=◌ m f s = let (r, s') = m s in resume r f s'

-- `?` on a plain result.
unfoldable pub lift {ℓ κ μ} : {S : Type μ} {E : Type ℓ} {A : Type κ} → Result E A → Exec S E A
lift r s = (r, s)

-- `Read::read_exact` with a buffer of `n` bytes; `into` is the `From<io::Error>` of the caller.
unfoldable pub read_exact {ℓ} : {E : Type ℓ} → (IoError → E) → ℕ → Reader E Bytes
read_exact into n s =
    if leb n (length s.bytes)
    then (ok (take n s.bytes), record s { bytes = drop n s.bytes })
    else (err (into s.ending), record s { bytes = [] })
