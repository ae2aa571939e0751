-- ===== src/Client/Race.antt =====
-- `connect_resolved_target`: the addresses of a target are tried at once, and the results are taken
-- in the order in which they come.
use ssh.Base.{
  ap, sym, ◌∙◌, append-nil, ℕ, ◌≡◌, refl, List, [], ◌∷◌, ◌++◌, All, Bool, true, false, ◌&&◌, Option,
  none, some, leb, ltb, if◌then◌else◌,
}
use ssh.Io.{Result, ok, err}

-- `ClientError`, as far as the race makes one: a transport error has a code.
pub data ConnectError : Type 0 where
  endpoint : ℕ → ConnectError
  transport : ℕ → ConnectError
  interrupted : ℕ → ConnectError
  no_usable_address : ConnectError

-- The codes of failures of TLS, which end the race.
abbrev pub is_fatal : ConnectError → Bool
is_fatal (transport code) = leb 0x100 code && ltb code 0x200
is_fatal (endpoint e) = false
is_fatal (interrupted e) = false
is_fatal no_usable_address = false

abbrev pub or_no_address : Option ConnectError → ConnectError
or_no_address none = no_usable_address
or_no_address (some e) = e

module _ {ℓ} {Connection : Type ℓ} where
  -- `last_error` is the error of an address for which no endpoint could be made, or of the last
  -- attempt that failed.
  unfoldable pub race :
      List (Result ConnectError Connection) → Option ConnectError → Result ConnectError Connection
  race [] last_error = err (or_no_address last_error)
  race (ok connection ∷ attempts) last_error = ok connection
  race (err e ∷ attempts) last_error =
      let rest = race attempts (some e) in if is_fatal e then err e else rest

  -- A failure that leaves the race to the other addresses.
  abbrev pub IsMinor : Result ConnectError Connection → Type 0
  IsMinor (ok connection) = ⊥
  IsMinor (err e) = is_fatal e ≡ false

  abbrev pub last_of :
      List (Result ConnectError Connection) → Option ConnectError → Option ConnectError
  last_of [] last_error = last_error
  last_of (err e ∷ attempts) last_error = last_of attempts (some e)
  last_of (ok connection ∷ attempts) last_error = last_of attempts last_error

  race_minor :
      (before after : List (Result ConnectError Connection)) (last_error : Option ConnectError)
      → All IsMinor before
      → race (before ++ after) last_error ≡ race after (last_of before last_error)
  unfolding race
  race_minor [] after last_error h = refl
  race_minor (ok connection ∷ before) after last_error h = absurd h.0
  race_minor (err e ∷ before) after last_error h = rw (h.0) (race_minor before after (some e) h.1)

  -- After failures that are not of TLS, the first connection wins, the first failure of TLS is the
  -- error, and where nothing else comes the last failure is, or that there was no usable address.
  pub race_decided :
      (before after : List (Result ConnectError Connection)) (last_error : Option ConnectError)
      → All IsMinor before
      → ((connection : Connection)
          → race (before ++ ok connection ∷ after) last_error ≡ ok connection)
        × ((e : ConnectError)
            → is_fatal e ≡ true
            → race (before ++ err e ∷ after) last_error ≡ err e)
        × (race before last_error ≡ err (or_no_address (last_of before last_error)))
  unfolding race
  race_decided before after last_error h = (
    λ connection. race_minor before (ok connection ∷ after) last_error h,
    λ e fatal. race_minor before (err e ∷ after) last_error h ∙ rw (fatal) refl,
    ap (λ all. race all last_error) (sym (append-nil before)) ∙ race_minor before [] last_error h,
  )
