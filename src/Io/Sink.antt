-- ===== src/Io/Sink.antt =====
-- The sending half of a stream: the `SendStream` trait of crates/ssh3-core/src/transport.rs. The
-- environment decides which writes fail, and how many bytes a failing one still sends.
use ssh.Base.{ℕ, Bytes, List, [], ◌∷◌, ◌++◌, Bool, true, Option, none, some, take}
use ssh.Io.{IoError, Exec, ok, err}

pub record Fault : Type 0 where
  pub accepted : ℕ
  pub error : IoError

pub record Sink : Type 0 where
  pub sent : Bytes
  pub closed : Bool
  -- What the next calls meet; calls beyond the list succeed.
  pub outcomes : List (Option Fault)

abbrev pub fails_next : List (Option Fault) → Option Fault
fails_next [] = none
fails_next (o ∷ os) = o

abbrev pub after_next : List (Option Fault) → List (Option Fault)
after_next [] = []
after_next (o ∷ os) = os

abbrev pub write_outcome : Option Fault → Bytes → Exec Sink IoError (Unit {0})
write_outcome none buf k =
    (ok tt, record k { sent = k.sent ++ buf; outcomes = after_next k.outcomes })
write_outcome (some f) buf k = (
  err f.error,
  record k { sent = k.sent ++ take f.accepted buf; outcomes = after_next k.outcomes },
)

unfoldable pub write_all : Bytes → Exec Sink IoError (Unit {0})
write_all buf k = write_outcome (fails_next k.outcomes) buf k

abbrev pub close_outcome : Option Fault → Exec Sink IoError (Unit {0})
close_outcome none k = (ok tt, record k { closed = true; outcomes = after_next k.outcomes })
close_outcome (some f) k = (err f.error, record k { outcomes = after_next k.outcomes })

unfoldable pub close : Exec Sink IoError (Unit {0})
close k = close_outcome (fails_next k.outcomes) k
