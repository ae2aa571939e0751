-- ===== src/Message/Prefix.antt =====
-- `parse` of crates/ssh3-proto/src/message.rs on a message that is cut short.
use ssh.Io.Stable.{Stable}
use ssh.Wire.{Error, io}
use ssh.Wire.Prefix.{wire_stable}
use ssh.Message.Parse.{
  parse_confirmation, parse_failure, parse_data, parse_extended, parse_pty, parse_x11, parse_exec,
  parse_subsystem, parse_window_change, parse_signal, parse_exit_status, parse_exit_signal,
  parse_forwarding, parse_request, parse_channel_request, parse_kind, parse,
}
use mathlib.Core.Option.{some-injective}
use ssh.Base.{Bytes, ℕ, [], ◌∷◌, ◌++◌, ◌≡◌, ◌≢◌, sym, ap, ◌∙◌, some, inl, inr, append-nil}
use ssh.Io.{IoError, Result, Stream, ok, err}
use ssh.Message.{Message}
use ssh.Message.Encode.{to_vec}
use ssh.Message.Layout.{layout, IsMessage}
use ssh.Message.Written.{to_vec-layout}
use ssh.Message.RoundTrip.{Reads-parse}

Stable-parse_request : (t : Bytes) → Stable io (parse_request t)
unfolding parse_request parse_pty parse_x11 parse_exec parse_subsystem parse_window_change
    parse_signal parse_exit_status parse_exit_signal parse_forwarding
Stable-parse_request t = search wire_stable depth 40

Stable-parse_kind : (k : ℕ) → Stable io (parse_kind k)
unfolding parse_kind parse_channel_request parse_confirmation parse_failure parse_data
    parse_extended
Stable-parse_kind k = search (wire_stable, Stable-parse_request) depth 30

pub Stable-parse : Stable io parse
unfolding parse
Stable-parse = search (wire_stable, Stable-parse_kind)

not_empty : (xs ys : Bytes) (x : ℕ) → xs ++ (x ∷ ys) ≢ []
not_empty [] ys x e = cc
not_empty (y ∷ xs) ys x e = cc

-- On a proper front of an encoded message, `parse` returns the error that the stream ends with.
pub parse_truncated :
    (m : Message) (front back : Bytes) (x : ℕ) (ending : IoError)
    → IsMessage m
    → to_vec m ≡ some (front ++ (x ∷ back))
    → (parse (record { bytes = front; ending = ending })).0 ≡ err (io ending)
parse_truncated m front back x ending h e =
    elim (Stable-parse.same (record { bytes = front; ending = ending }) (x ∷ back)) [
      | inl p ↦ p
      | inr p ↦ absurd (
          not_empty _ back x
            (ap (λ (r : Result Error Message × Stream). r.1.bytes) (sym p ∙ whole)))
    ]
  where
    split : layout m ++ [] ≡ front ++ (x ∷ back)
    split = append-nil (layout m) ∙ some-injective _ _ (sym (to_vec-layout m h) ∙ e)

    whole :
        parse (record { bytes = front ++ (x ∷ back); ending = ending })
        ≡ (ok m, record { bytes = []; ending = ending })
    whole = rw (← split) ((Reads-parse m h).at (record { bytes = []; ending = ending }))
