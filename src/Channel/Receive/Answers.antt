-- ===== src/Channel/Receive/Answers.antt =====
-- The answers of `next_message` and `wait_for_confirmation` of crates/ssh3-core/src/channel.rs.
use ssh.Base.{
  ℕ, zero, suc, ◌≤◌, ◌<◌, Bytes, List, [], ◌∷◌, ◌++◌, All, ◌≡◌, refl, Bool, true, some, none,
  if◌then◌else◌, length, arith, append_assoc, ◌∙◌, ap, length-append,
}
use ssh.Io.{Stream, Result, ok, err, prepend}
use ssh.Io.Reads.{Reads}
use ssh.Io.Agrees.{Agrees-Reads}
use ssh.Wire.Bounds.{Fits}
use ssh.Message.{
  Message, channel_request, channel_open_confirmation, channel_open_failure, data_message,
}
use ssh.Message.Layout.{layout, IsMessage}
use ssh.Message.RoundTrip.{Reads-parse}
use ssh.Channel.Error.{ChannelError, non_confirmed}
use ssh.Channel.Parse.{parse_message}
use ssh.Channel.Agrees.{message_agrees}
use ssh.Channel.State.{Channel}
use ssh.Channel.Receive.{
  refusal, round, next_round, next_message_loop, next_message, wait_for_confirmation, confirmation,
}

Reads-parse_message : (m : Message) → IsMessage m → Reads parse_message (layout m) m
Reads-parse_message m h = Agrees-Reads message_agrees (Reads-parse m h)

abbrev pub confirming : ℕ → Message
confirming n = channel_open_confirmation (record { max_packet_size = n })

-- Confirmations with the given packet sizes, one after the other.
abbrev pub confirmations : List ℕ → Bytes
confirmations [] = []
confirmations (n ∷ ns) = layout (confirming n) ++ confirmations ns

-- A message that ends the loop.
abbrev pub Answered : Message → Type 0
Answered (channel_open_confirmation m) = ⊥
Answered _ = Unit

abbrev pub answer : Bool → Message → Result ChannelError Message
answer sent (channel_open_failure m) = err (refusal m)
answer sent (channel_open_confirmation m) = ok (channel_open_confirmation m)
answer sent m = if sent then ok m else err (non_confirmed m)

-- Whether the channel is confirmed after the confirmations.
abbrev pub heard : Bool → List ℕ → Bool
heard before [] = before
heard before (n ∷ ns) = true

heard-true : (ns : List ℕ) → heard true ns ≡ true
heard-true [] = refl
heard-true (n ∷ ns) = refl

abbrev pub receiving : Channel → Bytes → Stream → Channel
receiving c bs s = record c { recv = prepend bs s }

round_of :
    (c : Channel) (m : Message) (s : Stream)
    → IsMessage m
    → next_round (record c { recv = prepend (layout m) s }) ≡ round (ok m) (record c { recv = s })
unfolding next_round
round_of c m s h = rw ((Reads-parse_message m h).at s) refl

loop_ends :
    (fuel : ℕ) (c c' : Channel) (r : Result ChannelError Message)
    → next_round c ≡ (some r, c')
    → next_message_loop (suc fuel) c ≡ some (r, c')
unfolding next_message_loop
loop_ends fuel c c' r e =
    ap (λ p. elim p.0 [ none ↦ next_message_loop fuel p.1 | some r ↦ some (r, p.1) ]) e

loop_continues :
    (fuel : ℕ) (c c' : Channel)
    → next_round c ≡ (none, c')
    → next_message_loop (suc fuel) c ≡ next_message_loop fuel c'
unfolding next_message_loop
loop_continues fuel c c' e =
    ap (λ p. elim p.0 [ none ↦ next_message_loop fuel p.1 | some r ↦ some (r, p.1) ]) e

round_answers :
    (c : Channel) (m : Message) → Answered m → round (ok m) c ≡ (some (answer c.confirm_sent m), c)
round_answers c (channel_request m) a = ground arith
round_answers c (channel_open_confirmation m) a = absurd a
round_answers c (channel_open_failure m) a = refl
round_answers c (data_message m) a = ground arith

loop_answers :
    (fuel : ℕ) (c : Channel) (ns : List ℕ) (m : Message) (s : Stream)
    → All Fits ns
    → IsMessage m
    → Answered m
    → length ns < fuel
    → next_message_loop fuel (receiving c (confirmations ns ++ layout m) s)
      ≡ some (
        answer c.confirm_sent m,
        record c { recv = s; confirm_received = heard c.confirm_received ns },
      )
loop_answers zero c ns m s hn hm a h = absurd (omega arith)
loop_answers (suc fuel) c [] m s hn hm a h =
    loop_ends fuel _ _ _ (round_of c m s hm ∙ round_answers (record c { recv = s }) m a)
loop_answers (suc fuel) c (n ∷ ns) m s hn hm a h =
    let after = prepend (confirmations ns ++ layout m) s in
    rw (append_assoc (layout (confirming n)) (confirmations ns) (layout m)) (
      rw (append_assoc (layout (confirming n)) (confirmations ns ++ layout m) s.bytes) (
        rw
          (loop_continues fuel (record c { recv = prepend (layout (confirming n)) after })
            (record c { recv = after; confirm_received = true })
            (round_of c (confirming n) after hn.0))
          (loop_answers fuel (record c { confirm_received = true }) ns m s hn.1 hm a (omega arith)
            ∙ ap (λ b. some (answer c.confirm_sent m, record c { recv = s; confirm_received = b }))
                (heard-true ns))))

confirmations_long : (ns : List ℕ) → length ns ≤ length (confirmations ns)
unfolding layout ssh.Wire.VarInt.var_int
confirmations_long [] = omega arith
confirmations_long (n ∷ ns) =
    omega (arith, confirmations_long ns, length-append (layout (confirming n)) (confirmations ns))

-- On a stream that starts with any number of confirmations and then one other message, all of them
-- within the wire's limits, `next_message` takes exactly these and remembers a confirmation. A
-- refusal comes back as an error with its reason, and any other message comes back if the channel
-- has sent its own confirmation and is an error if it has not.
pub next_message-answers :
    (c : Channel) (ns : List ℕ) (m : Message) (s : Stream)
    → All Fits ns
    → IsMessage m
    → Answered m
    → next_message (receiving c (confirmations ns ++ layout m) s)
      ≡ some (
        answer c.confirm_sent m,
        record c { recv = s; confirm_received = heard c.confirm_received ns },
      )
unfolding next_message
next_message-answers c ns m s hn hm a = loop_answers _ c ns m s hn hm a (
    omega (
      arith,
      confirmations_long ns,
      length-append (confirmations ns) (layout m),
      length-append (confirmations ns ++ layout m) s.bytes,
    ))

abbrev pub confirmed : Message → Result ChannelError (Unit {0})
confirmed (channel_open_confirmation m) = ok tt
confirmed (channel_open_failure m) = err (refusal m)
confirmed m = err (non_confirmed m)

abbrev pub hears : Message → Bool → Bool
hears (channel_open_confirmation m) before = true
hears _ before = before

confirmation_ok :
    (m : Message) (c : Channel)
    → confirmation (ok m) c
      ≡ (confirmed m, record c { confirm_received = hears m c.confirm_received })
confirmation_ok (channel_request m) c = refl
confirmation_ok (channel_open_confirmation m) c = refl
confirmation_ok (channel_open_failure m) c = refl
confirmation_ok (data_message m) c = refl

-- `wait_for_confirmation` takes nothing on a channel that is confirmed. On any other it takes one
-- message, if the stream starts with one within the wire's limits: a confirmation is remembered,
-- a refusal comes back as an error with its reason, and any other message is an error.
pub wait_for_confirmation-answers :
    (c : Channel) (m : Message) (s : Stream)
    → IsMessage m
    → wait_for_confirmation (receiving c (layout m) s) ≡ (
        if c.confirm_received
        then (ok tt, receiving c (layout m) s)
        else (confirmed m, record c { recv = s; confirm_received = hears m c.confirm_received }))
unfolding wait_for_confirmation
wait_for_confirmation-answers c m s h =
    rw ((Reads-parse_message m h).at s) (rw (confirmation_ok m (record c { recv = s })) refl)
