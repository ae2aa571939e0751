-- ===== src/Channel/Receive/Total.antt =====
-- The loop of `next_message` of crates/ssh3-core/src/channel.rs.
use ssh.Base.{ℕ, zero, suc, ◌+◌, ◌<◌, ◌≡◌, refl, Option, none, some, length, arith, ap}
use ssh.Io.{Stream, Result, ok, err}
use ssh.Message.{
  Message, channel_request, channel_open_confirmation, channel_open_failure, data_message,
}
use ssh.Channel.Error.{ChannelError}
use ssh.Channel.Parse.{parse_message}
use ssh.Channel.Consumes.{Takes-parse_message}
use ssh.Channel.State.{Channel}
use ssh.Channel.Receive.{round, next_round, next_message_loop, next_message}

round_recv :
    (r : Result ChannelError Message) (c : Channel)
    → (round r c).0 ≡ none
    → (m : Message) × (r ≡ ok m) × ((round r c).1.recv ≡ c.recv)
round_recv (ok (channel_open_confirmation m)) c e = (channel_open_confirmation m, refl, refl)
round_recv (ok (channel_open_failure m)) c e = cc
round_recv (ok (channel_request m)) c e = cc
round_recv (ok (data_message m)) c e = cc
round_recv (err x) c e = cc

-- A round that goes on leaves a shorter stream.
next_round_shrinks :
    (c : Channel)
    → (next_round c).0 ≡ none
    → length (next_round c).1.recv.bytes < length c.recv.bytes
unfolding next_round
next_round_shrinks c e =
    let (m, parsed, same) =
      round_recv (parse_message c.recv).0 (record c { recv = (parse_message c.recv).1 }) e in
    omega (
      arith,
      Takes-parse_message.some_byte c.recv m parsed,
      ap (λ (s : Stream). length s.bytes) same,
    )

loop_total :
    (fuel : ℕ) (c : Channel)
    → length c.recv.bytes < fuel
    → (r : Result ChannelError Message × Channel) × (next_message_loop fuel c ≡ some r)
unfolding next_message_loop
loop_total zero c h = absurd (omega arith)
loop_total (suc fuel) c h =
    go (λ shorter. loop_total fuel (next_round c).1 shorter) (next_round c).0 refl
  where
    go :
        (length (next_round c).1.recv.bytes < fuel
          → (r : Result ChannelError Message × Channel) × (next_message_loop fuel (next_round c).1
              ≡ some r))
        → (answer : Option (Result ChannelError Message)) → (next_round c).0 ≡ answer
        → (r : Result ChannelError Message × Channel) × ((elim answer [
          | none ↦ next_message_loop fuel (next_round c).1
          | some r ↦ some (r, (next_round c).1)
        ])
            ≡ some r)
    go again none e = again (omega (arith, next_round_shrinks c e))
    go again (some r) e = ((r, (next_round c).1), refl)

-- `next_message` returns on every channel: a message or an error, with the channel that it leaves.
pub next_message_total :
    (c : Channel) → (r : Result ChannelError Message × Channel) × (next_message c ≡ some r)
unfolding next_message
next_message_total c = loop_total (length c.recv.bytes + 1) c (omega arith)
