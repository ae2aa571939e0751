-- ===== src/Channel/Receive.antt =====
-- The receiving operations of a channel: `wait_for_confirmation` and `next_message` of
-- crates/ssh3-core/src/channel.rs.
pub mod Total
pub mod Answers
use ssh.Base.{
  ℕ, zero, suc, ◌+◌, Bytes, Bool, true, false, Option, none, some, if◌then◌else◌, length,
}
use ssh.Io.{Stream, Exec, Result, ok, err}
use ssh.Message.{
  Message, channel_request, channel_open_confirmation, channel_open_failure, data_message,
  ChannelOpenFailureMessage,
}
use ssh.Channel.Error.{ChannelError, ChannelOpenFailure, open_failure, non_confirmed}
use ssh.Channel.Parse.{parse_message}
use ssh.Channel.State.{Channel}

-- The error for a refused channel.
abbrev pub refusal : ChannelOpenFailureMessage → ChannelError
refusal m =
    open_failure (record { reason_code = m.reason_code; error_message_utf8 = m.error_message_utf8 })

abbrev pub confirmation :
    Result ChannelError Message → Channel → Result ChannelError (Unit {0}) × Channel
confirmation (err e) c = (err e, c)
confirmation (ok (channel_open_confirmation m)) c = (ok tt, record c { confirm_received = true })
confirmation (ok (channel_open_failure m)) c = (err (refusal m), c)
confirmation (ok (channel_request m)) c = (err (non_confirmed (channel_request m)), c)
confirmation (ok (data_message m)) c = (err (non_confirmed (data_message m)), c)

unfoldable pub wait_for_confirmation : Exec Channel ChannelError (Unit {0})
wait_for_confirmation c =
    if c.confirm_received
    then (ok tt, c)
    else (let (message, rest) = parse_message c.recv in
        confirmation message (record c { recv = rest }))

-- A message other than those that open the channel.
abbrev pub deliver : Message → Channel → Result ChannelError Message × Channel
deliver m c = if c.confirm_sent then (ok m, c) else (err (non_confirmed m), c)

-- One round of the loop: the result, or the state in which the next round starts.
abbrev pub round :
    Result ChannelError Message → Channel → Option (Result ChannelError Message) × Channel
round (err e) c = (some (err e), c)
round (ok (channel_open_confirmation m)) c = (none, record c { confirm_received = true })
round (ok (channel_open_failure m)) c = (some (err (refusal m)), c)
round (ok (channel_request m)) c = let (r, c') = deliver (channel_request m) c in (some r, c')
round (ok (data_message m)) c = let (r, c') = deliver (data_message m) c in (some r, c')

unfoldable pub next_round : Channel → Option (Result ChannelError Message) × Channel
next_round c =
    let (message, rest) = parse_message c.recv in round message (record c { recv = rest })

-- The loop on fuel; `none` means that the fuel ran out.
unfoldable pub next_message_loop : ℕ → Channel → Option (Result ChannelError Message × Channel)
unfolding next_round
next_message_loop zero c = none
next_message_loop (suc fuel) c =
    let (answer, c') = next_round c in
    elim answer [ none ↦ next_message_loop fuel c' | some r ↦ some (r, c') ]

-- Each round that goes on has taken a byte, so one round more than there are bytes is enough.
unfoldable pub next_message : Channel → Option (Result ChannelError Message × Channel)
unfolding next_message_loop
next_message c = next_message_loop (length c.recv.bytes + 1) c
