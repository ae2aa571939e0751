-- ===== src/Client/Capture.antt =====
-- `run_capture_on_client`: what the client makes of the messages of a session.
pub mod Collected
use ssh.Base.{
  ℕ, ◌%◌, ◌^◌, Bytes, List, [], ◌∷◌, ◌++◌, Bool, ◌==◌, Option, none, some, if◌then◌else◌,
}
use ssh.Io.{Result, ok, err, Exec, pure, lift, ◌>>=◌}
use ssh.Text.{Text}
use ssh.Message.{
  ssh_extended_data_none, ssh_extended_data_stderr, DataOrExtendedDataMessage, ExitSignalRequest,
  ChannelRequest, Message, channel_request, channel_open_confirmation, channel_open_failure,
  data_message,
}
use ssh.Channel.Error.{ChannelError}
use ssh.Channel.State.{Stop, failed, panicked, Channel}
use ssh.Channel.Transmit
use ssh.Channel.Transmit.{Outcome}
use ssh.Conversation.{ConversationError}
use ssh.Client.Credentials.{ClientConfig}
use ssh.Client.Requests.{SessionRequest, send_forward_agent_request, send_initial_session_requests}

-- The status is the bits of an `i32`.
pub record CapturedSession : Type 0 where
  pub server_header : Option Text
  pub exit_status : ℕ
  pub stdout : Bytes
  pub stderr : Bytes

-- An error of the connection is a number.
pub data OpenChannelError : Type 0 where
  connection : ℕ → OpenChannelError
  conversation : ConversationError → OpenChannelError

-- `ClientError`, as far as the capture makes one.
pub data ClientError : Type 0 where
  open_channel : OpenChannelError → ClientError
  agent_unavailable : ClientError
  exit_signal : ExitSignalRequest → ClientError
  channel : ChannelError → ClientError

-- What was captured so far.
pub record Captured : Type 0 where
  pub stdout : Bytes
  pub stderr : Bytes

unfoldable pub extend_with_data : DataOrExtendedDataMessage → Captured → Captured
extend_with_data message so_far =
    if message.data_type == ssh_extended_data_none
    then record so_far { stdout = so_far.stdout ++ message.contents }
    else if message.data_type == ssh_extended_data_stderr
    then record so_far { stderr = so_far.stderr ++ message.contents }
    else so_far

abbrev pub exited :
    Option Text → ChannelRequest → Captured → Option (Result ClientError CapturedSession)
exited server_header (ChannelRequest.exit_status status) so_far = some (
    ok (record {
      server_header = server_header;
      exit_status = status.exit_status % 2 ^ 32;
      stdout = so_far.stdout;
      stderr = so_far.stderr;
    }))
exited server_header (ChannelRequest.exit_signal signal) so_far = some (err (exit_signal signal))
exited server_header _ so_far = none

-- One round of the loop: what was captured, and the result where it ends.
unfoldable pub capture_message :
    Option Text → Message → Captured → Captured × Option (Result ClientError CapturedSession)
unfolding extend_with_data
capture_message server_header (data_message message) so_far =
    (extend_with_data message so_far, none)
capture_message server_header (channel_request message) so_far =
    (so_far, exited server_header message.request so_far)
capture_message server_header (channel_open_confirmation message) so_far = (so_far, none)
capture_message server_header (channel_open_failure message) so_far = (so_far, none)

-- The loop over the messages that `next_message` returns, and the error that it returns behind them.
unfoldable pub capture_loop :
    Option Text → List Message → ChannelError → Captured → Result ClientError CapturedSession
unfolding capture_message
capture_loop server_header [] ending so_far = err (channel ending)
capture_loop server_header (message ∷ messages) ending so_far =
    let (after, end) = capture_message server_header message so_far in
    let rest = capture_loop server_header messages ending after in ended end rest
  where
    ended :
        Option (Result ClientError CapturedSession)
        → Result ClientError CapturedSession
        → Result ClientError CapturedSession
    ended (some result) rest = result
    ended none rest = rest

abbrev pub from_channel : {A : Type 0} → Result (Stop ChannelError) A → Result (Stop ClientError) A
from_channel (ok a) = ok a
from_channel (err panicked) = err panicked
from_channel (err (failed e)) = err (failed (channel e))

-- A call on the channel; its error is the client's.
abbrev pub on_channel : {A : Type 0} → Outcome A → Exec Channel (Stop ClientError) A
on_channel m c = let (r, c') = m c in (from_channel r, c')

abbrev pub from_client : {A : Type 0} → Result ClientError A → Result (Stop ClientError) A
from_client (ok a) = ok a
from_client (err e) = err (failed e)

-- `variable` is the path in the environment's `SSH_AUTH_SOCK`.
unfoldable pub resolve_agent_socket_path : ClientConfig → Option Text → Result ClientError Text
resolve_agent_socket_path config variable = socket_or config.agent_socket variable
  where
    socket_or : Option Text → Option Text → Result ClientError Text
    socket_or (some path) variable = ok path
    socket_or none (some path) = ok path
    socket_or none none = err agent_unavailable

-- `build_session_runtime` without a terminal: it spawns tasks, and fails only where the agent is
-- forwarded and has no socket.
unfoldable pub build_session_runtime :
    ClientConfig → Option Text → Exec Channel (Stop ClientError) (Unit {0})
unfolding ◌>>=◌ pure lift resolve_agent_socket_path
build_session_runtime config variable =
    if config.forward_agent
    then (do _ ← lift (from_client (resolve_agent_socket_path config variable)); pure tt)
    else pure tt

unfoldable pub capture_on_channel :
    ClientConfig
    → Option Text
    → SessionRequest
    → Option Text
    → List Message
    → ChannelError
    → Exec Channel (Stop ClientError) CapturedSession
unfolding ◌>>=◌ pure lift send_forward_agent_request send_initial_session_requests
    build_session_runtime capture_loop Transmit.close
capture_on_channel config variable request server_header messages ending = do
  _ ← if config.forward_agent then on_channel send_forward_agent_request else pure tt
  _ ← build_session_runtime config variable
  _ ← on_channel (send_initial_session_requests request none)
  _ ← if config.forward_agent then pure tt else on_channel Transmit.close
  lift (
      from_client
        (capture_loop server_header messages ending (record { stdout = []; stderr = [] })))

-- `opened` is the channel that `open_session_channel` opens, `messages` are what `next_message`
-- returns on it and `ending` the error behind them. The second result is the channel at the end.
unfoldable pub run_capture_on_client :
    Result OpenChannelError Channel
    → ClientConfig
    → Option Text
    → SessionRequest
    → Option Text
    → List Message
    → ChannelError
    → Result (Stop ClientError) CapturedSession × Option Channel
unfolding capture_on_channel
run_capture_on_client (err e) config variable request server_header messages ending =
    (err (failed (open_channel e)), none)
run_capture_on_client (ok c) config variable request server_header messages ending =
    let (r, c') = capture_on_channel config variable request server_header messages ending c in
    (r, some c')
