-- ===== src/Server/Session/Step.antt =====
-- `handle_session_channel`: what each message of the client does to a session.
use ssh.Base.{
  ℕ, Bytes, List, [], ◌∷◌, ◌++◌, Bool, Option, none, some, ◌==◌, bytes_eq, codes, if◌then◌else◌,
}
use ssh.Io.{Result, ok, err, Exec, pure, fail, ◌>>=◌}
use ssh.Text.{Text}
use ssh.Message.{
  ssh_extended_data_none, DataOrExtendedDataMessage, PtyRequest, WindowChangeRequest, SignalRequest,
  ChannelRequest, Message, channel_request, channel_open_confirmation, channel_open_failure,
  data_message,
}
use ssh.Server.Config.{ServerConfig}
use ssh.Server.Request.{SessionUser}
use ssh.Server.Session.{
  PtySize, from_pty_request, from_window_change, PendingPty, SessionCommand, shell, exec,
  RunningSession, Effect, stderr, open_agent, write_input, resize, kill, Trace, Fault, World,
  perform,
}
use ssh.Server.Session.Signals.{Signal, parse_signal_request}
use ssh.Server.Session.Spawn.{spawn_session_process}

pub record SessionState : Type 0 where
  pub pending_pty : Option PendingPty
  -- The path of the agent's socket.
  pub agent_forwarding : Option Text
  pub session : Option RunningSession

abbrev pub initial : SessionState
initial = record { pending_pty = none; agent_forwarding = none; session = none }

abbrev pub Step : Type 0
Step = Exec Trace Fault SessionState

unfoldable pub ssh_bytes_to_string : World → Bytes → Option Text
ssh_bytes_to_string world [] = none
ssh_bytes_to_string world (b ∷ bs) = some (world.from_utf8_lossy (b ∷ bs))

abbrev pub or_empty : Option Text → Text
or_empty none = []
or_empty (some text) = text

module _ (world : World) where
  -- `write_stderr`, after which the session goes on as it was.
  unfoldable pub write_stderr : Bytes → SessionState → Step
  unfolding ◌>>=◌ pure perform
  write_stderr message state = do _ ← perform world (stderr message); pure state

  -- `write_stderr` with the error of a call, if there is one.
  abbrev pub reported : Result Fault (Unit {0}) → SessionState → Step
  unfolding write_stderr pure
  reported (ok done) state = pure state
  reported (err e) state = write_stderr (world.as_bytes (e ++ codes "\n")) state

  -- A call whose error is written to the client.
  unfoldable pub attempt : Effect → SessionState → Step
  unfolding write_stderr pure perform
  attempt effect state trace =
      let (r, trace') = perform world effect trace in reported r state trace'

  unfoldable pub kill_child : Bool → Signal → Option ℕ → SessionState → Step
  unfolding attempt write_stderr pure
  kill_child group chosen none state =
      reported (err (codes "running session does not have a child pid")) state
  kill_child group chosen (some child_id) state = attempt (kill group child_id chosen) state

  unfoldable pub send_signal : Text → Option Signal → RunningSession → SessionState → Step
  unfolding kill_child write_stderr pure
  send_signal name none running state = reported (err (codes "unsupported signal: " ++ name)) state
  send_signal name (some chosen) running state =
      kill_child running.controller chosen running.child_id state

  unfoldable pub apply_window_change : PtySize → RunningSession → SessionState → Step
  unfolding attempt write_stderr pure
  apply_window_change size running state =
      if running.controller
      then attempt (resize size) state
      else reported (err (codes "window-change requires a PTY-backed session")) state

  unfoldable pub handle_pty : PtyRequest → Option RunningSession → SessionState → Step
  unfolding write_stderr pure ssh_bytes_to_string from_pty_request
  handle_pty request (some running) state =
      write_stderr (codes "cannot request a PTY after the session has started\n") state
  handle_pty request none state = pure (record state {
    pending_pty =
        some (record {
          term = ssh_bytes_to_string world request.term;
          size = from_pty_request request;
        });
  })

  unfoldable pub handle_signal : SignalRequest → Option RunningSession → SessionState → Step
  unfolding write_stderr send_signal parse_signal_request
  handle_signal request (some running) state =
      let name = world.from_utf8_lossy request.signal_name_without_sig in
      send_signal name (parse_signal_request name) running state
  handle_signal request none state =
      write_stderr (codes "cannot signal a session before it has started\n") state

  unfoldable pub resize_pending : PtySize → Option PendingPty → SessionState → Step
  unfolding write_stderr pure
  resize_pending size (some pending) state =
      pure (record state { pending_pty = some (record pending { size = size }) })
  resize_pending size none state =
      write_stderr (codes "window-change requires a pending or running PTY session\n") state

  unfoldable pub handle_window_change :
      WindowChangeRequest → Option RunningSession → SessionState → Step
  unfolding apply_window_change resize_pending from_window_change
  handle_window_change request (some running) state =
      apply_window_change (from_window_change request) running state
  handle_window_change request none state =
      resize_pending (from_window_change request) state.pending_pty state

  unfoldable pub forward_agent : Option Text → SessionState → Step
  unfolding ◌>>=◌ pure perform
  forward_agent (some path) state trace = pure state trace
  forward_agent none state trace =
      (do
        _ ← perform world open_agent
        pure (record state { agent_forwarding = some (world.socket_path trace) }))
        trace

  unfoldable pub handle_contents : Bytes → Option RunningSession → SessionState → Step
  unfolding ◌>>=◌ pure perform write_stderr forward_agent
  handle_contents contents (some running) state = do
    _ ← perform world (write_input contents)
    pure state
  handle_contents contents none state =
      if bytes_eq contents (codes "forward-agent")
      then forward_agent state.agent_forwarding state
      else write_stderr (codes "cannot send session data before the session has started\n") state

  unfoldable pub handle_data : DataOrExtendedDataMessage → SessionState → Step
  unfolding handle_contents write_stderr
  handle_data message state =
      if message.data_type == ssh_extended_data_none
      then handle_contents message.contents state.session state
      else write_stderr (codes "unsupported extended data message\n") state

module _ (world : World) (config : ServerConfig) (session_user : SessionUser) where
  unfoldable pub start_session : SessionCommand → Option RunningSession → SessionState → Step
  unfolding ◌>>=◌ pure write_stderr spawn_session_process
  start_session command (some running) state =
      write_stderr world (codes "session is already running\n") state
  start_session command none state = do
    running ←
        spawn_session_process world config session_user state.pending_pty state.agent_forwarding
          command
    pure (record state { session = some running })

  unfoldable pub handle_request : ChannelRequest → SessionState → Step
  unfolding handle_pty start_session handle_signal handle_window_change write_stderr
      ssh_bytes_to_string
  handle_request (ChannelRequest.pty request) state = handle_pty world request state.session state
  handle_request ChannelRequest.shell state = start_session shell state.session state
  handle_request (ChannelRequest.exec request) state =
      start_session (exec (or_empty (ssh_bytes_to_string world request.command))) state.session
        state
  handle_request (ChannelRequest.signal request) state =
      handle_signal world request state.session state
  handle_request (ChannelRequest.window_change request) state =
      handle_window_change world request state.session state
  handle_request other state =
      write_stderr world
        (world.as_bytes (codes "unsupported session request: " ++ world.debug other ++ codes "\n"))
        state

  unfoldable pub handle_message : Message → SessionState → Step
  unfolding handle_request handle_data pure
  handle_message (channel_request message) state = handle_request message.request state
  handle_message (data_message message) state = handle_data world message state
  handle_message (channel_open_confirmation message) state = pure state
  handle_message (channel_open_failure message) state = pure state

  -- The loop, for the messages that `next_message` returns.
  unfoldable pub handle_messages : List Message → SessionState → Step
  unfolding ◌>>=◌ pure handle_message
  handle_messages [] state = pure state
  handle_messages (message ∷ messages) state = do
    after ← handle_message message state
    handle_messages messages after

  -- The handler goes on until `next_message` returns an error, which it returns.
  unfoldable pub handle_session_channel : List Message → Fault → Step
  unfolding ◌>>=◌ fail handle_messages
  handle_session_channel messages ending = do _ ← handle_messages messages initial; fail ending
