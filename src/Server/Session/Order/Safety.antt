-- ===== src/Server/Session/Order/Safety.antt =====
-- Whatever messages come, and wherever it fails, a session makes its calls in order.
use ssh.Base.{◌≡◌, ℕ, ap, true, false, sym, refl, List, [], ◌∷◌, Option, none, some}
use ssh.Io.{Result, ok, err, Exec, resume, pure, fail, ◌>>=◌}
use ssh.Text.{Text}
use ssh.Message.{
  ChannelRequest, Message, channel_request, channel_open_confirmation, channel_open_failure,
  data_message,
}
use ssh.Server.Config.{ServerConfig}
use ssh.Server.Request.{SessionUser}
use ssh.Server.Session.{
  PendingPty, SessionCommand, RunningSession, Process, open_pty, spawn, clone_terminal, perform,
  Trace, Fault, World,
}
use ssh.Server.Session.Spawn.{
  spawn_child, spawn_pipe_session_process, spawn_pty_session_process, spawn_session_process,
}
use ssh.Server.Session.Step.{
  SessionState, initial, start_session, handle_request, handle_message, handle_messages,
  handle_session_channel,
}
use ssh.Server.Session.Order.{
  has_spawned, succeeded, has_process, has_opened, IsOrdered, IsStarted, IsForwarding, Agrees,
  Holds, Keeps,
}
use ssh.Server.Session.Order.Branches.{
  >>=-Holds, perform-Holds, write_stderr-Keeps, handle_window_change-Keeps, handle_signal-Keeps,
  handle_pty-Keeps, handle_data-Keeps,
}

module _ (world : World) (config : ServerConfig) (session_user : SessionUser) where
  -- A process that was started, with the agent's socket as before.
  abbrev Runs : Option Text → RunningSession → Trace → Type 0
  Runs agent_forwarding running trace =
      IsStarted world (some running) trace × IsForwarding agent_forwarding trace

  -- A call that succeeds, or after which the handler fails.
  module _ {A : Type 0} (Q : A → Trace → Type 0) where
    clone-Holds :
        (trace : Trace) (next : Unit {0} → Exec Trace Fault A)
        → has_opened world trace ≡ true
        → IsOrdered world trace
        → (IsOrdered world (clone_terminal ∷ trace)
            → Holds world Q (next tt (clone_terminal ∷ trace)))
        → Holds world Q ((perform world clone_terminal >>= next) trace)
    clone-Holds trace next opened ordered go =
        perform-Holds world Q clone_terminal trace next opened ordered (λ after answered. go after)

    spawn_child-Holds :
        (process : Process) (trace : Trace) (next : Option ℕ → Exec Trace Fault A)
        → has_spawned trace ≡ false
        → IsOrdered world trace
        → (IsOrdered world (spawn process ∷ trace)
            → has_process world (spawn process ∷ trace) ≡ true
            → Holds world Q (next (world.child_id (spawn process ∷ trace)) (spawn process ∷ trace)))
        → Holds world Q ((spawn_child world process >>= next) trace)
    unfolding spawn_child ◌>>=◌
    spawn_child-Holds process trace next spawned ordered go =
        answered_with (world.answer trace (spawn process)) refl
      where
        child : Unit {0} → Exec Trace Fault (Option ℕ)
        child u after = (ok (world.child_id after), after)

        answered_with :
            (r : Result Fault (Unit {0}))
            → world.answer trace (spawn process) ≡ r
            → (let (c, after) = resume r child (spawn process ∷ trace) in
                Holds world Q (resume c next after))
        answered_with (ok done) e = go (spawned, ordered) (ap succeeded e)
        answered_with (err e) same = (spawned, ordered)

  spawned-IsForwarding :
      (process : Process) (agent_forwarding : Option Text) (trace : Trace)
      → IsForwarding agent_forwarding trace
      → IsForwarding agent_forwarding (spawn process ∷ trace)
  spawned-IsForwarding process none trace h = h
  spawned-IsForwarding process (some path) trace h = tt

  spawn_pty-Holds :
      (pending : PendingPty) (agent_forwarding : Option Text) (command : SessionCommand)
      (trace : Trace)
      → IsOrdered world trace
      → IsStarted world none trace
      → IsForwarding agent_forwarding trace
      → Holds world (Runs agent_forwarding) (
          spawn_pty_session_process world config session_user pending agent_forwarding command
            trace)
  unfolding spawn_pty_session_process pure
  spawn_pty-Holds pending agent_forwarding command trace ordered (spawned, terminal, unopened)
        forwarding =
      let Q = Runs agent_forwarding in
      perform-Holds world Q (open_pty pending.size) trace _ (spawned, terminal) ordered
        (λ o1 answered.
          let opened : has_opened world (open_pty pending.size ∷ trace) ≡ true =
            ap succeeded answered in
          clone-Holds Q _ _ opened o1 (λ o2. clone-Holds Q _ _ opened o2 (λ o3.
            clone-Holds Q _ _ opened o3 (λ o4. spawn_child-Holds Q _ _ _ spawned o4 (λ o5 process.
              clone-Holds Q _ _ opened o5 (λ o6. clone-Holds Q _ _ opened o6 (λ o7.
                (o7, ((process, refl, sym opened), kept _ agent_forwarding forwarding)))))))))
    where
      kept :
          (process : Process) (agent_forwarding : Option Text)
          → IsForwarding agent_forwarding trace
          → IsForwarding agent_forwarding (
              clone_terminal
              ∷ clone_terminal
              ∷ spawn process
              ∷ clone_terminal
              ∷ clone_terminal
              ∷ clone_terminal
              ∷ open_pty pending.size
              ∷ trace)
      kept process none h = h
      kept process (some path) h = tt

  spawn_session_process-Holds :
      (pending : Option PendingPty) (agent_forwarding : Option Text) (command : SessionCommand)
      (trace : Trace)
      → IsOrdered world trace
      → IsStarted world none trace
      → IsForwarding agent_forwarding trace
      → Holds world
          (Runs agent_forwarding)
          (spawn_session_process world config session_user pending agent_forwarding command trace)
  unfolding spawn_session_process spawn_pipe_session_process pure
  spawn_session_process-Holds (some pending) agent_forwarding command trace ordered started
        forwarding =
      spawn_pty-Holds pending agent_forwarding command trace ordered started forwarding
  spawn_session_process-Holds none agent_forwarding command trace ordered
        (spawned, terminal, unopened) forwarding =
      spawn_child-Holds (Runs agent_forwarding) _ trace _ spawned ordered (λ after process. (
        after,
        ((process, refl, sym unopened), spawned-IsForwarding _ agent_forwarding trace forwarding),
      ))

  start_session-Keeps :
      (command : SessionCommand) (session : Option RunningSession) (state : SessionState)
      (trace : Trace)
      → IsOrdered world trace
      → Agrees world state trace
      → IsStarted world session trace
      → Keeps world (start_session world config session_user command session state trace)
  unfolding start_session pure
  start_session-Keeps command (some running) state trace ordered agrees started =
      write_stderr-Keeps world _ state trace ordered agrees
  start_session-Keeps command none state trace ordered (_, forwarding) started =
      >>=-Holds world (Runs state.agent_forwarding) (Agrees world)
        (spawn_session_process world config session_user state.pending_pty state.agent_forwarding
          command)
        _ trace
        (spawn_session_process-Holds state.pending_pty state.agent_forwarding command trace ordered
          started forwarding)
        (λ running after still runs. (still, runs))

  module _ (state : SessionState) (trace : Trace) (ordered : IsOrdered world trace)
      (agrees : Agrees world state trace) where
    handle_request-Keeps :
        (request : ChannelRequest)
        → Keeps world (handle_request world config session_user request state trace)
    unfolding handle_request
    handle_request-Keeps (ChannelRequest.pty request) =
        handle_pty-Keeps world state trace ordered agrees request state.session
    handle_request-Keeps ChannelRequest.shell =
        start_session-Keeps _ state.session state trace ordered agrees agrees.0
    handle_request-Keeps (ChannelRequest.exec request) =
        start_session-Keeps _ state.session state trace ordered agrees agrees.0
    handle_request-Keeps (ChannelRequest.signal request) =
        handle_signal-Keeps world state trace ordered agrees request state.session agrees.0
    handle_request-Keeps (ChannelRequest.window_change request) =
        handle_window_change-Keeps world state trace ordered agrees request state.session agrees.0
    handle_request-Keeps (ChannelRequest.x11 request) =
        write_stderr-Keeps world _ state trace ordered agrees
    handle_request-Keeps (ChannelRequest.subsystem request) =
        write_stderr-Keeps world _ state trace ordered agrees
    handle_request-Keeps (ChannelRequest.exit_status request) =
        write_stderr-Keeps world _ state trace ordered agrees
    handle_request-Keeps (ChannelRequest.exit_signal request) =
        write_stderr-Keeps world _ state trace ordered agrees
    handle_request-Keeps (ChannelRequest.forward_port request) =
        write_stderr-Keeps world _ state trace ordered agrees

    handle_message-Keeps :
        (message : Message)
        → Keeps world (handle_message world config session_user message state trace)
    unfolding handle_message pure
    handle_message-Keeps (channel_request message) = handle_request-Keeps message.request
    handle_message-Keeps (data_message message) =
        handle_data-Keeps world state trace ordered agrees message
    handle_message-Keeps (channel_open_confirmation message) = (ordered, agrees)
    handle_message-Keeps (channel_open_failure message) = (ordered, agrees)

  handle_messages-Keeps :
      (messages : List Message) (state : SessionState) (trace : Trace)
      → IsOrdered world trace
      → Agrees world state trace
      → Keeps world (handle_messages world config session_user messages state trace)
  unfolding handle_messages pure
  handle_messages-Keeps [] state trace ordered agrees = (ordered, agrees)
  handle_messages-Keeps (message ∷ messages) state trace ordered agrees =
      >>=-Holds world (Agrees world) (Agrees world)
        (handle_message world config session_user message state) _ trace
        (handle_message-Keeps state trace ordered agrees message)
        (λ after later still agrees'. handle_messages-Keeps messages after later still agrees')

  Holds-IsOrdered :
      (outcome : Result Fault SessionState × Trace)
      → Holds world (λ s t. Unit {0}) outcome
      → IsOrdered world outcome.1
  Holds-IsOrdered (ok state, trace) (ordered, u) = ordered
  Holds-IsOrdered (err e, trace) ordered = ordered

  -- Whatever messages arrive and whichever calls fail, a process is spawned at most once, the terminal
  -- and the agent's socket are opened at most once and only before it. Input, new sizes and signals
  -- come only after the call that spawned the process succeeded; a size, and a new handle of the
  -- terminal, only after the terminal was opened; and a signal goes to the id of that process, to
  -- its group exactly if the terminal was opened.
  pub handle_session_channel-IsOrdered :
      (messages : List Message) (ending : Fault)
      → IsOrdered world (handle_session_channel world config session_user messages ending []).1
  unfolding handle_session_channel fail
  handle_session_channel-IsOrdered messages ending = Holds-IsOrdered _ (
      >>=-Holds world (Agrees world) (λ s t. Unit {0})
        (handle_messages world config session_user messages initial) _ []
        (handle_messages-Keeps messages initial [] tt ((refl, refl, refl), refl))
        (λ state after ordered agrees. ordered))
