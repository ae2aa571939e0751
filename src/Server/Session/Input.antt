-- ===== src/Server/Session/Input.antt =====
-- What a running session is given to read.
use ssh.Base.{
  ◌≡◌, refl, sym, ap, ◌∙◌, subst, ℕ, Bytes, List, [], ◌∷◌, ◌++◌, append_assoc, append-nil, Option,
  none, some, ◌==◌, codes, if◌then◌else◌, Bool-cases, inl, inr,
}
use ssh.Io.{Result, ok, err, resume, pure, ◌>>=◌}
use ssh.Text.{Text}
use ssh.Message.{
  ssh_extended_data_none, DataOrExtendedDataMessage, ChannelRequest, Message, channel_request,
  channel_open_confirmation, channel_open_failure, data_message,
}
use ssh.Server.Config.{ServerConfig}
use ssh.Server.Request.{SessionUser}
use ssh.Server.Session.{
  PtySize, from_window_change, RunningSession, Effect, stderr, write_input, resize, kill, Trace,
  Fault, World, perform,
}
use ssh.Server.Session.Signals.{Signal, parse_signal_request}
use ssh.Server.Session.Step.{
  SessionState, Step, write_stderr, reported, attempt, kill_child, send_signal, apply_window_change,
  handle_pty, handle_signal, handle_window_change, handle_contents, handle_data, start_session,
  handle_request, handle_message, handle_messages,
}

-- The contents that were written to the process, the first ones first.
abbrev pub inputs : Trace → List Bytes
inputs [] = []
inputs (write_input contents ∷ trace) = inputs trace ++ contents ∷ []
inputs (_ ∷ trace) = inputs trace

-- The contents of a data message that is no extended data.
abbrev pub plain_contents : DataOrExtendedDataMessage → List Bytes
plain_contents message =
    if message.data_type == ssh_extended_data_none then message.contents ∷ [] else []

abbrev pub contents_of : List Message → List Bytes
contents_of [] = []
contents_of (data_message message ∷ messages) = plain_contents message ++ contents_of messages
contents_of (channel_request message ∷ messages) = contents_of messages
contents_of (channel_open_confirmation message ∷ messages) = contents_of messages
contents_of (channel_open_failure message ∷ messages) = contents_of messages

-- The session stays as it is, and is given the contents.
abbrev pub Gives : SessionState → Trace → List Bytes → Result Fault SessionState × Trace → Type 0
Gives state trace given (ok after, trace') =
    (after ≡ state) × (inputs trace' ≡ inputs trace ++ given)
Gives state trace given (err e, trace') = ⊥

module _ (world : World)
    (answers : (trace : Trace) (effect : Effect) → world.answer trace effect ≡ ok tt) where
  module _ (state : SessionState) (trace : Trace) where
    write_stderr-Gives :
        (message : Bytes) → Gives state trace [] (write_stderr world message state trace)
    unfolding write_stderr ◌>>=◌ perform pure
    write_stderr-Gives message =
        rw (answers trace (stderr message)) (refl, sym (append-nil (inputs trace)))

    reported-Gives : (e : Fault) → Gives state trace [] (reported world (err e) state trace)
    unfolding write_stderr pure
    reported-Gives e = write_stderr-Gives (world.as_bytes (e ++ codes "\n"))

    attempt-Gives :
        (effect : Effect)
        → inputs (effect ∷ trace) ≡ inputs trace
        → Gives state trace [] (attempt world effect state trace)
    unfolding attempt perform write_stderr pure
    attempt-Gives effect same =
        rw (answers trace effect) (refl, same ∙ sym (append-nil (inputs trace)))

    send_signal-Gives :
        (name : Text) (parsed : Option Signal) (running : RunningSession)
        → Gives state trace [] (send_signal world name parsed running state trace)
    unfolding send_signal kill_child
    send_signal-Gives name none running = reported-Gives (codes "unsupported signal: " ++ name)
    send_signal-Gives name (some chosen) running = killed running.child_id
      where
        killed :
            (child_id : Option ℕ)
            → Gives state trace [] (kill_child world running.controller chosen child_id state trace)
        killed none = reported-Gives (codes "running session does not have a child pid")
        killed (some child_id) = attempt-Gives (kill running.controller child_id chosen) refl

    apply_window_change-Gives :
        (size : PtySize) (running : RunningSession)
        → Gives state trace [] (apply_window_change world size running state trace)
    unfolding apply_window_change
    apply_window_change-Gives size running = elim (Bool-cases running.controller) [
      | inl controlled ↦ rw (controlled) (attempt-Gives (resize size) refl)
      | inr piped ↦
          rw (piped) (reported-Gives (codes "window-change requires a PTY-backed session"))
    ]

    module _ (running : RunningSession) where
      handle_data-Gives :
          (message : DataOrExtendedDataMessage)
          → state.session ≡ some running
          → Gives state trace (plain_contents message) (handle_data world message state trace)
      unfolding handle_data handle_contents ◌>>=◌ perform pure
      handle_data-Gives message started =
          elim (Bool-cases (message.data_type == ssh_extended_data_none)) [
            | inl plain ↦
                rw (plain, started, answers trace (write_input message.contents)) (refl, refl)
            | inr extended ↦ rw (extended) (write_stderr-Gives _)
          ]

      on_running :
          (handler : Option RunningSession → SessionState → Step)
          → state.session ≡ some running
          → Gives state trace [] (handler (some running) state trace)
          → Gives state trace [] (handler state.session state trace)
      on_running handler started h =
          subst (λ session. Gives state trace [] (handler session state trace)) (sym started) h

      module _ (config : ServerConfig) (session_user : SessionUser) where
        handle_request-Gives :
            (request : ChannelRequest)
            → state.session ≡ some running
            → Gives state trace [] (handle_request world config session_user request state trace)
        unfolding handle_request handle_pty start_session handle_signal handle_window_change
            from_window_change
        handle_request-Gives (ChannelRequest.pty request) started =
            on_running (handle_pty world request) started (write_stderr-Gives _)
        handle_request-Gives ChannelRequest.shell started =
            on_running (start_session world config session_user _) started (write_stderr-Gives _)
        handle_request-Gives (ChannelRequest.exec request) started =
            on_running (start_session world config session_user _) started (write_stderr-Gives _)
        handle_request-Gives (ChannelRequest.signal request) started =
            let name = world.from_utf8_lossy request.signal_name_without_sig in
            on_running (handle_signal world request) started
              (send_signal-Gives name (parse_signal_request name) running)
        handle_request-Gives (ChannelRequest.window_change request) started =
            on_running (handle_window_change world request) started
              (apply_window_change-Gives (from_window_change request) running)
        handle_request-Gives (ChannelRequest.x11 request) started = write_stderr-Gives _
        handle_request-Gives (ChannelRequest.subsystem request) started = write_stderr-Gives _
        handle_request-Gives (ChannelRequest.exit_status request) started = write_stderr-Gives _
        handle_request-Gives (ChannelRequest.exit_signal request) started = write_stderr-Gives _
        handle_request-Gives (ChannelRequest.forward_port request) started = write_stderr-Gives _

  module _ (running : RunningSession) (config : ServerConfig) (session_user : SessionUser) where
    handle_message-Gives :
        (message : Message) (state : SessionState) (trace : Trace)
        → state.session ≡ some running
        → Gives state trace
            (contents_of (message ∷ []))
            (handle_message world config session_user message state trace)
    unfolding handle_message pure
    handle_message-Gives (channel_request message) state trace started =
        handle_request-Gives state trace running config session_user message.request started
    handle_message-Gives (data_message message) state trace started =
        subst (λ given. Gives state trace given (handle_data world message state trace))
          (sym (append-nil (plain_contents message)))
          (handle_data-Gives state trace running message started)
    handle_message-Gives (channel_open_confirmation message) state trace started =
        (refl, sym (append-nil (inputs trace)))
    handle_message-Gives (channel_open_failure message) state trace started =
        (refl, sym (append-nil (inputs trace)))

    contents_of_cons :
        (message : Message) (messages : List Message)
        → contents_of (message ∷ messages) ≡ contents_of (message ∷ []) ++ contents_of messages
    contents_of_cons (channel_request message) messages = refl
    contents_of_cons (data_message message) messages =
        ap (λ given. given ++ contents_of messages) (sym (append-nil (plain_contents message)))
    contents_of_cons (channel_open_confirmation message) messages = refl
    contents_of_cons (channel_open_failure message) messages = refl

    next-Gives :
        (state : SessionState) (trace : Trace) (first rest : List Bytes)
        (outcome : Result Fault SessionState × Trace) (next : SessionState → Step)
        → Gives state trace first outcome
        → ((trace' : Trace) → Gives state trace' rest (next state trace'))
        → Gives state trace (first ++ rest) (resume outcome.0 next outcome.1)
    next-Gives state trace first rest (ok after, trace') next (same, given) go =
        let later : Gives state trace' rest (next after trace') = rw (same) (go trace') in
        longer (next after trace') later
      where
        longer :
            (last : Result Fault SessionState × Trace)
            → Gives state trace' rest last
            → Gives state trace (first ++ rest) last
        longer (ok final, trace'') (still, more) = (
          still,
          more ∙ ap (λ before. before ++ rest) given ∙ append_assoc (inputs trace) first rest,
        )
        longer (err e, trace'') h = h
    next-Gives state trace first rest (err e, trace') next h go = absurd h

    -- Where no call fails, a session that runs stays as it is, and its process is given the contents
    -- of the data messages that are no extended data, in their order, and nothing else.
    pub handle_messages-Gives :
        (messages : List Message) (state : SessionState) (trace : Trace)
        → state.session ≡ some running
        → Gives state trace
            (contents_of messages)
            (handle_messages world config session_user messages state trace)
    unfolding handle_messages ◌>>=◌ pure
    handle_messages-Gives [] state trace started = (refl, sym (append-nil (inputs trace)))
    handle_messages-Gives (message ∷ messages) state trace started =
        subst
          (λ given.
            Gives state trace given
              (handle_messages world config session_user (message ∷ messages) state trace))
          (sym (contents_of_cons message messages))
          (next-Gives state trace (contents_of (message ∷ [])) (contents_of messages) _ _
            (handle_message-Gives message state trace started)
            (λ trace'. handle_messages-Gives messages state trace' started))
