-- ===== src/Client/Capture/Collected.antt =====
-- What is captured is what the messages before the first exit carry.
use ssh.Base.{
  ℕ, ◌%◌, ◌^◌, ◌≡◌, refl, ap, ◌∙◌, Bytes, List, [], ◌∷◌, ◌++◌, append_assoc, append-nil, All, Bool,
  true, false, ◌==◌, Option, none, some, if◌then◌else◌, Bool-cases, inl, inr, arith,
}
use ssh.Io.{Result, ok, err, pure, lift, ◌>>=◌}
use ssh.Text.{Text}
use ssh.Message.{
  ssh_extended_data_none, ssh_extended_data_stderr, DataOrExtendedDataMessage, ExitStatusRequest,
  ExitSignalRequest, ChannelRequest, ChannelRequestMessage, Message, channel_request,
  channel_open_confirmation, channel_open_failure, data_message,
}
use ssh.Channel.Error.{ChannelError}
use ssh.Channel.State.{Stop, failed, Channel}
use ssh.Io.Sink
use ssh.Channel.Transmit
use ssh.Channel.Transmit.{send_request}
use ssh.Channel.Transmit.Order.{header_bytes, wrote, Writable, send_message-layout}
use ssh.Message.Layout.{layout, IsMessage}
use ssh.Client.Credentials.{ClientConfig}
use ssh.Client.Requests.{
  SessionRequest, session_request, initial_requests, send_requests, send_initial_session_requests,
  shell, exec,
}
use ssh.Client.Capture.{
  on_channel, from_client, build_session_runtime, capture_on_channel, exit_signal, CapturedSession,
  ClientError, Captured, extend_with_data, exited, capture_message, capture_loop,
  run_capture_on_client,
}

-- The contents of the data messages of a type, one after the other.
abbrev pub contents_of_type : ℕ → List Message → Bytes
contents_of_type kind [] = []
contents_of_type kind (data_message message ∷ messages) =
    (if message.data_type == kind then message.contents else []) ++ contents_of_type kind messages
contents_of_type kind (channel_request message ∷ messages) = contents_of_type kind messages
contents_of_type kind (channel_open_confirmation message ∷ messages) =
    contents_of_type kind messages
contents_of_type kind (channel_open_failure message ∷ messages) = contents_of_type kind messages

-- A request that is no exit.
abbrev pub IsOther : ChannelRequest → Type 0
IsOther (ChannelRequest.exit_status status) = ⊥
IsOther (ChannelRequest.exit_signal signal) = ⊥
IsOther _ = Unit {0}

other-exited :
    (request : ChannelRequest) (header : Option Text) (c : Captured)
    → IsOther request
    → exited header request c ≡ none
other-exited (ChannelRequest.exit_status status) header c h = absurd h
other-exited (ChannelRequest.exit_signal signal) header c h = absurd h
other-exited (ChannelRequest.pty r) header c h = refl
other-exited (ChannelRequest.x11 r) header c h = refl
other-exited ChannelRequest.shell header c h = refl
other-exited (ChannelRequest.exec r) header c h = refl
other-exited (ChannelRequest.subsystem r) header c h = refl
other-exited (ChannelRequest.window_change r) header c h = refl
other-exited (ChannelRequest.signal r) header c h = refl
other-exited (ChannelRequest.forward_port r) header c h = refl

-- A message that does not end the session.
abbrev pub IsRunning : Message → Type 0
IsRunning (channel_request message) = IsOther message.request
IsRunning (data_message message) = Unit {0}
IsRunning (channel_open_confirmation message) = Unit {0}
IsRunning (channel_open_failure message) = Unit {0}

abbrev pub captured_after : Captured → List Message → Captured
captured_after c messages = record {
  stdout = c.stdout ++ contents_of_type ssh_extended_data_none messages;
  stderr = c.stderr ++ contents_of_type ssh_extended_data_stderr messages;
}

data_captured :
    (message : DataOrExtendedDataMessage) (messages : List Message) (c : Captured)
    → captured_after (extend_with_data message c) messages
      ≡ captured_after c (data_message message ∷ messages)
unfolding extend_with_data
data_captured message messages c = elim (Bool-cases (message.data_type == ssh_extended_data_none)) [
  | inl plain ↦
      let other : (message.data_type == ssh_extended_data_stderr) ≡ false = ground arith in
      rw (plain, other)
        (ap
          (λ out. record {
            stdout = out;
            stderr = c.stderr ++ contents_of_type ssh_extended_data_stderr messages;
          })
          (append_assoc c.stdout message.contents
            (contents_of_type ssh_extended_data_none messages)))
  | inr extended ↦ elim (Bool-cases (message.data_type == ssh_extended_data_stderr)) [
    | inl error ↦
        rw (extended, error)
          (ap
            (λ out. record {
              stdout = c.stdout ++ contents_of_type ssh_extended_data_none messages;
              stderr = out;
            })
            (append_assoc c.stderr message.contents
              (contents_of_type ssh_extended_data_stderr messages)))
    | inr unknown ↦ rw (extended, unknown) refl
  ]
]

capture_loop_running :
    (server_header : Option Text) (before after : List Message) (ending : ChannelError)
    (c : Captured)
    → All IsRunning before
    → capture_loop server_header (before ++ after) ending c
      ≡ capture_loop server_header after ending (captured_after c before)
unfolding capture_loop capture_message
capture_loop_running server_header [] after ending c h =
    ap (capture_loop server_header after ending)
      (rw (append-nil c.stdout, append-nil c.stderr) refl)
capture_loop_running server_header (data_message message ∷ before) after ending c h =
    capture_loop_running server_header before after ending (extend_with_data message c) h.1
    ∙ ap (capture_loop server_header after ending) (data_captured message before c)
capture_loop_running server_header (channel_request message ∷ before) after ending c h =
    rw (other-exited message.request server_header c h.0)
      (capture_loop_running server_header before after ending c h.1)
capture_loop_running server_header (channel_open_confirmation message ∷ before) after ending c h =
    capture_loop_running server_header before after ending c h.1
capture_loop_running server_header (channel_open_failure message ∷ before) after ending c h =
    capture_loop_running server_header before after ending c h.1

-- A shell or a command is asked for, with a reply.
abbrev pub asked_for : SessionRequest → ChannelRequestMessage
asked_for shell = record { want_reply = true; request = ChannelRequest.shell }
asked_for (exec command) = record {
  want_reply = true;
  request = ChannelRequest.exec (record { command = command });
}

-- What the client sent, on a channel that it then closed.
abbrev pub asked_and_closed : SessionRequest → Channel → Channel
asked_and_closed request c = record c {
  header = none;
  send = record c.send {
    sent = c.send.sent ++ (header_bytes c.header ++ layout (channel_request (asked_for request)));
    closed = true;
  };
}

close_open :
    (r : Result (Stop ClientError) CapturedSession) (c : Channel)
    → Writable c
    → (on_channel Transmit.close >>= (λ done. lift r)) c
      ≡ (r, record c { send = record c.send { closed = true } })
unfolding Transmit.close Sink.close ◌>>=◌ lift
close_open r c w = rw w refl

requests_sent :
    (request : SessionRequest) (c : Channel)
    → Writable c
    → IsMessage (channel_request (asked_for request))
    → send_initial_session_requests request none c
      ≡ (ok tt, wrote c (header_bytes c.header ++ layout (channel_request (asked_for request))))
unfolding send_initial_session_requests send_requests initial_requests send_request ◌>>=◌ pure
    session_request
requests_sent shell c w h = rw (send_message-layout (channel_request (asked_for shell)) c h w) refl
requests_sent (exec command) c w h =
    rw (send_message-layout (channel_request (asked_for (exec command))) c h w) refl

capture_on_channel_lem :
    (config : ClientConfig) (variable : Option Text) (request : SessionRequest)
    (server_header : Option Text) (c : Channel) (messages : List Message) (ending : ChannelError)
    → config.forward_agent ≡ false
    → Writable c
    → IsMessage (channel_request (asked_for request))
    → capture_on_channel config variable request server_header messages ending c ≡ (
      from_client
          (capture_loop server_header messages ending (record { stdout = []; stderr = [] })),
      asked_and_closed request c,
    )
unfolding capture_on_channel build_session_runtime ◌>>=◌ pure lift
capture_on_channel_lem config variable request server_header c messages ending plain w h =
    rw plain (
      rw (requests_sent request c w h) (
        close_open
          (from_client
            (capture_loop server_header messages ending (record { stdout = []; stderr = [] })))
          (wrote c (header_bytes c.header ++ layout (channel_request (asked_for request)))) w))

-- If the channel is opened, its writes do not fail, the request fits the wire and the agent is not
-- forwarded, the client sends the pending header and its request and closes the channel; and with
-- messages that are no exit, then an exit and any more, it returns for a status the lower 32 bits of
-- it, the contents of the plain data messages before it as output and those of the data messages
-- for errors as errors, and for a signal that signal as an error.
pub run_capture_on_client-exited :
    (config : ClientConfig) (variable : Option Text) (request : SessionRequest)
    (server_header : Option Text) (c : Channel) (before after : List Message)
    (ending : ChannelError) (want_reply : Bool)
    → config.forward_agent ≡ false
    → Writable c
    → IsMessage (channel_request (asked_for request))
    → All IsRunning before
    → ((status : ExitStatusRequest)
        → run_capture_on_client
            (ok c)
            config
            variable
            request
            server_header
            (before
              ++ channel_request
                  (record { want_reply = want_reply; request = ChannelRequest.exit_status status })
                ∷ after)
            ending
          ≡ (
            ok (record {
              server_header = server_header;
              exit_status = status.exit_status % 2 ^ 32;
              stdout = contents_of_type ssh_extended_data_none before;
              stderr = contents_of_type ssh_extended_data_stderr before;
            }),
            some (asked_and_closed request c),
          ))
      × ((signal : ExitSignalRequest)
          → run_capture_on_client
              (ok c)
              config
              variable
              request
              server_header
              (before
                ++ channel_request (record {
                  want_reply = want_reply;
                  request = ChannelRequest.exit_signal signal;
                })
                  ∷ after)
              ending
            ≡ (err (failed (exit_signal signal)), some (asked_and_closed request c)))
unfolding run_capture_on_client capture_loop capture_message
run_capture_on_client-exited config variable request server_header c before after ending want_reply
      plain w h running =
    let exit : ChannelRequest → Message =
      λ kind. channel_request (record { want_reply = want_reply; request = kind }) in
    let run : (kind : ChannelRequest) → _ ≡ _ = λ kind.
      capture_on_channel_lem config variable request server_header c (before ++ exit kind ∷ after)
        ending plain w h
      ∙ ap (λ r. (from_client r, asked_and_closed request c))
          (capture_loop_running server_header before (exit kind ∷ after) ending
            (record { stdout = []; stderr = [] }) running) in
    (
      (λ status. ap (λ o. (o.0, some o.1)) (run (ChannelRequest.exit_status status))),
      (λ signal. ap (λ o. (o.0, some o.1)) (run (ChannelRequest.exit_signal signal))),
    )
