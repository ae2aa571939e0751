-- ===== src/Examples/Sessions.antt =====
-- A client that opens a session and one that is refused.
use ssh.Base.{
  ℕ, arith, ◌≡◌, refl, Bytes, List, [], ◌∷◌, true, false, none, some, codes, empty, insert,
}
use ssh.Io.{IoError, Result, ok, err}
use ssh.Text.{Text}
use ssh.Message.{Message, channel_request, data_message, ChannelRequest}
use ssh.Conversation.{plain}
use ssh.Incoming.Route.{IncomingChannelRouter}
use ssh.Server.Request.{Request, SessionUser}
use ssh.Server.Session.{RunningSession, pipe, World}
use ssh.Server.Session.Step.{SessionState, handle_messages, handle_session_channel}
use ssh.Server.Session.Order.{IsOrdered}
use ssh.Server.Session.Order.Safety.{handle_session_channel-IsOrdered}
use ssh.Server.Session.Input.{Gives, contents_of, handle_messages-Gives}
use ssh.Server.Handler.{ServerError, Call, Calls, handle_conversation}
use ssh.Server.Handler.Guarded.{IsGuarded, handle_conversation-IsGuarded}
use ssh.Client.Credentials.{basic_authorization_value}
use ssh.Base.{Option, Bool}
use ssh.Server.Session.{pty, spawn, clone_terminal, open_pty, Trace}
use ssh.Client.Requests.Login.{login_shell}
use ssh.Server.Session.Step.{initial}
use ssh.Client.Requests.{LocalTerminalInfo, shell, initial_requests}
use ssh.Client.Requests.Started.{as_messages, size_of, handle_messages-initial_requests}
use ssh.Examples.Crates.{unary_decode, unary_encode}
use ssh.Io.{broken_pipe}
use ssh.Base.{All}
use ssh.Channel.State.{Channel}
use ssh.Channel.Transmit.Order.{wrote}
use ssh.Channel.Transmit.Pieces.{concat, IsPiece, packets, room}
use ssh.Server.Output.{Reads, read_failed, pump_process_output}
use ssh.Server.Output.Packets.{pump_process_output-packets}
use ssh.Examples.Channels.{small, three_bytes}
use ssh.Examples.Access.{around, with_passwords, user}

abbrev world : World
world = record {
  answer = λ trace effect. ok tt;
  child_id = λ trace. some 9;
  socket_path = λ trace. codes "/tmp/agent";
  from_utf8_lossy = λ bytes. bytes;
  as_bytes = λ text. text;
  debug = λ request. codes "Subsystem";
  path_variable = none;
  own_uid = 0;
  own_gid = 0;
  is_dir = λ path. true;
  file_name = λ path. some (codes "sh");
}

abbrev pub said : Bytes → Message
said contents = data_message (record { data_type = 0; contents = contents })

abbrev pub asked : ChannelRequest → Message
asked request = channel_request (record { want_reply = false; request = request })

abbrev messages : List Message
messages =
    said (codes "forward-agent")
    ∷ asked (
        ChannelRequest.pty (record {
          term = codes "xterm";
          char_width = 80;
          char_height = 24;
          pixel_width = 0;
          pixel_height = 0;
          encoded_terminal_modes = [];
        }))
    ∷ asked ChannelRequest.shell
    ∷ said (codes "ls\n")
    ∷ asked (ChannelRequest.signal (record { signal_name_without_sig = codes "int" }))
    ∷ asked ChannelRequest.shell
    ∷ []

handle_session_channel-IsOrdered_example :
    IsOrdered world
      (handle_session_channel world with_passwords user messages (codes "closed") []).1
handle_session_channel-IsOrdered_example =
    handle_session_channel-IsOrdered world with_passwords user messages (codes "closed")

abbrev running : RunningSession
running = record { input = pipe; child_id = some 9; controller = false }

abbrev state : SessionState
state = record { pending_pty = none; agent_forwarding = none; session = some running }

handle_messages-Gives_example :
    Gives state []
      (contents_of messages)
      (handle_messages world with_passwords user messages state [])
handle_messages-Gives_example =
    handle_messages-Gives world (λ trace effect. refl) running with_passwords user messages state []
      refl

abbrev request : Request
unfolding basic_authorization_value
request = record {
  is_ssh3_connect = true;
  user_header = some (codes " al ");
  authorization_header =
      some (basic_authorization_value unary_encode (λ text. text) (codes "al") (codes "pw"));
  query = none;
}

abbrev answer : Calls → Call → Result ServerError (Unit {0})
answer calls c = ok tt

abbrev built : ℕ → Result ℕ (Unit {0})
built status = ok tt

abbrev is_header_value : Text → Bool
is_header_value text = true

abbrev lookup : Text → Result IoError SessionUser
lookup name = ok user

abbrev router : IncomingChannelRouter
router = record { conversations = insert 0 3 empty; heap = empty }

handle_conversation-IsGuarded_example :
    let (result, calls, after) =
      handle_conversation answer built is_header_value around unary_decode some lookup
        with_passwords request 0
        (1 ∷ [])
        (ok (plain 5, codes "session") ∷ [])
        router in
    IsGuarded answer built is_header_value around unary_decode some lookup with_passwords request
      (1 ∷ [])
      calls
    × (after.conversations 0 ≡ none)
handle_conversation-IsGuarded_example =
    handle_conversation-IsGuarded answer built is_header_value around unary_decode some lookup
      with_passwords request 0 (1 ∷ []) (ok (plain 5, codes "session") ∷ []) router

abbrev terminal : LocalTerminalInfo
terminal = record {
  term = some (codes "xterm");
  size = record { char_width = 80; char_height = 24; pixel_width = 640; pixel_height = 480 };
}

initial_requests_example :
    (let size = size_of terminal in
      let term : Option Text = some (codes "xterm") in
      let started : Trace =
        spawn (login_shell world with_passwords user term size)
        ∷ clone_terminal
        ∷ clone_terminal
        ∷ clone_terminal
        ∷ open_pty size
        ∷ [] in
      handle_messages world with_passwords user
        (as_messages (initial_requests shell (some terminal)))
        initial
        []
      ≡ (
        ok (record {
          pending_pty = some (record { term = term; size = size });
          agent_forwarding = none;
          session = some (record { input = pty; child_id = some 9; controller = true });
        }),
        clone_terminal ∷ clone_terminal ∷ started,
      ))
initial_requests_example =
    handle_messages-initial_requests world (λ trace effect. refl) with_passwords user terminal
      (omega arith, omega arith, omega arith, omega arith)

-- What a shell puts out, and then its pipe breaks.
abbrev shell_output : ℕ → Reads
shell_output size = ok (codes "hello") ∷ ok (codes "you") ∷ err broken_pipe ∷ ok (codes "!") ∷ []

abbrev started : Channel
started = record small { header = none }

pump_example :
    (pieces : List Bytes) × (pump_process_output (some shell_output) 0 started
      ≡ (err (read_failed broken_pipe), wrote started (packets 0 pieces)))
    × (concat pieces ≡ codes "helloyou")
    × All (IsPiece (room started 0)) pieces
pump_example =
    pump_process_output-packets shell_output 0 started
      (omega arith, (omega arith, (tt, (omega arith, tt)))) (omega arith) refl refl
      (omega (arith, three_bytes)) (omega arith)
