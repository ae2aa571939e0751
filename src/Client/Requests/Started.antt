-- ===== src/Client/Requests/Started.antt =====
-- What the server starts on the client's first requests.
use ssh.Base.{ℕ, ◌≡◌, ◌<◌, ◌^◌, List, [], ◌∷◌, true, none, some, arith}
use ssh.Io.{ok, pure, ◌>>=◌}
use ssh.Message.{Message, channel_request, ChannelRequestMessage}
use ssh.Server.Config.{ServerConfig}
use ssh.Server.Request.{SessionUser}
use ssh.Server.Session.{
  PtySize, clamp_u64_to_u16, from_pty_request, pty, Effect, open_pty, spawn, clone_terminal, Trace,
  World, perform,
}
use ssh.Server.Session.Spawn.{spawn_child, spawn_session_process, spawn_pty_session_process}
use ssh.Server.Session.Step.{
  initial, handle_pty, start_session, handle_request, handle_message, handle_messages,
}
use ssh.Client.Requests.Login.{
  name_of, ssh_bytes_to_string-name_of, login_shell, configure_process-login_shell,
}
use ssh.Client.Requests.{shell, LocalTerminalInfo, pty_request, session_request, initial_requests}

abbrev pub as_messages : List ChannelRequestMessage → List Message
as_messages [] = []
as_messages (request ∷ requests) = channel_request request ∷ as_messages requests

clamp_u64_to_u16_small : (n : ℕ) → n < 2 ^ 16 → clamp_u64_to_u16 n ≡ n
unfolding clamp_u64_to_u16
clamp_u64_to_u16_small n h = ground arith

-- The size of the client's terminal, for the server.
abbrev pub size_of : LocalTerminalInfo → PtySize
size_of terminal = record {
  char_width = terminal.size.char_width;
  char_height = terminal.size.char_height;
  pixel_width = terminal.size.pixel_width;
  pixel_height = terminal.size.pixel_height;
}

-- A terminal's size has 16 bits.
abbrev pub IsSize : LocalTerminalInfo → Type 0
IsSize terminal =
    (terminal.size.char_width < 2 ^ 16)
    × (terminal.size.char_height < 2 ^ 16)
    × (terminal.size.pixel_width < 2 ^ 16)
    × (terminal.size.pixel_height < 2 ^ 16)

module _ (world : World)
    (answers : (trace : Trace) (effect : Effect) → world.answer trace effect ≡ ok tt)
    (config : ServerConfig) (session_user : SessionUser) where
  -- Where no call fails, the first requests of a client with a terminal, whose size has 16 bits, make
  -- the server open a terminal of that size and spawn a login shell on it, with the terminal's name
  -- if there is one: the configured shell if it has a name, or else the user's, or else `/bin/sh`. The
  -- session that runs is the process that was spawned.
  pub handle_messages-initial_requests :
      (terminal : LocalTerminalInfo)
      → IsSize terminal
      → (let term = name_of world terminal.term in
          let size = size_of terminal in
          let started : Trace =
            spawn (login_shell world config session_user term size)
            ∷ clone_terminal
            ∷ clone_terminal
            ∷ clone_terminal
            ∷ open_pty size
            ∷ [] in
          handle_messages world config session_user
            (as_messages (initial_requests shell (some terminal)))
            initial
            []
          ≡ (
            ok (record {
              pending_pty = some (record { term = term; size = size });
              agent_forwarding = none;
              session =
                  some
                    (record { input = pty; child_id = world.child_id started; controller = true });
            }),
            clone_terminal ∷ clone_terminal ∷ started,
          ))
  unfolding handle_messages handle_message handle_request handle_pty start_session
      spawn_session_process spawn_pty_session_process spawn_child initial_requests pty_request
      session_request from_pty_request ◌>>=◌ pure perform
  handle_messages-initial_requests terminal (w, h, x, y) =
      rw
        (
          clamp_u64_to_u16_small terminal.size.char_width w,
          clamp_u64_to_u16_small terminal.size.char_height h,
          clamp_u64_to_u16_small terminal.size.pixel_width x,
          clamp_u64_to_u16_small terminal.size.pixel_height y,
          ssh_bytes_to_string-name_of world terminal.term,
          configure_process-login_shell world config session_user
              (record { term = name_of world terminal.term; size = size_of terminal }),
        )
        (simp (answers))
