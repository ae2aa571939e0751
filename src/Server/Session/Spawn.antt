-- ===== src/Server/Session/Spawn.antt =====
-- The process of a session: what it is started with, and on which terminal.
use ssh.Base.{
  ℕ, List, [], ◌∷◌, ◌++◌, true, false, not, ◌||◌, ◌==◌, Option, none, some, codes, if◌then◌else◌,
}
use ssh.Io.{ok, Exec, pure, ◌>>=◌}
use ssh.Text.{Text}
use ssh.Server.Config.{ServerConfig}
use ssh.Server.Request.{SessionUser, effective_shell}
use ssh.Server.Session.{
  PendingPty, SessionCommand, shell, exec, pipe, pty, RunningSession, Process, open_pty, spawn,
  clone_terminal, Trace, Fault, World, perform,
}

abbrev pub or_default : Text → Option Text → Text
or_default fallback none = fallback
or_default fallback (some text) = text

unfoldable pub login_shell_arg0 : World → Text → Text
login_shell_arg0 world path = b'-' ∷ or_default (codes "sh") (world.file_name path)

abbrev pub socket_variable : Option Text → List (Text × Text)
socket_variable none = []
socket_variable (some path) = (codes "SSH_AUTH_SOCK", path) ∷ []

abbrev pub term_variable : Option Text → List (Text × Text)
term_variable none = []
term_variable (some term) = (codes "TERM", term) ∷ []

abbrev pub args_of : SessionCommand → List Text
args_of shell = []
args_of (exec command) = codes "-c" ∷ command ∷ []

-- `spawn`, and the `id` of the child.
unfoldable pub spawn_child : World → Process → Exec Trace Fault (Option ℕ)
unfolding ◌>>=◌ perform
spawn_child world process = do
  _ ← perform world (spawn process)
  (λ trace. (ok (world.child_id trace), trace))

module _ (world : World) (config : ServerConfig) (session_user : SessionUser) where
  abbrev pub arg0_of : SessionCommand → Text → Option Text
  unfolding login_shell_arg0
  arg0_of shell program = some (login_shell_arg0 world program)
  arg0_of (exec command) program = none

  -- `Command::new` and `configure_process`, on Unix.
  unfoldable pub configure_process : SessionCommand → Option Text → Process
  unfolding effective_shell login_shell_arg0
  configure_process command agent_socket_path =
      let program = effective_shell config session_user in
      record {
        program = program;
        args = args_of command;
        env =
            (codes "HOME", session_user.home_dir)
              ∷ (codes "USER", session_user.username)
              ∷ (codes "LOGNAME", session_user.username)
              ∷ (codes "SHELL", program)
              ∷ socket_variable agent_socket_path
            ++ (
              codes "PATH",
              or_default (codes "/usr/bin:/bin:/usr/sbin:/sbin") world.path_variable,
            )
              ∷ [];
        current_dir =
            if world.is_dir session_user.home_dir then some session_user.home_dir else none;
        owner =
            if not (session_user.uid == world.own_uid) || not (session_user.gid == world.own_gid)
            then some (session_user.uid, session_user.gid)
            else none;
        arg0 = arg0_of command program;
        terminal = none;
      }

  unfoldable pub spawn_pipe_session_process :
      Option Text → SessionCommand → Exec Trace Fault RunningSession
  unfolding ◌>>=◌ pure spawn_child configure_process
  spawn_pipe_session_process agent_socket_path command = do
    child_id ← spawn_child world (configure_process command agent_socket_path)
    pure (record { input = pipe; child_id = child_id; controller = false })

  abbrev pub on_terminal : PendingPty → Process → Process
  on_terminal pending process = record process {
    env = process.env ++ term_variable pending.term;
    terminal = some pending.size;
  }

  unfoldable pub spawn_pty_session_process :
      PendingPty → Option Text → SessionCommand → Exec Trace Fault RunningSession
  unfolding ◌>>=◌ pure perform spawn_child configure_process
  spawn_pty_session_process pending agent_socket_path command = do
    _ ← perform world (open_pty pending.size)
    _ ← perform world clone_terminal
    _ ← perform world clone_terminal
    _ ← perform world clone_terminal
    child_id ← spawn_child world (on_terminal pending (configure_process command agent_socket_path))
    _ ← perform world clone_terminal
    _ ← perform world clone_terminal
    pure (record { input = pty; child_id = child_id; controller = true })

  unfoldable pub spawn_session_process :
      Option PendingPty → Option Text → SessionCommand → Exec Trace Fault RunningSession
  unfolding spawn_pty_session_process spawn_pipe_session_process
  spawn_session_process (some pending) agent_socket_path command =
      spawn_pty_session_process pending agent_socket_path command
  spawn_session_process none agent_socket_path command =
      spawn_pipe_session_process agent_socket_path command
