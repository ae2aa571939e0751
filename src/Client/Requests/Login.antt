-- ===== src/Client/Requests/Login.antt =====
-- The process that the server of crates/ssh3-server/src/lib.rs starts for a client with a terminal.
use ssh.Base.{
  ℕ, ◌≡◌, refl, Bytes, List, [], ◌∷◌, Bool, true, false, not, ◌&&◌, ◌||◌, Option, none, some, ◌==◌,
  codes, if◌then◌else◌,
}
use ssh.Text.{Text}
use ssh.Server.Config.{ServerConfig}
use ssh.Server.Request.{SessionUser, effective_shell}
use ssh.Server.Session.{PtySize, PendingPty, SessionCommand, Process, World}
use ssh.Server.Session.Spawn.{
  or_default, term_variable, login_shell_arg0, configure_process, on_terminal,
}
use ssh.Server.Session.Step.{ssh_bytes_to_string}
use ssh.Client.Requests.{or_no_name}

-- The configured shell if it has a name, or else the user's, or else `/bin/sh`.
abbrev pub shell_of : Option Text → Text → Text
shell_of (some (c ∷ cs)) user_shell = c ∷ cs
shell_of (some []) (d ∷ ds) = d ∷ ds
shell_of (some []) [] = codes "/bin/sh"
shell_of none (d ∷ ds) = d ∷ ds
shell_of none [] = codes "/bin/sh"

effective_shell-shell_of :
    (config : ServerConfig) (session_user : SessionUser)
    → effective_shell config session_user ≡ shell_of config.shell session_user.shell
unfolding effective_shell
effective_shell-shell_of config session_user = chosen config.shell session_user.shell
  where
    chosen :
        (configured : Option Text) (user_shell : Text)
        → effective_shell
            (record config { shell = configured })
            (record session_user { shell = user_shell })
          ≡ shell_of configured user_shell
    chosen none [] = refl
    chosen none (d ∷ ds) = refl
    chosen (some []) [] = refl
    chosen (some []) (d ∷ ds) = refl
    chosen (some (c ∷ cs)) user_shell = refl

abbrev pub given_or : Text → Option Text → Text
given_or fallback none = fallback
given_or fallback (some text) = text

or_default-given_or :
    (fallback : Text) (text : Option Text) → or_default fallback text ≡ given_or fallback text
or_default-given_or fallback none = refl
or_default-given_or fallback (some text) = refl

-- The name of the client's terminal, if it has one.
abbrev pub name_of : World → Option Bytes → Option Text
name_of world none = none
name_of world (some []) = none
name_of world (some (b ∷ bs)) = some (world.from_utf8_lossy (b ∷ bs))

pub ssh_bytes_to_string-name_of :
    (world : World) (term : Option Bytes)
    → ssh_bytes_to_string world (or_no_name term) ≡ name_of world term
unfolding ssh_bytes_to_string
ssh_bytes_to_string-name_of world none = refl
ssh_bytes_to_string-name_of world (some []) = refl
ssh_bytes_to_string-name_of world (some (b ∷ bs)) = refl

abbrev pub term_of : Option Text → List (Text × Text)
term_of none = []
term_of (some term) = (codes "TERM", term) ∷ []

term_variable-term_of : (term : Option Text) → term_variable term ≡ term_of term
term_variable-term_of none = refl
term_variable-term_of (some term) = refl

-- The shell, as a login shell, in the user's directory if there is one, on a terminal of the given
-- size; as the user and group unless they are the server's own.
abbrev pub login_shell : World → ServerConfig → SessionUser → Option Text → PtySize → Process
login_shell world config session_user term size =
    let program = shell_of config.shell session_user.shell in
    record {
      program = program;
      args = [];
      env =
          (codes "HOME", session_user.home_dir)
          ∷ (codes "USER", session_user.username)
          ∷ (codes "LOGNAME", session_user.username)
          ∷ (codes "SHELL", program)
          ∷ (codes "PATH", given_or (codes "/usr/bin:/bin:/usr/sbin:/sbin") world.path_variable)
          ∷ term_of term;
      current_dir = if world.is_dir session_user.home_dir then some session_user.home_dir else none;
      owner =
          if session_user.uid == world.own_uid && session_user.gid == world.own_gid
          then none
          else some (session_user.uid, session_user.gid);
      arg0 = some (b'-' ∷ given_or (codes "sh") (world.file_name program));
      terminal = some size;
    }

owner_chosen :
    (a b : Bool) (x : ℕ × ℕ)
    → (if not a || not b then some x else none) ≡ (if a && b then none else some x)
owner_chosen true true x = refl
owner_chosen true false x = refl
owner_chosen false b x = refl

pub configure_process-login_shell :
    (world : World) (config : ServerConfig) (session_user : SessionUser) (pending : PendingPty)
    → on_terminal world config session_user pending
        (configure_process world config session_user SessionCommand.shell none)
      ≡ login_shell world config session_user pending.term pending.size
unfolding configure_process login_shell_arg0
configure_process-login_shell world config session_user pending =
    rw
      (
        effective_shell-shell_of config session_user,
        or_default-given_or (codes "/usr/bin:/bin:/usr/sbin:/sbin") world.path_variable,
        or_default-given_or (codes "sh")
            (world.file_name (shell_of config.shell session_user.shell)),
        term_variable-term_of pending.term,
        owner_chosen (session_user.uid == world.own_uid) (session_user.gid == world.own_gid)
            (session_user.uid, session_user.gid),
      )
      refl
