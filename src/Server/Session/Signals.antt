-- ===== src/Server/Session/Signals.antt =====
-- The signals that a client can ask for.
use ssh.Base.{List, [], ◌∷◌, Option, none, some, bytes_eq, codes, if◌then◌else◌}
use ssh.Text.{Text, to_ascii_uppercase, strip_prefix}

-- `nix::sys::signal::Signal`, as far as the code names it.
pub data Signal : Type 0 where
  sigabrt sigalrm sigbus sigchld sigcont sigfpe sighup sigill sigint sigpipe sigquit : Signal
  sigsegv sigstop sigterm sigtrap sigtstp sigttin sigttou sigusr1 sigusr2 : Signal
  sigwinch sigxcpu sigxfsz : Signal

abbrev pub signal_names : List (Text × Signal)
signal_names =
    (codes "ABRT", sigabrt)
    ∷ (codes "IOT", sigabrt)
    ∷ (codes "ALRM", sigalrm)
    ∷ (codes "BUS", sigbus)
    ∷ (codes "CHLD", sigchld)
    ∷ (codes "CLD", sigchld)
    ∷ (codes "CONT", sigcont)
    ∷ (codes "FPE", sigfpe)
    ∷ (codes "HUP", sighup)
    ∷ (codes "ILL", sigill)
    ∷ (codes "INT", sigint)
    ∷ (codes "PIPE", sigpipe)
    ∷ (codes "QUIT", sigquit)
    ∷ (codes "SEGV", sigsegv)
    ∷ (codes "STOP", sigstop)
    ∷ (codes "TERM", sigterm)
    ∷ (codes "TRAP", sigtrap)
    ∷ (codes "TSTP", sigtstp)
    ∷ (codes "TTIN", sigttin)
    ∷ (codes "TTOU", sigttou)
    ∷ (codes "USR1", sigusr1)
    ∷ (codes "USR2", sigusr2)
    ∷ (codes "WINCH", sigwinch)
    ∷ (codes "XCPU", sigxcpu)
    ∷ (codes "XFSZ", sigxfsz)
    ∷ []

unfoldable pub signal_named : Text → List (Text × Signal) → Option Signal
signal_named name [] = none
signal_named name ((key, signal) ∷ rest) =
    if bytes_eq name key then some signal else signal_named name rest

abbrev pub uppercase : Text → Text
unfolding to_ascii_uppercase
uppercase [] = []
uppercase (c ∷ cs) = to_ascii_uppercase c ∷ uppercase cs

abbrev pub or_itself : Text → Option Text → Text
or_itself name none = name
or_itself name (some stripped) = stripped

-- `name` is the name that the request gives, as text.
unfoldable pub parse_signal_request : Text → Option Signal
unfolding signal_named strip_prefix to_ascii_uppercase
parse_signal_request name =
    let signal_name = uppercase name in
    signal_named (or_itself signal_name (strip_prefix (codes "SIG") signal_name)) signal_names
