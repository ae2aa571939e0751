-- ===== src/Server/Session/Order.antt =====
-- The order of the calls that a session makes.
pub mod Branches
pub mod Safety
use ssh.Base.{
  ◌≡◌, refl, ℕ, Bytes, List, [], ◌∷◌, ◌++◌, Bool, true, false, Option, none, some, ◌==◌, bytes_eq,
  codes, if◌then◌else◌, Bool-cases, inl, inr,
}
use ssh.Io.{Result, ok, err, Exec, resume, pure, fail, ◌>>=◌}
use ssh.Text.{Text}
use ssh.Message.{
  ssh_extended_data_none, DataOrExtendedDataMessage, SignalRequest, WindowChangeRequest, PtyRequest,
  ChannelRequest, Message, channel_request, channel_open_confirmation, channel_open_failure,
  data_message,
}
use ssh.Server.Config.{ServerConfig}
use ssh.Server.Request.{SessionUser}
use ssh.Server.Session.{
  PtySize, PendingPty, SessionCommand, RunningSession, Process, Effect, stderr, open_pty, spawn,
  clone_terminal, open_agent, write_input, resize, kill, Trace, Fault, World, perform,
}
use ssh.Server.Session.Signals.{Signal, parse_signal_request}
use ssh.Server.Session.Spawn.{
  spawn_pipe_session_process, spawn_pty_session_process, spawn_session_process,
}
use ssh.Server.Session.Step.{
  SessionState, initial, Step, write_stderr, reported, attempt, kill_child, send_signal,
  apply_window_change, handle_pty, handle_signal, resize_pending, handle_window_change,
  forward_agent, handle_contents, handle_data, start_session, handle_request, handle_message,
  handle_messages, handle_session_channel,
}

-- A process was spawned; it was spawned on a terminal; the agent's socket was opened.
abbrev pub has_spawned : Trace → Bool
has_spawned [] = false
has_spawned (spawn process ∷ trace) = true
has_spawned (_ ∷ trace) = has_spawned trace

abbrev pub has_terminal : Trace → Bool
has_terminal [] = false
has_terminal (open_pty size ∷ trace) = true
has_terminal (_ ∷ trace) = has_terminal trace

abbrev pub has_agent : Trace → Bool
has_agent [] = false
has_agent (open_agent ∷ trace) = true
has_agent (_ ∷ trace) = has_agent trace

abbrev pub succeeded : Result Fault (Unit {0}) → Bool
succeeded (ok done) = true
succeeded (err e) = false

-- The last call to spawn a process, or to open a terminal, succeeded.
abbrev pub has_process : World → Trace → Bool
has_process world [] = false
has_process world (spawn process ∷ trace) = succeeded (world.answer trace (spawn process))
has_process world (_ ∷ trace) = has_process world trace

abbrev pub has_opened : World → Trace → Bool
has_opened world [] = false
has_opened world (open_pty size ∷ trace) = succeeded (world.answer trace (open_pty size))
has_opened world (_ ∷ trace) = has_opened world trace

-- The id of the process that the last of these calls spawned.
abbrev pub child_of : World → Trace → Option ℕ
child_of world [] = none
child_of world (spawn process ∷ trace) = world.child_id (spawn process ∷ trace)
child_of world (_ ∷ trace) = child_of world trace

-- What must hold of the calls before a call.
abbrev pub IsAllowed : World → Effect → Trace → Type 0
IsAllowed world (stderr message) before = Unit {0}
IsAllowed world (open_pty size) before =
    (has_spawned before ≡ false) × (has_terminal before ≡ false)
IsAllowed world (spawn process) before = has_spawned before ≡ false
IsAllowed world clone_terminal before = has_opened world before ≡ true
IsAllowed world open_agent before = (has_spawned before ≡ false) × (has_agent before ≡ false)
IsAllowed world (write_input contents) before = has_process world before ≡ true
IsAllowed world (resize size) before =
    (has_process world before ≡ true) × (has_opened world before ≡ true)
IsAllowed world (kill group child_id chosen) before =
    (has_process world before ≡ true)
    × (child_of world before ≡ some child_id)
    × (group ≡ has_opened world before)

abbrev pub IsOrdered : World → Trace → Type 0
IsOrdered world [] = Unit {0}
IsOrdered world (effect ∷ before) = IsAllowed world effect before × IsOrdered world before

abbrev pub IsStarted : World → Option RunningSession → Trace → Type 0
IsStarted world none trace =
    (has_spawned trace ≡ false) × (has_terminal trace ≡ false) × (has_opened world trace ≡ false)
IsStarted world (some running) trace =
    (has_process world trace ≡ true)
    × (child_of world trace ≡ running.child_id)
    × (running.controller ≡ has_opened world trace)

abbrev pub IsForwarding : Option Text → Trace → Type 0
IsForwarding none trace = has_agent trace ≡ false
IsForwarding (some path) trace = Unit {0}

-- The state is what the calls so far have made of the session.
abbrev pub Agrees : World → SessionState → Trace → Type 0
Agrees world state trace =
    IsStarted world state.session trace × IsForwarding state.agent_forwarding trace

-- However it ended, the calls are in order; and if it did not fail, the rest holds of its result.
abbrev pub Holds {ℓ} : World → {A : Type ℓ} → (A → Trace → Type 0) → Result Fault A × Trace → Type 0
Holds world P (ok a, trace) = IsOrdered world trace × P a trace
Holds world P (err e, trace) = IsOrdered world trace

abbrev pub Keeps : World → Result Fault SessionState × Trace → Type 0
Keeps world = Holds world (Agrees world)

-- A call after which the process, the terminal and the socket are as before.
abbrev pub IsQuiet : Effect → Type 0
IsQuiet (stderr message) = Unit {0}
IsQuiet (write_input contents) = Unit {0}
IsQuiet (resize size) = Unit {0}
IsQuiet (kill group child_id chosen) = Unit {0}
IsQuiet clone_terminal = Unit {0}
IsQuiet (open_pty size) = ⊥
IsQuiet (spawn process) = ⊥
IsQuiet open_agent = ⊥

module _ (world : World) where
  quiet-IsStarted :
      (effect : Effect) (trace : Trace) (session : Option RunningSession)
      → IsQuiet effect
      → IsStarted world session trace
      → IsStarted world session (effect ∷ trace)
  quiet-IsStarted (stderr message) trace none quiet h = h
  quiet-IsStarted (write_input contents) trace none quiet h = h
  quiet-IsStarted (resize size) trace none quiet h = h
  quiet-IsStarted (kill group child_id chosen) trace none quiet h = h
  quiet-IsStarted clone_terminal trace none quiet h = h
  quiet-IsStarted (stderr message) trace (some running) quiet h = h
  quiet-IsStarted (write_input contents) trace (some running) quiet h = h
  quiet-IsStarted (resize size) trace (some running) quiet h = h
  quiet-IsStarted (kill group child_id chosen) trace (some running) quiet h = h
  quiet-IsStarted clone_terminal trace (some running) quiet h = h
  quiet-IsStarted (open_pty size) trace session quiet h = absurd quiet
  quiet-IsStarted (spawn process) trace session quiet h = absurd quiet
  quiet-IsStarted open_agent trace session quiet h = absurd quiet

  quiet_agent :
      (effect : Effect) (trace : Trace)
      → IsQuiet effect
      → has_agent (effect ∷ trace) ≡ has_agent trace
  quiet_agent (stderr message) trace quiet = refl
  quiet_agent (write_input contents) trace quiet = refl
  quiet_agent (resize size) trace quiet = refl
  quiet_agent (kill group child_id chosen) trace quiet = refl
  quiet_agent clone_terminal trace quiet = refl
  quiet_agent (open_pty size) trace quiet = absurd quiet
  quiet_agent (spawn process) trace quiet = absurd quiet
  quiet_agent open_agent trace quiet = absurd quiet

  quiet-IsForwarding :
      (effect : Effect) (trace : Trace) (agent_forwarding : Option Text)
      → IsQuiet effect
      → IsForwarding agent_forwarding trace
      → IsForwarding agent_forwarding (effect ∷ trace)
  quiet-IsForwarding effect trace none quiet unopened = rw (quiet_agent effect trace quiet) unopened
  quiet-IsForwarding effect trace (some path) quiet opened = tt

  pub quiet-Agrees :
      (effect : Effect) (trace : Trace) (state : SessionState)
      → IsQuiet effect
      → Agrees world state trace
      → Agrees world state (effect ∷ trace)
  quiet-Agrees effect trace state quiet (started, forwarding) = (
    quiet-IsStarted effect trace state.session quiet started,
    quiet-IsForwarding effect trace state.agent_forwarding quiet forwarding,
  )
