-- ===== src/Server/Session/Order/Branches.antt =====
-- Each branch of the session's handler makes its calls in order.
use ssh.Base.{
  subst, sym, ◌∙◌, ◌≡◌, refl, ℕ, Bytes, ◌∷◌, ◌++◌, false, Option, none, some, ◌==◌, bytes_eq, codes,
  Bool-cases, inl, inr,
}
use ssh.Io.{Result, ok, err, Exec, resume, pure, ◌>>=◌}
use ssh.Text.{Text}
use ssh.Message.{
  ssh_extended_data_none, DataOrExtendedDataMessage, SignalRequest, WindowChangeRequest, PtyRequest,
}
use ssh.Server.Session.{
  PtySize, from_window_change, PendingPty, RunningSession, Effect, stderr, open_agent, write_input,
  resize, kill, Trace, Fault, World, perform,
}
use ssh.Server.Session.Signals.{Signal, parse_signal_request}
use ssh.Server.Session.Step.{
  SessionState, write_stderr, reported, attempt, kill_child, send_signal, apply_window_change,
  handle_pty, handle_signal, resize_pending, handle_window_change, forward_agent, handle_contents,
  handle_data,
}
use ssh.Server.Session.Order.{
  has_spawned, has_terminal, has_opened, child_of, IsAllowed, IsOrdered, IsStarted, IsForwarding,
  Agrees, Holds, Keeps, IsQuiet, quiet-Agrees,
}

module _ {ℓ κ} (world : World) {A : Type ℓ} {B : Type κ} (P : A → Trace → Type 0)
    (Q : B → Trace → Type 0) where
  resume-Holds :
      (outcome : Result Fault A × Trace) (next : A → Exec Trace Fault B)
      → Holds world P outcome
      → ((a : A) (after : Trace) → IsOrdered world after → P a after → Holds world Q (next a after))
      → Holds world Q (resume outcome.0 next outcome.1)
  resume-Holds (ok a, trace) next (ordered, p) go = go a trace ordered p
  resume-Holds (err e, trace) next ordered go = ordered

  pub >>=-Holds :
      (m : Exec Trace Fault A) (next : A → Exec Trace Fault B) (trace : Trace)
      → Holds world P (m trace)
      → ((a : A) (after : Trace) → IsOrdered world after → P a after → Holds world Q (next a after))
      → Holds world Q ((m >>= next) trace)
  unfolding ◌>>=◌
  >>=-Holds m next trace h go = resume-Holds (m trace) next h go

perform_resumed {ℓ} :
    (world : World) {A : Type ℓ} (Q : A → Trace → Type 0) (r : Result Fault (Unit {0}))
    (trace : Trace) (next : Unit {0} → Exec Trace Fault A)
    → IsOrdered world trace
    → (r ≡ ok tt → Holds world Q (next tt trace))
    → Holds world Q (resume r next trace)
perform_resumed world Q (ok done) trace next ordered go = go refl
perform_resumed world Q (err e) trace next ordered go = ordered

module _ (world : World) where
  pub perform-Holds {ℓ} :
      {A : Type ℓ} (Q : A → Trace → Type 0) (effect : Effect) (trace : Trace)
      (next : Unit {0} → Exec Trace Fault A)
      → IsAllowed world effect trace
      → IsOrdered world trace
      → (IsOrdered world (effect ∷ trace)
          → world.answer trace effect ≡ ok tt
          → Holds world Q (next tt (effect ∷ trace)))
      → Holds world Q ((perform world effect >>= next) trace)
  unfolding ◌>>=◌ perform
  perform-Holds Q effect trace next allowed ordered go =
      perform_resumed world Q (world.answer trace effect) (effect ∷ trace) next (allowed, ordered)
        (go (allowed, ordered))

  pub write_stderr-Keeps :
      (message : Bytes) (state : SessionState) (trace : Trace)
      → IsOrdered world trace
      → Agrees world state trace
      → Keeps world (write_stderr world message state trace)
  unfolding write_stderr pure
  write_stderr-Keeps message state trace ordered agrees =
      perform-Holds (Agrees world) (stderr message) trace (λ u. pure state) tt ordered
        (λ after answered. (after, quiet-Agrees world (stderr message) trace state tt agrees))

  reported-Keeps :
      (r : Result Fault (Unit {0})) (state : SessionState) (trace : Trace)
      → IsOrdered world trace
      → Agrees world state trace
      → Keeps world (reported world r state trace)
  unfolding write_stderr pure
  reported-Keeps (ok done) state trace ordered agrees = (ordered, agrees)
  reported-Keeps (err e) state trace ordered agrees =
      write_stderr-Keeps (world.as_bytes (e ++ codes "\n")) state trace ordered agrees

  attempt-Keeps :
      (effect : Effect) (state : SessionState) (trace : Trace)
      → IsQuiet effect
      → IsAllowed world effect trace
      → IsOrdered world trace
      → Agrees world state trace
      → Keeps world (attempt world effect state trace)
  unfolding attempt perform
  attempt-Keeps effect state trace quiet allowed ordered agrees =
      reported-Keeps (world.answer trace effect) state (effect ∷ trace) (allowed, ordered)
        (quiet-Agrees world effect trace state quiet agrees)

  send_signal-Keeps :
      (name : Text) (parsed : Option Signal) (running : RunningSession) (state : SessionState)
      (trace : Trace)
      → IsStarted world (some running) trace
      → IsOrdered world trace
      → Agrees world state trace
      → Keeps world (send_signal world name parsed running state trace)
  unfolding send_signal kill_child
  send_signal-Keeps name none running state trace started ordered agrees =
      reported-Keeps (err (codes "unsupported signal: " ++ name)) state trace ordered agrees
  send_signal-Keeps name (some chosen) running state trace (process, child, group) ordered agrees =
      killed running.child_id child
    where
      killed :
          (child_id : Option ℕ)
          → child_of world trace ≡ child_id
          → Keeps world (kill_child world running.controller chosen child_id state trace)
      killed none child =
          reported-Keeps (err (codes "running session does not have a child pid")) state trace
            ordered agrees
      killed (some child_id) child =
          attempt-Keeps (kill running.controller child_id chosen) state trace tt
            (process, child, group) ordered agrees

  apply_window_change-Keeps :
      (size : PtySize) (running : RunningSession) (state : SessionState) (trace : Trace)
      → IsStarted world (some running) trace
      → IsOrdered world trace
      → Agrees world state trace
      → Keeps world (apply_window_change world size running state trace)
  unfolding apply_window_change
  apply_window_change-Keeps size running state trace (process, child, terminal) ordered agrees =
      elim (Bool-cases running.controller) [
        | inl controlled ↦ rw (controlled) (
            attempt-Keeps (resize size) state trace tt (process, sym terminal ∙ controlled) ordered
              agrees)
        | inr piped ↦ rw (piped) (
            reported-Keeps (err (codes "window-change requires a PTY-backed session")) state trace
              ordered agrees)
      ]

  resize_pending-Keeps :
      (size : PtySize) (pending : Option PendingPty) (state : SessionState) (trace : Trace)
      → IsOrdered world trace
      → Agrees world state trace
      → Keeps world (resize_pending world size pending state trace)
  unfolding resize_pending pure
  resize_pending-Keeps size (some pending) state trace ordered agrees = (ordered, agrees)
  resize_pending-Keeps size none state trace ordered agrees =
      write_stderr-Keeps _ state trace ordered agrees

  module _ (state : SessionState) (trace : Trace) (ordered : IsOrdered world trace)
      (agrees : Agrees world state trace) where
    pub handle_window_change-Keeps :
        (request : WindowChangeRequest) (session : Option RunningSession)
        → IsStarted world session trace
        → Keeps world (handle_window_change world request session state trace)
    unfolding handle_window_change from_window_change
    handle_window_change-Keeps request (some running) started =
        apply_window_change-Keeps (from_window_change request) running state trace started ordered
          agrees
    handle_window_change-Keeps request none started =
        resize_pending-Keeps (from_window_change request) state.pending_pty state trace ordered
          agrees

    pub handle_signal-Keeps :
        (request : SignalRequest) (session : Option RunningSession)
        → IsStarted world session trace
        → Keeps world (handle_signal world request session state trace)
    unfolding handle_signal
    handle_signal-Keeps request (some running) started =
        let name = world.from_utf8_lossy request.signal_name_without_sig in
        send_signal-Keeps name (parse_signal_request name) running state trace started ordered
          agrees
    handle_signal-Keeps request none started = write_stderr-Keeps _ state trace ordered agrees

    pub handle_pty-Keeps :
        (request : PtyRequest) (session : Option RunningSession)
        → Keeps world (handle_pty world request session state trace)
    unfolding handle_pty pure
    handle_pty-Keeps request (some running) = write_stderr-Keeps _ state trace ordered agrees
    handle_pty-Keeps request none = (ordered, agrees)

    forward_agent-Keeps :
        (agent_forwarding : Option Text)
        → has_spawned trace ≡ false
        → has_terminal trace ≡ false
        → has_opened world trace ≡ false
        → IsForwarding agent_forwarding trace
        → (state.session ≡ none)
        → Keeps world (forward_agent world agent_forwarding state trace)
    unfolding forward_agent pure
    forward_agent-Keeps (some path) spawned terminal unopened forwarding unstarted =
        (ordered, agrees)
    forward_agent-Keeps none spawned terminal unopened forwarding unstarted =
        perform-Holds (Agrees world) open_agent trace _ (spawned, forwarding) ordered
          (λ after answered. (
            after,
            (
              subst (λ session. IsStarted world session (open_agent ∷ trace)) (sym unstarted)
                  (spawned, terminal, unopened),
              tt,
            ),
          ))

    handle_contents-Keeps :
        (contents : Bytes) (session : Option RunningSession)
        → state.session ≡ session
        → IsStarted world session trace
        → Keeps world (handle_contents world contents session state trace)
    unfolding handle_contents pure
    handle_contents-Keeps contents (some running) e (process, child, terminal) =
        perform-Holds (Agrees world) (write_input contents) trace _ process ordered
          (λ after answered.
            (after, quiet-Agrees world (write_input contents) trace state tt agrees))
    handle_contents-Keeps contents none e (spawned, terminal, unopened) =
        elim (Bool-cases (bytes_eq contents (codes "forward-agent"))) [
          | inl asked ↦
              rw (asked)
                (forward_agent-Keeps state.agent_forwarding spawned terminal unopened agrees.1 e)
          | inr other ↦ rw (other) (write_stderr-Keeps _ state trace ordered agrees)
        ]

    pub handle_data-Keeps :
        (message : DataOrExtendedDataMessage) → Keeps world (handle_data world message state trace)
    unfolding handle_data
    handle_data-Keeps message = elim (Bool-cases (message.data_type == ssh_extended_data_none)) [
      | inl plain ↦ rw (plain) (handle_contents-Keeps message.contents state.session refl agrees.0)
      | inr extended ↦ rw (extended) (write_stderr-Keeps _ state trace ordered agrees)
    ]
