-- ===== src/Message/Bounds.antt =====
-- The messages that `parse` of crates/ssh3-proto/src/message.rs can return.
use ssh.Base.{ℕ, Bytes, AreBytes, ◌≡◌, arith}
use ssh.Io.{Stream, ok, Reader, pure, ◌>>=◌}
use ssh.Io.Yields.{Yields, Yields-pure, Yields-fail, Yields-if, Yields-bind}
use ssh.Wire.{Error}
use ssh.Wire.Bounds.{Fits, wire_yields, lift-then, ssh_bytes-then, bool-then, var_int-then}
use ssh.Forwarding.Octets.{ip_of-IsIpAddr, from_be_bytes-IsPort}
use ssh.Message.{
  pty, x11, exec, subsystem, window_change, signal, exit_status, exit_signal, forward_port, Message,
  channel_request, channel_open_confirmation, channel_open_failure, data_message,
}
use ssh.Message.Parse.{
  parse_confirmation, parse_failure, parse_data, parse_extended, parse_pty, parse_x11, parse_exec,
  parse_subsystem, parse_window_change, parse_signal, parse_exit_status, parse_exit_signal,
  parse_forwarding, parse_request, parse_channel_request, parse_kind, parse,
}
use ssh.Message.Layout.{IsRequest, IsMessage}

-- A parser of one part, wrapped by a constructor.
wrapped :
    {A B : Type 0} {P : A → Type 0} {Q : B → Type 0} {m : Reader Error A} (c : A → B)
    → Yields P m
    → ((a : A) → P a → Q (c a))
    → Yields Q (m >>= λ a. pure (c a))
wrapped c h k = Yields-bind _ _ h (λ a p. Yields-pure (c a) (k a p))

Yields-parse_pty : Yields (λ r. IsRequest (pty r)) parse_pty
unfolding parse_pty
Yields-parse_pty = search wire_yields depth 12

Yields-parse_x11 : Yields (λ r. IsRequest (x11 r)) parse_x11
unfolding parse_x11
Yields-parse_x11 = search wire_yields depth 12

Yields-parse_window_change : Yields (λ r. IsRequest (window_change r)) parse_window_change
unfolding parse_window_change
Yields-parse_window_change = search wire_yields depth 12

Yields-parse_exit_signal : Yields (λ r. IsRequest (exit_signal r)) parse_exit_signal
unfolding parse_exit_signal
Yields-parse_exit_signal = search wire_yields depth 12

Yields-parse_exec : Yields (λ r. IsRequest (exec r)) parse_exec
unfolding parse_exec
Yields-parse_exec = search wire_yields depth 12

Yields-parse_subsystem : Yields (λ r. IsRequest (subsystem r)) parse_subsystem
unfolding parse_subsystem
Yields-parse_subsystem = search wire_yields depth 12

Yields-parse_signal : Yields (λ r. IsRequest (signal r)) parse_signal
unfolding parse_signal
Yields-parse_signal = search wire_yields depth 12

Yields-parse_exit_status : Yields (λ r. IsRequest (exit_status r)) parse_exit_status
unfolding parse_exit_status
Yields-parse_exit_status = search wire_yields depth 12

Yields-parse_forwarding : Yields (λ r. IsRequest (forward_port r)) parse_forwarding
unfolding parse_forwarding
Yields-parse_forwarding =
    search (wire_yields, lift-then, ip_of-IsIpAddr, from_be_bytes-IsPort) depth 14

Yields-parse_request : (t : Bytes) → Yields IsRequest (parse_request t)
unfolding parse_request
Yields-parse_request t =
    search
      (
        Yields-if,
        Yields-fail,
        Yields-pure,
        wrapped pty Yields-parse_pty,
        wrapped x11 Yields-parse_x11,
        wrapped exec Yields-parse_exec,
        wrapped subsystem Yields-parse_subsystem,
        wrapped window_change Yields-parse_window_change,
        wrapped signal Yields-parse_signal,
        wrapped exit_status Yields-parse_exit_status,
        wrapped exit_signal Yields-parse_exit_signal,
        wrapped forward_port Yields-parse_forwarding,
      )
      depth 30

Yields-parse_channel_request : Yields (λ m. IsMessage (channel_request m)) parse_channel_request
unfolding parse_channel_request
Yields-parse_channel_request =
    ssh_bytes-then _
      λ t _. bool-then _ λ b. Yields-bind _ _ (Yields-parse_request t) (λ r h. Yields-pure _ h)

Yields-parse_failure : Yields (λ m. IsMessage (channel_open_failure m)) parse_failure
unfolding parse_failure
Yields-parse_failure = search wire_yields depth 8

Yields-parse_extended : Yields (λ m. IsMessage (data_message m)) parse_extended
unfolding parse_extended
Yields-parse_extended = search wire_yields depth 8

none-Fits : Fits 0
none-Fits = omega arith

Yields-parse_data : Yields (λ m. IsMessage (data_message m)) parse_data
unfolding parse_data
Yields-parse_data = ssh_bytes-then _ (λ bs h. Yields-pure _ (none-Fits, h))

Yields-parse_confirmation : Yields (λ m. IsMessage (channel_open_confirmation m)) parse_confirmation
unfolding parse_confirmation
Yields-parse_confirmation = var_int-then _ (λ v h. Yields-pure _ h)

Yields-parse_kind : (k : ℕ) → Yields IsMessage (parse_kind k)
unfolding parse_kind
Yields-parse_kind k =
    search
      (
        Yields-if,
        Yields-fail,
        wrapped channel_request Yields-parse_channel_request,
        wrapped channel_open_confirmation Yields-parse_confirmation,
        wrapped channel_open_failure Yields-parse_failure,
        wrapped data_message Yields-parse_data,
        wrapped data_message Yields-parse_extended,
      )
      depth 20

pub Yields-parse : Yields IsMessage parse
unfolding parse
Yields-parse = var_int-then _ (λ k _. Yields-parse_kind k)

-- On a stream of bytes, every message that `parse` returns fits the wire: integers of at most 62
-- bits, strings of bytes within the limit, addresses of 4 or 16 octets and ports of 16 bits.
pub parse-IsMessage :
    (s : Stream) (m : Message) → AreBytes s.bytes → (parse s).0 ≡ ok m → IsMessage m
parse-IsMessage = Yields-parse.result
