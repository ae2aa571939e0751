-- ===== src/Client/Requests.antt =====
-- The requests by which the client opens a session and steers it.
pub mod Login
pub mod Started
use ssh.Base.{ℕ, Bytes, List, [], ◌∷◌, ◌++◌, Bool, true, false, Option, none, some, codes}
use ssh.Io.{pure, ◌>>=◌}
use ssh.Text.{Text}
use ssh.Message.{ssh_extended_data_none, ChannelRequest, ChannelRequestMessage}
use ssh.Channel.Transmit.{Outcome, send_request, write_data}

-- `SessionRequest`, with the command as bytes.
pub data SessionRequest : Type 0 where
  shell : SessionRequest
  exec : Bytes → SessionRequest

pub record TerminalSize : Type 0 where
  pub char_width : ℕ
  pub char_height : ℕ
  pub pixel_width : ℕ
  pub pixel_height : ℕ

pub record LocalTerminalInfo : Type 0 where
  pub term : Option Bytes
  pub size : TerminalSize

abbrev pub or_no_name : Option Bytes → Bytes
or_no_name none = []
or_no_name (some term) = term

unfoldable pub pty_request : LocalTerminalInfo → ChannelRequestMessage
pty_request terminal = record {
  want_reply = true;
  request = ChannelRequest.pty (record {
    term = or_no_name terminal.term;
    char_width = terminal.size.char_width;
    char_height = terminal.size.char_height;
    pixel_width = terminal.size.pixel_width;
    pixel_height = terminal.size.pixel_height;
    encoded_terminal_modes = [];
  });
}

unfoldable pub session_request : SessionRequest → ChannelRequestMessage
session_request shell = record { want_reply = true; request = ChannelRequest.shell }
session_request (exec command) = record {
  want_reply = true;
  request = ChannelRequest.exec (record { command = command });
}

-- A terminal is asked for where there is one and a shell is wanted.
unfoldable pub initial_requests :
    SessionRequest → Option LocalTerminalInfo → List ChannelRequestMessage
unfolding pty_request session_request
initial_requests shell (some terminal) = pty_request terminal ∷ session_request shell ∷ []
initial_requests shell none = session_request shell ∷ []
initial_requests (exec command) terminal = session_request (exec command) ∷ []

unfoldable pub send_requests : List ChannelRequestMessage → Outcome (Unit {0})
unfolding ◌>>=◌ pure send_request
send_requests [] = pure tt
send_requests (request ∷ requests) = do _ ← send_request request; send_requests requests

unfoldable pub send_initial_session_requests :
    SessionRequest → Option LocalTerminalInfo → Outcome (Unit {0})
unfolding send_requests initial_requests
send_initial_session_requests request terminal = send_requests (initial_requests request terminal)

unfoldable pub send_forward_agent_request : Outcome (Unit {0})
unfolding ◌>>=◌ pure write_data
send_forward_agent_request = do
  _ ← write_data (codes "forward-agent") ssh_extended_data_none
  pure tt

unfoldable pub send_window_change_request : TerminalSize → Outcome (Unit {0})
unfolding send_request
send_window_change_request size = send_request (record {
  want_reply = false;
  request = ChannelRequest.window_change (record {
    char_width = size.char_width;
    char_height = size.char_height;
    pixel_width = size.pixel_width;
    pixel_height = size.pixel_height;
  });
})

unfoldable pub send_signal_request : Bytes → Outcome (Unit {0})
unfolding send_request
send_signal_request signal_name = send_request (record {
  want_reply = false;
  request = ChannelRequest.signal (record { signal_name_without_sig = signal_name });
})
