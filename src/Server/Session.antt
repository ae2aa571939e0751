-- ===== src/Server/Session.antt =====
-- The session channel: what it keeps, and what it does to the world. The operating system, the
-- channel's writes and the decoding of text are a parameter, the `World`, whose answers may depend
-- on all that was done before.
pub mod Signals
pub mod Spawn
pub mod Step
pub mod Order
pub mod Input
use ssh.Base.{ℕ, Bytes, List, [], ◌∷◌, Bool, true, false, Option, none, some, ltb, if◌then◌else◌}
use ssh.Io.{Result, Exec}
use ssh.Text.{Text}
use ssh.Message.{PtyRequest, WindowChangeRequest, ChannelRequest}
use ssh.Server.Session.Signals.{Signal}

-- `SessionPtySize`
pub record PtySize : Type 0 where
  pub char_width : ℕ
  pub char_height : ℕ
  pub pixel_width : ℕ
  pub pixel_height : ℕ

unfoldable pub clamp_u64_to_u16 : ℕ → ℕ
clamp_u64_to_u16 value = if ltb 65535 value then 65535 else value

unfoldable pub from_pty_request : PtyRequest → PtySize
unfolding clamp_u64_to_u16
from_pty_request request = record {
  char_width = clamp_u64_to_u16 request.char_width;
  char_height = clamp_u64_to_u16 request.char_height;
  pixel_width = clamp_u64_to_u16 request.pixel_width;
  pixel_height = clamp_u64_to_u16 request.pixel_height;
}

unfoldable pub from_window_change : WindowChangeRequest → PtySize
unfolding clamp_u64_to_u16
from_window_change request = record {
  char_width = clamp_u64_to_u16 request.char_width;
  char_height = clamp_u64_to_u16 request.char_height;
  pixel_width = clamp_u64_to_u16 request.pixel_width;
  pixel_height = clamp_u64_to_u16 request.pixel_height;
}

pub record PendingPty : Type 0 where
  pub term : Option Text
  pub size : PtySize

pub data SessionCommand : Type 0 where
  shell : SessionCommand
  exec : Text → SessionCommand

pub data SessionInput : Type 0 where
  pipe : SessionInput
  pty : SessionInput

-- `controller` says whether there is a `PtyController`.
pub record RunningSession : Type 0 where
  pub input : SessionInput
  pub child_id : Option ℕ
  pub controller : Bool

-- What is set on `tokio::process::Command` before it is spawned.
pub record Process : Type 0 where
  pub program : Text
  pub args : List Text
  pub env : List (Text × Text)
  pub current_dir : Option Text
  pub owner : Option (ℕ × ℕ)
  pub arg0 : Option Text
  pub terminal : Option PtySize

-- A call that leaves the process, with what it is given. A process id of the system is far below
-- 2^31, so `child_id as i32` is the id; a group is signalled through the negated id.
pub data Effect : Type 0 where
  stderr : Bytes → Effect
  open_pty : PtySize → Effect
  spawn : Process → Effect
  -- `try_clone` of a side of the terminal
  clone_terminal : Effect
  open_agent : Effect
  write_input : Bytes → Effect
  resize : PtySize → Effect
  kill : Bool → ℕ → Signal → Effect

-- The calls so far, the last one first.
abbrev pub Trace : Type 0
Trace = List Effect

-- An error as it is displayed.
abbrev pub Fault : Type 0
Fault = Text

pub record World : Type 0 where
  -- What a call answers after the calls before it: nothing, or an error.
  pub answer : Trace → Effect → Result Fault (Unit {0})
  -- The id of the process, after the call that spawned it.
  pub child_id : Trace → Option ℕ
  -- The path of the socket that was opened.
  pub socket_path : Trace → Text
  pub from_utf8_lossy : Bytes → Text
  pub as_bytes : Text → Bytes
  -- `{:?}` of a request
  pub debug : ChannelRequest → Text
  -- The process of the server: its `PATH`, its user and group, and the directories there are.
  pub path_variable : Option Text
  pub own_uid : ℕ
  pub own_gid : ℕ
  pub is_dir : Text → Bool
  pub file_name : Text → Option Text

-- A call, which joins the trace whether it fails or not.
unfoldable pub perform : World → Effect → Exec Trace Fault (Unit {0})
perform world effect trace = (world.answer trace effect, effect ∷ trace)
