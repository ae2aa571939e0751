-- ===== src/Server/Output.antt =====
-- `pump_process_output` of crates/ssh3-server/src/lib.rs: the output of a session's process goes
-- into the channel. The reads are those of the process's pipe or terminal, a parameter: what they
-- return, one after the other, for a buffer of some size. Past the last one they return no byte.
pub mod Packets
use ssh.Base.{ℕ, Bytes, List, [], ◌∷◌, Option, none, some}
use ssh.Io.{IoError, Result, ok, err, Exec, pure, fail, ◌>>=◌}
use ssh.Channel.Error.{ChannelError}
use ssh.Channel.State.{Stop, Channel}
use ssh.Channel.Transmit.{Outcome, write_data, at_least_one}

-- `ServerError`, as far as the pump makes one.
pub data PumpError : Type 0 where
  read_failed : IoError → PumpError
  channel_failed : Stop ChannelError → PumpError

abbrev pub Reads : Type 0
Reads = List (Result IoError Bytes)

abbrev pub from_channel : {A : Type 0} → Result (Stop ChannelError) A → Result PumpError A
from_channel (ok a) = ok a
from_channel (err e) = err (channel_failed e)

-- A call on the channel; its error is the server's.
abbrev pub on_channel : {A : Type 0} → Outcome A → Exec Channel PumpError A
on_channel m c = let (r, c') = m c in (from_channel r, c')

-- A `usize` has 64 bits, so that every packet size is one.
abbrev pub buffer_size : Channel → ℕ
buffer_size channel = at_least_one channel.info.max_packet_size

unfoldable pub pump_loop : Reads → ℕ → Exec Channel PumpError (Unit {0})
unfolding ◌>>=◌ pure fail
pump_loop [] data_type = pure tt
pump_loop (err e ∷ rest) data_type = fail (read_failed e)
pump_loop (ok [] ∷ rest) data_type = pure tt
pump_loop (ok (b ∷ bs) ∷ rest) data_type = do
  _ ← on_channel (write_data (b ∷ bs) data_type)
  pump_loop rest data_type

unfoldable pub pump_process_output : Option (ℕ → Reads) → ℕ → Exec Channel PumpError (Unit {0})
unfolding pump_loop pure
pump_process_output none data_type channel = pure tt channel
pump_process_output (some reads) data_type channel =
    pump_loop (reads (buffer_size channel)) data_type channel
