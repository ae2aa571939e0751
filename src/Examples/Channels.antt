-- ===== src/Examples/Channels.antt =====
-- Channels: what they receive and send, and their queues.
use ssh.Base.{
  ℕ, zero, suc, Bytes, List, [], ◌∷◌, ◌++◌, ◌≤◌, ◌<◌, ◌≡◌, refl, true, false, none, some, codes,
  length, arith, All,
}
use ssh.Io.{Stream, Result, unexpected_eof, broken_pipe, ok}
use ssh.Io.Sink.{Sink, Fault}
use ssh.Wire.Strings.{ssh_string}
use ssh.Message.{Message, data_message}
use ssh.Message.Layout.{layout}
use ssh.Queue.Datagram.{DatagramQueue}
use ssh.Queue.Datagram
use ssh.Queue.Fifo.{Op, add_op, wait_add_op, next_op, wait_next_op, run, start, run_in_order}
use ssh.Channel.Error.{ChannelError}
use ssh.Channel.State.{Channel}
use ssh.Channel.Receive.{next_message}
use ssh.Channel.Receive.Total.{next_message_total}
use ssh.Channel.Receive.Answers.{confirmations, answer, heard, receiving, next_message-answers}
use ssh.Channel.Transmit.{write_data}
use ssh.Channel.Transmit.Order.{header_bytes, wrote, send_all, layouts, send_all-layouts}
use ssh.Channel.Transmit.Pieces.{concat, IsPiece, packets, overhead, room, write_data-packets}
use ssh.Channel.Transmit.Packets.{packet, write_data_oversized}

abbrev pub silent : Stream
silent = record { bytes = []; ending = unexpected_eof }

abbrev pub open_sink : Sink
open_sink = record { sent = []; closed = false; outcomes = [] }

abbrev channel_of : ℕ → Sink → Channel
channel_of size sink = record {
  info = record {
    max_packet_size = size;
    conversation_stream_id = 4;
    conversation_id = [];
    channel_id = 8;
    channel_type = codes "session";
  };
  confirm_sent = true;
  confirm_received = false;
  header = some (1 ∷ 2 ∷ 3 ∷ []);
  datagram_sender = none;
  recv = silent;
  send = sink;
  datagrams_queue = Datagram.new 2;
}

abbrev pub small : Channel
small = channel_of 5 open_sink

abbrev large : Channel
large = channel_of 1000 open_sink

abbrev pub hello : Message
hello = data_message (record { data_type = 0; contents = codes "hello" })

answers_example :
    next_message (receiving small (confirmations (7 ∷ 9 ∷ []) ++ layout hello) silent)
    ≡ some (
      answer true hello,
      record small { recv = silent; confirm_received = heard false (7 ∷ 9 ∷ []) },
    )
answers_example =
    next_message-answers small (7 ∷ 9 ∷ []) hello silent (omega arith) (omega arith) tt

total_example : (r : Result ChannelError Message × Channel) × (next_message small ≡ some r)
total_example = next_message_total small

pub three_bytes : overhead 0 ≡ 3
unfolding layout ssh_string ssh.Wire.VarInt.var_int
three_bytes = refl

packets_example :
    (pieces : List Bytes) × (write_data (codes "hello") 0 small ≡ (
      ok (length (packets 0 pieces)),
      wrote small (header_bytes small.header ++ packets 0 pieces),
    ))
    × (concat pieces ≡ codes "hello")
    × All (IsPiece (room small 0)) pieces
packets_example =
    write_data-packets (codes "hello") 0 small (omega arith) (omega arith) refl
      (omega (arith, three_bytes)) (omega arith)

-- Sixteen bytes, n times.
abbrev sixteens : ℕ → Bytes
sixteens zero = []
sixteens (suc n) = codes "0123456789abcdef" ++ sixteens n

oversized_packet_example :
    (piece : Bytes) × (rest : List Bytes) × (write_data (sixteens 5) 0 (channel_of 67 open_sink) ≡ (
      ok (length (packets 0 (piece ∷ rest))),
      wrote (channel_of 67 open_sink) ((1 ∷ 2 ∷ 3 ∷ []) ++ (packet 0 piece ++ packets 0 rest)),
    ))
    × (67 < length (packet 0 piece))
oversized_packet_example =
    write_data_oversized (sixteens 5) 0 (channel_of 67 open_sink) (omega arith) (omega arith) refl
      (omega (arith, three_bytes)) (omega arith) (omega (arith, three_bytes))

send_all_example :
    send_all (hello ∷ hello ∷ []) small
    ≡ (ok tt, wrote small ((1 ∷ 2 ∷ 3 ∷ []) ++ layouts (hello ∷ hello ∷ [])))
send_all_example = send_all-layouts hello (hello ∷ []) small (omega arith) refl

abbrev fault : Fault
fault = record { accepted = 2; error = broken_pipe }

abbrev broken : Sink
broken = record { sent = []; closed = false; outcomes = some fault ∷ [] }

abbrev some_ops : List Op
some_ops = add_op (1 ∷ []) ∷ wait_next_op ∷ wait_add_op (2 ∷ []) ∷ next_op ∷ []

in_order_example :
    ((run (start 1) some_ops).given ++ (run (start 1) some_ops).state.queue
      ≡ (run (start 1) some_ops).taken)
    × (length (run (start 1) some_ops).state.queue ≤ 1)
in_order_example = run_in_order 1 some_ops
