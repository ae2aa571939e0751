-- ===== src/Conversation/Datagrams.antt =====
-- Datagrams that arrive for a channel: `Conversation::add_datagram` of
-- crates/ssh3-core/src/conversation.rs.
use ssh.Base.{ℕ, Bytes, Option, none, some}
use ssh.Io.{unexpected_eof, Stream, Exec, Result, ok, err}
use ssh.Wire
use ssh.Queue.Datagram
use ssh.Channel.State.{Channel}
use ssh.Channel.Transmit.{wait_add_datagram}
use ssh.Conversation.{
  ConversationError, proto, channel_not_found, Conversation, store, dangling_datagram_queue_size,
}
use ssh.Conversation.Manager.{get_channel, add_dangling_datagrams_queue}

-- A `Cursor` over the datagram.
abbrev pub cursor : Bytes → Stream
cursor datagram = record { bytes = datagram; ending = unexpected_eof }

-- One round: with the channel's queue full the task waits.
abbrev pub add_known :
    Option Channel
    → ℕ
    → Bytes
    → Conversation
    → Option (Result ConversationError (Unit {0}) × Conversation)
add_known none location payload v = none
add_known (some c) location payload v = elim (wait_add_datagram c payload) [
  | none ↦ none
  | some c' ↦ some (ok tt, store location c' v)
]

abbrev pub add_unknown : ℕ → Bytes → Exec Conversation ConversationError (Unit {0})
add_unknown channel_id payload v =
    let (added, queue) = Datagram.add (Datagram.new dangling_datagram_queue_size) payload in
    (err (channel_not_found channel_id), add_dangling_datagrams_queue channel_id queue v)

abbrev pub add_for :
    Option ℕ
    → ℕ
    → Bytes
    → Conversation
    → Option (Result ConversationError (Unit {0}) × Conversation)
add_for (some location) channel_id payload v = add_known (v.heap location) location payload v
add_for none channel_id payload v = some (add_unknown channel_id payload v)

abbrev pub add_parsed :
    Result Wire.Error ℕ × Stream
    → Conversation
    → Option (Result ConversationError (Unit {0}) × Conversation)
add_parsed (err e, rest) v = some (err (proto e), v)
add_parsed (ok channel_id, rest) v = add_for (get_channel v channel_id) channel_id rest.bytes v

-- `none` means that the task waits for room in the channel's queue.
unfoldable pub add_datagram :
    Bytes → Conversation → Option (Result ConversationError (Unit {0}) × Conversation)
add_datagram datagram v = add_parsed (Wire.read_var_int (cursor datagram)) v
