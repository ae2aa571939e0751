-- ===== src/Lib.antt =====
-- SSH3 in Rust: the wire format, channels, conversations, authentication, server and
-- client.
--
-- The crates under crates/ carry SSH channels over QUIC streams. `ssh3-proto` holds the wire format.
-- `ssh3-core` holds a channel, which parses messages from the receiving half of a stream and writes
-- them to the sending half, and a conversation, which owns channels, accepts those that the peer
-- opens and hands out the datagrams that arrive for them. `ssh3-quinn` reads the header of each
-- stream that the peer opens and routes it to the queue of its conversation. `ssh3-auth` builds and
-- checks tokens and reads the authorized identities. `ssh3-server` decides who may connect, and as
-- whom, and runs the session that a channel asks for. `ssh3-client` presents the user, also with a
-- key of the SSH agent, and asks for a session. `ssh3-h3` opens conversations over HTTP/3.
--
-- Parts, and the code that they model:
--   Base          Shared names, Boolean tests, lists, bytes and maps.
--   Io            Streams, sinks and fallible operations, for `std::io::Read` and the traits of
--                 crates/ssh3-core/src/transport.rs. `Reads`, `Yields`, `Stable`, `Agrees` and
--                 `Takes` are properties of readers that are closed under sequencing.
--   Wire          crates/ssh3-proto/src/wire.rs: integers of 1, 2, 4 or 8 bytes, strings, booleans.
--   Forwarding    The addresses and protocols of crates/ssh3-proto/src/message.rs.
--   Message       crates/ssh3-proto/src/message.rs: types, `Parse`, `Encode`. `Layout` is the wire
--                 form in plain terms, which the proofs relate to both.
--   Header        crates/ssh3-proto/src/channel.rs: the header of a stream, the forwarding target.
--   Queue         crates/ssh3-core/src/queue.rs: `AcceptQueue` and `DatagramQueue`.
--   Channel       crates/ssh3-core/src/channel.rs: `State`, the parser `Parse`, `Receive`
--                 (wait_for_confirmation, next_message) and `Transmit` (maybe_send_header,
--                 send_message, confirm_channel, write_data, datagrams).
--   Conversation  crates/ssh3-core/src/conversation.rs: `Manager` is ChannelsManager and the calls
--                 that register channels, `Datagrams` is add_datagram. Channels that the code
--                 shares by Arc live in a heap, and maps and queues hold locations.
--   Incoming      crates/ssh3-quinn/src/channel.rs: `Read` is read_incoming_channel, `Route` is
--                 IncomingChannelRouter.
--   Text          The functions on `str` of Rust's standard library that the parts below call.
--   Auth          crates/ssh3-auth/src/lib.rs: `Token` and `Signature` are the bearer token, `Oidc`
--                 is verify_oidc_identity_token, `Identities` the files of authorized identities.
--                 JSON, base64, keys and signatures are the record `Crates`.
--   Server        crates/ssh3-server/src/lib.rs: `Config` (ServerConfig and its checks), `Request`
--                 (requested_username, parse_request_authorization, resolve_session_user),
--                 `Authorize` (authorize_request), `Handler` (handle_conversation), `Session`
--                 (handle_session_channel and spawn_session_process), `Output`
--                 (pump_process_output).
--   Client        crates/ssh3-client/src/lib.rs: `Credentials` (precomputed_authorization_header),
--                 `Requests` (send_initial_session_requests and its like), `Capture`
--                 (run_capture_on_client), `Race` (connect_resolved_target). `Agent` is
--                 crates/ssh3-client/src/agent.rs.
--   Http          crates/ssh3-h3/src/lib.rs: the CONNECT request, accept_conversation, and
--                 route_registered_datagram.
--   Examples      Concrete inputs for the theorems with conditions.
--
-- A reader is a function from a stream to a result and the rest of the stream. A stream is the bytes
-- that will arrive and the error behind them. A sink is the bytes sent so far and what the next
-- writes will meet. A writer takes the bytes written so far, and `none` is a panic. Numbers are
-- natural; each width of the code is a condition where it matters, and `usize` has 64 bits.
--
-- What the server does to the world is a trace of calls. The answer to a call is a parameter that may
-- depend on the calls before it. Text is a list of characters, each its number. The arms of `cfg`
-- that are modelled are those for Linux.
--
-- Fuel: `next_message` may go round once for each confirmation and takes a byte each time, so it
-- has one round more than the stream has bytes. `chunks` has the length of the data.
--
-- Not modelled: the wake-ups of tokio's Notify (an operation that waits is one round, which finds
-- what it waits for or does not), the interleaving of several tasks inside one operation,
-- `cancel_read`, Display and Error implementations, the connection that gives out new streams, the
-- check of system passwords, the agent's socket on the server, the copying between sockets
-- and channels, the calls of the h3 and quinn libraries, and the client's terminal, browser and
-- command line.
pub mod Auth
pub mod Base
pub mod Client
pub mod Text
pub mod Http
pub mod Io
pub mod Server
pub mod Wire
pub mod Forwarding
pub mod Message
pub mod Header
pub mod Channel
pub mod Incoming
pub mod Queue
pub mod Conversation
pub mod Examples
