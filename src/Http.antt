-- ===== src/Http.antt =====
-- crates/ssh3-h3/src/lib.rs: the request that opens a conversation, the conversations that both
-- sides make of it, and the dispatch of datagrams. The h3 library and the QUIC connection are
-- parameters.
pub mod Dispatched
use ssh.Base.{
  ℕ, Bytes, Bool, true, false, ◌&&◌, not, Option, none, some, insert, bytes_eq, codes,
  if◌then◌else◌, ◌==◌, ◌>>=◌,
}
use ssh.Io.{Stream, Result, ok, err}
use ssh.Io.Fallible.{map_err}
use ssh.Text.{Text}
use ssh.Wire
use ssh.Conversation.{ConversationError, channel_not_found, channel, Conversation, new}
use ssh.Conversation.Datagrams.{cursor, add_datagram}
use ssh.Incoming.Route.{IncomingChannelRouter, register_conversation}

-- `http::Request`, as far as the code sets and reads it.
pub record Request : Type 0 where
  pub method : Text
  pub uri : Text
  pub user_agent : Option Text
  pub protocol : Option Text

abbrev pub ssh3_protocol : Text
ssh3_protocol = codes "ssh3"

-- An error of the `http` crate is a number.
pub data BuildConnectRequestError : Type 0 where
  invalid_user_agent : BuildConnectRequestError
  http : ℕ → BuildConnectRequestError

abbrev pub with_user_agent :
    (Text → Bool) → Result ℕ (Unit {0}) → Text → Text → Result BuildConnectRequestError Request
with_user_agent is_header_value (err e) uri user_agent = err (http e)
with_user_agent is_header_value (ok built) uri user_agent =
    if is_header_value user_agent
    then ok (record {
      method = codes "CONNECT";
      uri = uri;
      user_agent = some user_agent;
      protocol = some ssh3_protocol;
    })
    else err invalid_user_agent

-- `built` is what `Request::builder` answers for the method and the URI, `is_header_value` is
-- `HeaderValue::from_str`.
unfoldable pub build_connect_request :
    (Text → Result ℕ (Unit {0}))
    → (Text → Bool)
    → Text
    → Text
    → Result BuildConnectRequestError Request
build_connect_request built is_header_value uri user_agent =
    with_user_agent is_header_value (built uri) uri user_agent

-- What was made, unless it failed.
abbrev pub ok_with {ℓ} : {A : Type ℓ} → A → Result ℕ (Unit {0}) → Result ℕ A
ok_with a (ok done) = ok a
ok_with a (err e) = err e

-- `http::Response`, as far as the code sets it.
pub record Response : Type 0 where
  pub status : ℕ
  pub server : Option Text

-- `built` is what `Response::builder` answers for the status and the header.
unfoldable pub response_with_server_header :
    (ℕ → Result ℕ (Unit {0})) → (Text → Bool) → ℕ → Text → Result BuildConnectRequestError Response
response_with_server_header built is_header_value status server_version =
    if is_header_value server_version
    then map_err http
        (ok_with (record { status = status; server = some server_version }) (built status))
    else err invalid_user_agent

abbrev pub is_protocol : Option Text → Bool
is_protocol none = false
is_protocol (some protocol) = bytes_eq protocol ssh3_protocol

unfoldable pub is_ssh3_connect : Request → Bool
is_ssh3_connect request = bytes_eq request.method (codes "CONNECT") && is_protocol request.protocol

pub data ClientConversationError : Type 0 where
  conversation_id : ClientConversationError
  stream : ClientConversationError
  unexpected_status : ℕ → ClientConversationError

-- `exported` is what the connection exports, `answered` the stream of the request and the status of
-- the response; none is the error of the call.
unfoldable pub establish_client_conversation :
    Option Bytes → Option (ℕ × ℕ) → ℕ → ℕ → Result ClientConversationError Conversation
unfolding new
establish_client_conversation none answered max_packet_size default_datagrams_queue_size =
    err conversation_id
establish_client_conversation (some id) none max_packet_size default_datagrams_queue_size =
    err stream
establish_client_conversation (some id) (some (control_stream_id, status)) max_packet_size
      default_datagrams_queue_size =
    if status == 200
    then ok (new control_stream_id id max_packet_size default_datagrams_queue_size)
    else err (unexpected_status status)

-- The errors of the h3 library are numbers.
pub data ServerConversationError : Type 0 where
  connection : ℕ → ServerConversationError
  stream : ℕ → ServerConversationError
  conversation_id : ServerConversationError

-- What `accept` of the h3 server answers, none where the connection is closed, and then what
-- resolving the request answers: the request and its stream.
abbrev pub Arrived : Type 0
Arrived = Result ℕ (Option (Result ℕ (Request × ℕ)))

unfoldable pub accept_server_conversation :
    Arrived
    → Option Bytes
    → ℕ
    → ℕ
    → Result ServerConversationError (Option (Conversation × Request))
unfolding new
accept_server_conversation (err e) exported max_packet_size default_datagrams_queue_size =
    err (ServerConversationError.connection e)
accept_server_conversation (ok none) exported max_packet_size default_datagrams_queue_size = ok none
accept_server_conversation (ok (some (err e))) exported max_packet_size
      default_datagrams_queue_size =
    err (ServerConversationError.stream e)
accept_server_conversation (ok (some (ok (request, control_stream_id)))) none max_packet_size
      default_datagrams_queue_size =
    err ServerConversationError.conversation_id
accept_server_conversation (ok (some (ok (request, control_stream_id)))) (some id) max_packet_size
      default_datagrams_queue_size =
    ok (some (new control_stream_id id max_packet_size default_datagrams_queue_size, request))

-- `Arc::new` at a place of the router's heap, and `register_conversation`.
unfoldable pub register_accepted :
    ℕ
    → Result ServerConversationError (Option (Conversation × Request))
    → IncomingChannelRouter
    → IncomingChannelRouter
unfolding register_conversation
register_accepted location (ok (some (v, request))) router =
    register_conversation location (record router { heap = insert location v router.heap })
register_accepted location (ok none) router = router
register_accepted location (err e) router = router

-- `ServerConnectionDriver::accept_conversation`
unfoldable pub accept_conversation :
    ℕ
    → Arrived
    → Option Bytes
    → ℕ
    → ℕ
    → IncomingChannelRouter
    → Result ServerConversationError (Option (Conversation × Request)) × IncomingChannelRouter
unfolding accept_server_conversation register_accepted
accept_conversation location arrived exported max_packet_size default_datagrams_queue_size router =
    let accepted =
      accept_server_conversation arrived exported max_packet_size default_datagrams_queue_size in
    (accepted, register_accepted location accepted router)

-- An error of the connection is a number.
pub data DatagramDispatchError : Type 0 where
  connection : ℕ → DatagramDispatchError
  proto : Wire.Error → DatagramDispatchError
  conversation : ConversationError → DatagramDispatchError

-- A datagram for a channel that is not registered is no error.
abbrev pub dispatched {ℓ} :
    {A : Type ℓ} → A → Result ConversationError (Unit {0}) → Result DatagramDispatchError A
dispatched a (ok done) = ok a
dispatched a (err (channel_not_found id)) = ok a
dispatched a (err (channel e)) = err (conversation (channel e))
dispatched a (err (ConversationError.proto e)) = err (conversation (ConversationError.proto e))

abbrev pub dispatch_rest :
    Result Wire.Error ℕ × Stream
    → Conversation
    → Option (Result DatagramDispatchError (Unit {0}) × Conversation)
dispatch_rest (err e, rest) v = some (err (proto e), v)
dispatch_rest (ok control_stream_id, rest) v =
    if not (control_stream_id == v.control_stream_id)
    then some (ok tt, v)
    else (add_datagram rest.bytes v >>= (λ outcome. some (dispatched tt outcome.0, outcome.1)))

unfoldable pub dispatch_datagram :
    Conversation → Bytes → Option (Result DatagramDispatchError (Unit {0}) × Conversation)
unfolding add_datagram
dispatch_datagram v datagram = dispatch_rest (Wire.read_var_int (cursor datagram)) v

abbrev pub Routing : Type 0
Routing = Option (Result DatagramDispatchError (Option ℕ) × IncomingChannelRouter)

-- The conversation at a place of the heap adds the datagram.
abbrev pub add_at : ℕ → Bytes → IncomingChannelRouter → Routing
add_at location datagram router = do
  v ← router.heap location
  (outcome, v') ← add_datagram datagram v
  some (dispatched (some location) outcome, record router { heap = insert location v' router.heap })

abbrev pub route_to : Option ℕ → Bytes → IncomingChannelRouter → Routing
route_to none datagram router = some (ok none, router)
route_to (some location) datagram router = add_at location datagram router

abbrev pub route_rest : Result Wire.Error ℕ × Stream → IncomingChannelRouter → Routing
route_rest (err e, rest) router = some (err (proto e), router)
route_rest (ok control_stream_id, rest) router =
    route_to (router.conversations control_stream_id) rest.bytes router

-- The result is the place of the conversation; `none` means that the task waits for room.
unfoldable pub route_registered_datagram : IncomingChannelRouter → Bytes → Routing
unfolding add_datagram
route_registered_datagram router datagram = route_rest (Wire.read_var_int (cursor datagram)) router
