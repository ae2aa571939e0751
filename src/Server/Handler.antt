-- ===== src/Server/Handler.antt =====
-- `handle_conversation`, and which service an accepted channel gets. The answers on the control
-- stream, and the channels that arrive until the connection is closed, are parameters.
pub mod Guarded
use ssh.Base.{
  ℕ, Bytes, List, [], ◌∷◌, Bool, true, false, Option, none, bytes_eq, codes, if◌then◌else◌,
}
use ssh.Io.{IoError, Result, ok, err, Exec, pure, lift, ◌>>=◌}
use ssh.Io.Fallible.{map_err}
use ssh.Text.{Text}
use ssh.Auth.{AuthError}
use ssh.Conversation.{AcceptedChannel, plain, udp_forwarding, tcp_forwarding}
use ssh.Incoming.Route.{IncomingChannelRouter, unregister_conversation}
use ssh.Forwarding.{SocketAddr}
use ssh.Http.{Response, BuildConnectRequestError, ok_with, response_with_server_header}
use ssh.Server.Config.{ServerConfig}
use ssh.Server.Request.{
  Request, SessionUser, RequestAuthorization, parse_request_authorization, resolve_session_user,
}
use ssh.Server.Authorize.{Surroundings, authorize_request}

-- The handler of a channel: `handle_session_channel` for the session's user, the message that the
-- type is unsupported, `handle_udp_forwarding` or `handle_tcp_forwarding`.
pub data Service : Type 0 where
  session : ℕ → SessionUser → Service
  unsupported : ℕ → Service
  udp : ℕ → SocketAddr → Service
  tcp : ℕ → SocketAddr → Service

unfoldable pub handle_plain_channel : ℕ → Bytes → SessionUser → Service
handle_plain_channel channel channel_type session_user =
    if bytes_eq channel_type (codes "session")
    then session channel session_user
    else unsupported channel

unfoldable pub handle_accepted_channel : AcceptedChannel → Bytes → SessionUser → Service
unfolding handle_plain_channel
handle_accepted_channel (plain channel) channel_type session_user =
    handle_plain_channel channel channel_type session_user
handle_accepted_channel (udp_forwarding channel remote_addr) channel_type session_user =
    udp channel remote_addr
handle_accepted_channel (tcp_forwarding channel remote_addr) channel_type session_user =
    tcp channel remote_addr

pub data Call : Type 0 where
  -- `send_response`, `finish`
  send_response : Response → Call
  finish : Call
  -- The tasks that route the channels and the datagrams of the connection.
  route_channels : Call
  route_datagrams : Call
  serve : Service → Call

-- The calls so far, the last one first.
abbrev pub Calls : Type 0
Calls = List Call

-- `ServerError`, as far as the handler makes one; `stream` is an error of the control stream or of
-- the conversation.
pub data ServerError : Type 0 where
  auth : AuthError → ServerError
  -- An error of the `http` crate is a number.
  http : ℕ → ServerError
  build_response : BuildConnectRequestError → ServerError
  stream : ℕ → ServerError

abbrev pub Handler : Type 0
Handler = Exec Calls ServerError (Unit {0})

-- A channel that was accepted, with its type.
abbrev pub Arrival : Type 0
Arrival = AcceptedChannel × Bytes

module _ (answer : Calls → Call → Result ServerError (Unit {0})) where
  unfoldable pub call : Call → Handler
  call c calls = (answer calls c, c ∷ calls)

  -- A task that is spawned cannot fail the handler.
  unfoldable pub start : Call → Handler
  start c calls = (ok tt, c ∷ calls)

  -- The loop, until the connection is closed at the end of the list or accepting fails.
  unfoldable pub accept_loop : SessionUser → List (Result ServerError Arrival) → Handler
  unfolding ◌>>=◌ pure start handle_accepted_channel
  accept_loop session_user [] = pure tt
  accept_loop session_user (err e ∷ arrivals) = lift (err e)
  accept_loop session_user (ok (accepted, channel_type) ∷ arrivals) = do
    _ ← start (serve (handle_accepted_channel accepted channel_type session_user))
    accept_loop session_user arrivals

  -- A response that was built is sent.
  unfoldable pub send_built : Result ServerError Response → Handler
  unfolding call
  send_built (err e) calls = (err e, calls)
  send_built (ok response) calls = call (send_response response) calls

-- `built` is what `Response::builder` answers for a status, `is_header_value` is
-- `HeaderValue::from_str`.
module _ (answer : Calls → Call → Result ServerError (Unit {0})) (built : ℕ → Result ℕ (Unit {0}))
    (is_header_value : Text → Bool) where
  -- A response with a status, and the end of the stream.
  unfoldable pub reject : ℕ → Handler
  unfolding ◌>>=◌ send_built call
  reject status = do
    _ ←
        send_built answer
          (map_err http (ok_with (record { status = status; server = none }) (built status)))
    call answer finish

  unfoldable pub serve_conversation :
      Text → SessionUser → List (Result ServerError Arrival) → Handler
  unfolding ◌>>=◌ send_built start accept_loop response_with_server_header
  serve_conversation server_header session_user arrivals = do
    _ ← send_built answer (
        map_err build_response
          (response_with_server_header built is_header_value 200 server_header))
    _ ← start answer route_channels
    _ ← start answer route_datagrams
    accept_loop answer session_user arrivals

  unfoldable pub answer_authorized :
      Result AuthError Bool → Text → SessionUser → List (Result ServerError Arrival) → Handler
  unfolding reject serve_conversation
  answer_authorized (err e) server_header session_user arrivals = lift (err (auth e))
  answer_authorized (ok false) server_header session_user arrivals = reject 401
  answer_authorized (ok true) server_header session_user arrivals =
      serve_conversation server_header session_user arrivals

  module _ {ℓ} {PublicKey : Type ℓ} (around : Surroundings PublicKey) (decode : Text → Option Bytes)
      (from_utf8 : Bytes → Option Text) (lookup : Text → Result IoError SessionUser)
      (config : ServerConfig) where
    unfoldable pub answer_resolved :
        RequestAuthorization
        → Result IoError SessionUser
        → Bytes
        → List (Result ServerError Arrival)
        → Handler
    unfolding reject answer_authorized authorize_request
    answer_resolved authorization (err e) conversation_id arrivals = reject 401
    answer_resolved authorization (ok session_user) conversation_id arrivals =
        answer_authorized
          (authorize_request around authorization session_user conversation_id config)
          config.server_header session_user arrivals

    unfoldable pub answer_request : Request → Bytes → List (Result ServerError Arrival) → Handler
    unfolding reject answer_resolved parse_request_authorization resolve_session_user
    answer_request request conversation_id arrivals =
        if request.is_ssh3_connect
        then (let authorization = parse_request_authorization decode from_utf8 request in
            answer_resolved authorization (resolve_session_user lookup request authorization config)
              conversation_id arrivals)
        else reject 404

    -- Whatever the answer, the conversation is unregistered at the end.
    unfoldable pub handle_conversation :
        Request
        → ℕ
        → Bytes
        → List (Result ServerError Arrival)
        → IncomingChannelRouter
        → Result ServerError (Unit {0}) × Calls × IncomingChannelRouter
    unfolding answer_request unregister_conversation
    handle_conversation request control_stream_id conversation_id arrivals router =
        let (result, calls) = answer_request request conversation_id arrivals [] in
        (result, calls, (unregister_conversation control_stream_id router).1)
