-- ===== src/Server/Handler/Guarded.antt =====
-- No channel is served before its conversation is authorized.
use ssh.Base.{
  ◌≡◌, ap, ◌∙◌, ◌≢◌, bytes_eq, codes, refl, ◌⊎◌, inl, inr, ℕ, Bytes, List, [], ◌∷◌, All, Bool, true,
  false, Option, none, arith, lookup-remove, if◌then◌else◌,
}
use ssh.Io.{IoError, Result, ok, err, resume, pure, lift, ◌>>=◌}
use ssh.Text.{Text}
use ssh.Auth.{AuthError}
use ssh.Conversation.{AcceptedChannel, plain, udp_forwarding, tcp_forwarding}
use ssh.Incoming.Route.{IncomingChannelRouter, unregister_conversation}
use ssh.Server.Config.{ServerConfig}
use ssh.Server.Request.{Request, SessionUser, parse_request_authorization, resolve_session_user}
use ssh.Server.Authorize.{Surroundings, authorize_request}
use ssh.Server.Authorize.Soundness.{IsAuthorized, authorize_request-IsAuthorized}
use ssh.Http.{Response, ok_with}
use ssh.Io.Fallible.{map_err}
use ssh.Server.Handler.{
  send_built, http, Service, session, unsupported, udp, tcp, handle_plain_channel,
  handle_accepted_channel, Call, send_response, finish, route_channels, route_datagrams, serve,
  Calls, ServerError, Handler, Arrival, call, reject, start, accept_loop, serve_conversation,
  answer_authorized, answer_resolved, answer_request, handle_conversation,
}

-- A response other than success, or the end of the stream.
abbrev pub IsRefusal : Call → Type 0
IsRefusal (send_response response) = response.status ≢ 200
IsRefusal finish = Unit {0}
IsRefusal route_channels = ⊥
IsRefusal route_datagrams = ⊥
IsRefusal (serve service) = ⊥

abbrev pub IsService : SessionUser → Service → Type 0
IsService user (session channel session_user) = session_user ≡ user
IsService user (unsupported channel) = Unit {0}
IsService user (udp channel remote_addr) = Unit {0}
IsService user (tcp channel remote_addr) = Unit {0}

-- A session that is served is the user's.
abbrev pub IsFor : SessionUser → Call → Type 0
IsFor user (serve service) = IsService user service
IsFor user (send_response response) = Unit {0}
IsFor user finish = Unit {0}
IsFor user route_channels = Unit {0}
IsFor user route_datagrams = Unit {0}

module _ (P : Call → Type 0) where
  -- The handler makes such calls only.
  abbrev Makes : Handler → Type 0
  Makes m = (calls : Calls) → All P calls → All P (m calls).1

  resumed :
      (outcome : Result ServerError (Unit {0}) × Calls) (next : Unit {0} → Handler)
      → All P outcome.1
      → Makes (next tt)
      → All P (resume outcome.0 next outcome.1).1
  resumed (ok done, calls) next all go = go calls all
  resumed (err e, calls) next all go = all

  >>=-Makes :
      (m : Handler) (next : Unit {0} → Handler) → Makes m → Makes (next tt) → Makes (m >>= next)
  unfolding ◌>>=◌
  >>=-Makes m next first rest calls all = resumed (m calls) next (first calls all) rest

  module _ (answer : Calls → Call → Result ServerError (Unit {0})) where
    call-Makes : (c : Call) → P c → Makes (call answer c)
    unfolding call
    call-Makes c p calls all = (p, all)

    send_built-Makes :
        (r : Result ServerError Response)
        → ((response : Response) → r ≡ ok response → P (send_response response))
        → Makes (send_built answer r)
    unfolding send_built call
    send_built-Makes (err e) p calls all = all
    send_built-Makes (ok response) p calls all = (p response refl, all)

    start-Makes : (c : Call) → P c → Makes (start answer c)
    unfolding start
    start-Makes c p calls all = (p, all)

abbrev status_in : Result ServerError Response → ℕ
status_in (ok response) = response.status
status_in (err e) = 0

built_status :
    (made : Response) (status : ℕ) (r : Result ℕ (Unit {0})) (response : Response)
    → made.status ≢ status
    → map_err http (ok_with made r) ≡ ok response
    → response.status ≢ status
built_status made status (ok done) response other e = λ same. other (ap status_in e ∙ same)
built_status made status (err e') response other e = cc

module _ (answer : Calls → Call → Result ServerError (Unit {0})) (built : ℕ → Result ℕ (Unit {0}))
    (is_header_value : Text → Bool) where
  reject-Makes :
      (status : ℕ) → status ≢ 200 → Makes IsRefusal (reject answer built is_header_value status)
  unfolding reject
  reject-Makes status other =
      let plain : Response = record { status = status; server = none } in
      >>=-Makes IsRefusal (send_built answer (map_err http (ok_with plain (built status)))) _
        (send_built-Makes IsRefusal answer _
          (λ response e. built_status plain 200 (built status) response other e))
        (call-Makes IsRefusal answer finish tt)

  module _ (user : SessionUser) where
    accepted-IsService :
        (accepted : AcceptedChannel) (channel_type : Bytes)
        → IsService user (handle_accepted_channel accepted channel_type user)
    unfolding handle_accepted_channel handle_plain_channel
    accepted-IsService (plain channel) channel_type =
        plain_service (bytes_eq channel_type (codes "session"))
      where
        plain_service :
            (b : Bool) → IsService user (if b then session channel user else unsupported channel)
        plain_service true = refl
        plain_service false = tt
    accepted-IsService (udp_forwarding channel remote_addr) channel_type = tt
    accepted-IsService (tcp_forwarding channel remote_addr) channel_type = tt

    accept_loop-Makes :
        (arrivals : List (Result ServerError Arrival))
        → Makes (IsFor user) (accept_loop answer user arrivals)
    unfolding accept_loop pure lift
    accept_loop-Makes [] = λ calls all. all
    accept_loop-Makes (err e ∷ arrivals) = λ calls all. all
    accept_loop-Makes (ok (accepted, channel_type) ∷ arrivals) =
        let serving : Call = serve (handle_accepted_channel accepted channel_type user) in
        >>=-Makes (IsFor user) (start answer serving) (λ u. accept_loop answer user arrivals)
          (start-Makes (IsFor user) answer serving (accepted-IsService accepted channel_type))
          (accept_loop-Makes arrivals)

    serve_conversation-Makes :
        (server_header : Text) (arrivals : List (Result ServerError Arrival))
        → Makes
            (IsFor user)
            (serve_conversation answer built is_header_value server_header user arrivals)
    unfolding serve_conversation
    serve_conversation-Makes server_header arrivals =
        let looping : Unit {0} → Handler = λ u. accept_loop answer user arrivals in
        let routing : Unit {0} → Handler = λ u. start answer route_datagrams >>= looping in
        let opening : Unit {0} → Handler = λ u. start answer route_channels >>= routing in
        >>=-Makes (IsFor user) (send_built answer _) opening
          (send_built-Makes (IsFor user) answer _ (λ response e. tt))
          (>>=-Makes (IsFor user) (start answer route_channels) routing
            (start-Makes (IsFor user) answer route_channels tt)
            (>>=-Makes (IsFor user) (start answer route_datagrams) looping
              (start-Makes (IsFor user) answer route_datagrams tt) (accept_loop-Makes arrivals)))

  module _ {ℓ} {PublicKey : Type ℓ} (around : Surroundings PublicKey) (decode : Text → Option Bytes)
      (from_utf8 : Bytes → Option Text) (lookup : Text → Result IoError SessionUser)
      (config : ServerConfig) where
    -- The calls refuse the request; or it was an SSH3 request, its user was found and is authorized,
    -- and every session is served as that user.
    abbrev pub IsGuarded : Request → Bytes → Calls → Type ℓ
    IsGuarded request conversation_id calls =
        let authorization = parse_request_authorization decode from_utf8 request in
        All IsRefusal calls
        ⊎ ((request.is_ssh3_connect ≡ true)
            × (user : SessionUser) × (resolve_session_user lookup request authorization config
                ≡ ok user)
            × IsAuthorized around user conversation_id config authorization
            × All (IsFor user) calls)

    answer_authorized-IsGuarded :
        (request : Request) (user : SessionUser) (conversation_id : Bytes)
        (arrivals : List (Result ServerError Arrival)) (authorized : Result AuthError Bool)
        → request.is_ssh3_connect ≡ true
        → (let authorization = parse_request_authorization decode from_utf8 request in
            (resolve_session_user lookup request authorization config ≡ ok user)
            × (authorize_request around authorization user conversation_id config ≡ authorized))
        → IsGuarded request conversation_id
            (answer_authorized answer built is_header_value authorized config.server_header user
              arrivals []).1
    unfolding answer_authorized lift
    answer_authorized-IsGuarded request user conversation_id arrivals (err e) connect facts = inl tt
    answer_authorized-IsGuarded request user conversation_id arrivals (ok false) connect facts =
        inl (reject-Makes 401 (λ e. omega (arith, e)) [] tt)
    answer_authorized-IsGuarded request user conversation_id arrivals (ok true) connect
          (resolved, admitted) =
        inr (
          connect,
          user,
          resolved,
          authorize_request-IsAuthorized around _ user conversation_id config admitted,
          serve_conversation-Makes user config.server_header arrivals [] tt,
        )

    answer_resolved-IsGuarded :
        (request : Request) (conversation_id : Bytes) (arrivals : List (Result ServerError Arrival))
        (resolved : Result IoError SessionUser)
        → request.is_ssh3_connect ≡ true
        → (resolve_session_user lookup request
              (parse_request_authorization decode from_utf8 request)
              config
            ≡ resolved)
        → IsGuarded request conversation_id
            (answer_resolved answer built is_header_value around decode from_utf8 lookup config
              (parse_request_authorization decode from_utf8 request)
              resolved
              conversation_id
              arrivals
              []).1
    unfolding answer_resolved
    answer_resolved-IsGuarded request conversation_id arrivals (err e) connect found =
        inl (reject-Makes 401 (λ e. omega (arith, e)) [] tt)
    answer_resolved-IsGuarded request conversation_id arrivals (ok user) connect found =
        answer_authorized-IsGuarded request user conversation_id arrivals _ connect (found, refl)

    -- Whatever the answers on the control stream and the channels that arrive, the calls of the
    -- handler only refuse the request, or it was an SSH3 request whose user was found and is
    -- authorized, and every session that is served is that user's; and the conversation is not
    -- registered afterwards.
    pub handle_conversation-IsGuarded :
        (request : Request) (control_stream_id : ℕ) (conversation_id : Bytes)
        (arrivals : List (Result ServerError Arrival)) (router : IncomingChannelRouter)
        → (let (result, calls, after) =
              handle_conversation answer built is_header_value around decode from_utf8 lookup config
                request control_stream_id conversation_id arrivals router in
            IsGuarded request conversation_id calls
            × (after.conversations control_stream_id ≡ none))
    unfolding handle_conversation answer_request unregister_conversation
    handle_conversation-IsGuarded request control_stream_id conversation_id arrivals router = (
      branches request.is_ssh3_connect refl,
      lookup-remove control_stream_id router.conversations,
    )
      where
        branches :
            (b : Bool)
            → request.is_ssh3_connect ≡ b
            → IsGuarded request conversation_id
                ((if b
                    then (let authorization =
                          parse_request_authorization decode from_utf8 request in
                        answer_resolved answer built is_header_value around decode from_utf8 lookup
                          config authorization
                          (resolve_session_user lookup request authorization config)
                          conversation_id
                          arrivals)
                    else reject answer built is_header_value 404)
                  []).1
        branches true connect =
            answer_resolved-IsGuarded request conversation_id arrivals _ connect refl
        branches false connect = inl (reject-Makes 404 (λ e. omega (arith, e)) [] tt)
