-- ===== src/Realtime/Turns/Handlers.antt =====
-- The listeners and handlers of a connection, cut at their awaits (`handleSend`, `handleTyping`,
-- `ensureRoomIndexed` and the listeners of
-- backend/services/realtime-service/src/modules/realtime/realtime.server.ts, without Redis). The
-- limiter and the buffer act when the handler that awaits them goes on.
use backend_sketch.Prelude.{
  ℕ, Bool, true, false, String, Option, none, some, ◌++◌, any, ◌==◌, string_eq, nat_eq,
  if◌then◌else◌,
}
use backend_sketch.Prelude.JsMap.{JsMap}
use backend_sketch.Prelude.JsMap
use backend_sketch.Prelude.Result.{Result}
use backend_sketch.Api.{WsErrorReason}
use backend_sketch.Db.{is_member}
use backend_sketch.Nats.{MessageWriteCommand}
use backend_sketch.RateLimit.{RateLimitOptions, RateLimitResult}
use backend_sketch.Chats.Buffered.{BufferedInput}
use backend_sketch.Accounts.Auth.{JwtPayload}
use backend_sketch.Realtime.{ClientState, sockets_of}
use backend_sketch.Realtime.Frames.{
  text, boolean, other, RawFrame, WsServerFrame, typing, pong, nonempty_text, error_frame,
}
use backend_sketch.Realtime.Fanout.{tell_all}
use backend_sketch.Realtime.Server.{
  RealtimeCounters, say, count, count_send, count_limited_send, count_limited_typing, body_of,
  send_buffered, on_close,
}
use backend_sketch.Realtime.Setup.{accept, set_up}
use backend_sketch.Realtime.Turns.{
  Moment, Task, limits_send, joins_send, buffers_send, limits_typing, joins_typing, sets_up, Event,
  accepts, receives, resumes, closes, Server, state_of, await_task, enter, pick,
}

module _ {ℓ} {L P : Type ℓ} {E : Type 0}
    (check : String → RateLimitOptions → L → L × RateLimitResult) (send_limit typing_limit : ℕ)
    (sha256 : String → String) (publish : MessageWriteCommand → P → P × Result E (Unit {0}))
    (verify_token : String → Option JwtPayload) (preloads : Bool) (m : Moment) where
  unfoldable pub tell : ℕ → WsServerFrame → Server L P → Server L P
  unfolding say
  tell ws f v = record v {
    service =
        say m.wire m.members check send_limit typing_limit sha256 publish m.now ws f v.service;
  }

  unfoldable pub tally : (RealtimeCounters → RealtimeCounters) → Server L P → Server L P
  unfolding count
  tally f v = record v {
    service = count m.wire m.members check send_limit typing_limit sha256 publish m.now f v.service;
  }

  -- `handleSend` up to the limiter.
  unfoldable pub open_send : ClientState → RawFrame → Server L P → Server L P
  unfolding tell error_frame nonempty_text body_of await_task
  open_send state f v = elim (nonempty_text f.request_id) [
    | none ↦
        tell state.ws (error_frame WsErrorReason.validation_failed "request_id is required" none) v
    | some request_id ↦ elim (nonempty_text f.chat_id) [
      | none ↦
          tell state.ws (error_frame WsErrorReason.validation_failed "chat_id is required" none) v
      | some chat_id ↦ elim (body_of f.body) [
        | none ↦
            tell state.ws (error_frame WsErrorReason.validation_failed "body is required" none) v
        | some body ↦
            await_task
              (limits_send state.ws (record {
                sender_id = state.user_id;
                chat_id = chat_id;
                body = body;
                request_id = request_id;
              }))
              v
      ]
    ]
  ]

  -- `handleTyping` up to the limiter.
  unfoldable pub open_typing : ClientState → RawFrame → Server L P → Server L P
  unfolding tell error_frame nonempty_text await_task
  open_typing state f v = elim (nonempty_text f.chat_id) [
    | none ↦
        tell state.ws (error_frame WsErrorReason.validation_failed "chat_id is required" none) v
    | some chat_id ↦ elim f.is_typing [
      | boolean b ↦ await_task (limits_typing state.ws chat_id b) v
      | text _ ↦
          tell state.ws (error_frame WsErrorReason.validation_failed "is_typing is required" none) v
      | other ↦
          tell state.ws (error_frame WsErrorReason.validation_failed "is_typing is required" none) v
    ]
  ]

  unfoldable pub unknown_frame : ClientState → Server L P → Server L P
  unfolding tell error_frame
  unknown_frame state v =
      tell state.ws (error_frame WsErrorReason.unknown_op "Unknown frame type" none) v

  -- The listener of 'message' up to an await; a text that is no JSON is none.
  unfoldable pub receive : ClientState → Option RawFrame → Server L P → Server L P
  unfolding open_send open_typing unknown_frame tally count_send
  receive state none v = v
  receive state (some f) v = elim f.type [
    | text t ↦
        if t == "ping"
        then tell state.ws pong v
        else if t == "send"
        then open_send state f (tally count_send v)
        else if t == "typing"
        then open_typing state f v
        else unknown_frame state v
    | boolean _ ↦ unknown_frame state v
    | other ↦ unknown_frame state v
  ]

  -- `ensureRoomIndexed` up to its query: a room of the connection needs none.
  unfoldable pub index_room : ClientState → String → (known asks : Task) → Server L P → Server L P
  unfolding await_task
  index_room state room known asks v =
      if any (λ r. r == room) state.room_ids then await_task known v else await_task asks v

  -- `handleSend` from the limiter's answer.
  unfoldable pub limit_send : ClientState → BufferedInput → Server L P → Server L P
  unfolding tell tally count_limited_send error_frame index_room
  limit_send state input v =
      let limited =
        check state.user_id
          (record { key_prefix = "ws:send"; limit = send_limit; window_seconds = 1 })
          v.service.limiter in
      let v' : Server L P = record v { service = record v.service { limiter = limited.0 } } in
      if limited.1.allowed
      then index_room state input.chat_id (buffers_send state.ws input) (joins_send state.ws input)
          v'
      else tell state.ws (error_frame WsErrorReason.rate_limited "Too many messages" none)
          (tally count_limited_send v')

  -- `handleSend` from the answer on the membership: the socket joins the room, open or not.
  unfoldable pub join_send : ClientState → BufferedInput → Server L P → Server L P
  unfolding tell error_frame enter await_task
  join_send state input v =
      if is_member state.user_id input.chat_id m.members
      then await_task (buffers_send state.ws input) (enter state input.chat_id v)
      else tell state.ws
          (error_frame WsErrorReason.forbidden "Not a member of this chat" (some input.request_id))
          v

  -- The `try` of `handleSend`.
  unfoldable pub buffer_send : ClientState → BufferedInput → Server L P → Server L P
  unfolding send_buffered
  buffer_send state input v = record v {
    service =
        send_buffered m.wire m.members check send_limit typing_limit sha256 publish m.now state
          input v.service;
  }

  unfoldable pub tell_typing : ClientState → String → Bool → Server L P → Server L P
  unfolding tell_all sockets_of
  tell_typing state chat_id b v = record v {
    service = record v.service {
      out =
          v.service.out
          ++ tell_all m.wire (typing chat_id state.user_id b)
              (sockets_of chat_id v.service.store.room_sockets);
    };
  }

  -- `handleTyping` from the limiter's answer.
  unfoldable pub limit_typing : ClientState → String → Bool → Server L P → Server L P
  unfolding tell tally count_limited_typing error_frame tell_typing await_task
  limit_typing state chat_id b v =
      let limited =
        check state.user_id
          (record { key_prefix = "ws:typing"; limit = typing_limit; window_seconds = 1 })
          v.service.limiter in
      let v' : Server L P = record v { service = record v.service { limiter = limited.0 } } in
      if limited.1.allowed
      then (if any (λ r. r == chat_id) state.room_ids
          then tell_typing state chat_id b v'
          else await_task (joins_typing state.ws chat_id b) v')
      else tell state.ws (error_frame WsErrorReason.rate_limited "Too many typing events" none)
          (tally count_limited_typing v')

  unfoldable pub join_typing : ClientState → String → Bool → Server L P → Server L P
  unfolding tell error_frame enter tell_typing
  join_typing state chat_id b v =
      if is_member state.user_id chat_id m.members
      then tell_typing state chat_id b (enter state chat_id v)
      else tell state.ws (error_frame WsErrorReason.forbidden "Not a member of this chat" none) v

  -- With the state that a listener or a handler of the socket holds.
  unfoldable pub with_state : ℕ → (ClientState → Server L P → Server L P) → Server L P → Server L P
  unfolding state_of
  with_state ws f v = elim (state_of ws v) [ none ↦ v | some state ↦ f state v ]

  unfoldable pub finish_set_up : Bool → ℕ → String → Bool → Server L P → Server L P
  unfolding set_up
  finish_set_up loads ws connection was_online v = record v {
    service =
        set_up m.wire m.members check send_limit typing_limit sha256 publish m.now loads ws
          connection was_online v.service;
  }

  unfoldable pub resume : Task → Server L P → Server L P
  unfolding with_state limit_send join_send buffer_send limit_typing join_typing finish_set_up
  resume (limits_send ws input) v = with_state ws (λ s. limit_send s input) v
  resume (joins_send ws input) v = with_state ws (λ s. join_send s input) v
  resume (buffers_send ws input) v = with_state ws (λ s. buffer_send s input) v
  resume (limits_typing ws chat_id b) v = with_state ws (λ s. limit_typing s chat_id b) v
  resume (joins_typing ws chat_id b) v = with_state ws (λ s. join_typing s chat_id b) v
  resume (sets_up ws connection was_online) v = finish_set_up true ws connection was_online v

  -- The listener of 'connection': where rooms are loaded first the set-up waits for them, and does
  -- nothing for a connection that was refused.
  unfoldable pub connect : ℕ → Option String → String → Server L P → Server L P
  unfolding accept finish_set_up await_task
  connect ws token connection v =
      let accepted =
        accept m.wire m.members check send_limit typing_limit sha256 publish m.now verify_token ws
          token connection v.service in
      let v' : Server L P = record v { service = accepted.0 } in
      if preloads
      then await_task (sets_up ws connection accepted.1) v'
      else finish_set_up false ws connection accepted.1 v'

  unfoldable pub leave : ℕ → Server L P → Server L P
  unfolding on_close
  leave ws v = record v {
    service =
        on_close m.wire m.members check send_limit typing_limit sha256 publish m.now ws v.service;
    ended = elim (JsMap.get ws v.service.store.client_states) [
      | none ↦ v.ended
      | some state ↦ JsMap.set ws state v.ended
    ];
  }

  unfoldable pub turn : Event → Server L P → Server L P
  unfolding connect receive with_state pick resume leave
  turn (accepts ws token connection) v = connect ws token connection v
  turn (receives ws frame) v = with_state ws (λ s. receive s frame) v
  turn (resumes n) v = elim (pick n v.tasks) [
    | none ↦ v
    | some (t, rest) ↦ resume t (record v { tasks = rest })
  ]
  turn (closes ws) v = leave ws v
