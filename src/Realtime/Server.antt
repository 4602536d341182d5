-- ===== src/Realtime/Server.antt =====
-- The handlers of a connection: `handleSend`, `handleTyping`, `ensureRoomIndexed` and the events of
-- the socket (backend/services/realtime-service/src/modules/realtime/realtime.server.ts). Each runs
-- here without a break; Realtime/Turns.antt cuts them at their awaits.
pub mod Sends
pub mod Answers
use backend_sketch.Prelude.{
  ℕ, ◌+◌, ◌-◌, Bool, true, false, String, Option, none, some, List, [], ◌∷◌, ◌++◌, any, ◌==◌,
  string_eq, nat_eq, if◌then◌else◌, ◌||◌,
}
use backend_sketch.Prelude.JsMap.{JsMap}
use backend_sketch.Prelude.JsMap
use backend_sketch.Prelude.Result.{Result, ok, err}
use backend_sketch.Api.{MessageDto, AppError, WsErrorReason}
use backend_sketch.Db.{RoomMember, is_member}
use backend_sketch.Nats.{MessageWriteCommand}
use backend_sketch.RateLimit.{RateLimitOptions, RateLimitResult}
use backend_sketch.Chats.Send.{is_blank}
use backend_sketch.Chats.Buffered.{BufferedInput, create_buffered_message}
use backend_sketch.Realtime.{
  ClientState, PresenceStore, sockets_of, add_client, remove_client, add_socket_to_room,
  has_open_socket_for_user,
}
use backend_sketch.Realtime.Frames.{
  Field, text, boolean, other, RawFrame, WsServerFrame, ack, typing, pong, Outgoing, Wire,
  nonempty_text, deliver, error_frame, map_app_error_to_ws_reason,
}
use backend_sketch.Realtime.Fanout.{tell_all, broadcast_presence}

pub record RealtimeCounters : Type 0 where
  pub ws_connected : ℕ
  pub send_frame_received : ℕ
  pub send_rate_limited : ℕ
  pub typing_rate_limited : ℕ
  pub nats_publish_started : ℕ
  pub nats_publish_succeeded : ℕ
  pub nats_publish_failed : ℕ
  pub nats_publish_skipped : ℕ
  pub ack_sent : ℕ

-- The service: its sockets, the limiter's state, the buffer's with the counters, and all that was
-- done to sockets.
pub record Service {ℓ} (L P : Type ℓ) : Type ℓ where
  pub store : PresenceStore
  pub limiter : L
  pub buffer : P × RealtimeCounters
  pub out : List Outgoing

unfoldable pub count_send : RealtimeCounters → RealtimeCounters
count_send k = record k { send_frame_received = k.send_frame_received + 1 }

unfoldable pub count_limited_send : RealtimeCounters → RealtimeCounters
count_limited_send k = record k { send_rate_limited = k.send_rate_limited + 1 }

unfoldable pub count_limited_typing : RealtimeCounters → RealtimeCounters
count_limited_typing k = record k { typing_rate_limited = k.typing_rate_limited + 1 }

unfoldable pub count_ack : RealtimeCounters → RealtimeCounters
count_ack k = record k { ack_sent = k.ack_sent + 1 }

unfoldable pub count_connected : RealtimeCounters → RealtimeCounters
count_connected k = record k { ws_connected = k.ws_connected + 1 }

-- `Math.max(0, n - 1)`
unfoldable pub count_disconnected : RealtimeCounters → RealtimeCounters
count_disconnected k = record k { ws_connected = k.ws_connected - 1 }

-- `instrumentMessageWritePublisher`
unfoldable pub instrument {ℓ} :
    {P : Type ℓ} {E : Type 0}
    → (MessageWriteCommand → P → P × Result E (Unit {0}))
    → MessageWriteCommand
    → P × RealtimeCounters
    → (P × RealtimeCounters) × Result E (Unit {0})
instrument publish command (s, k) =
    let call = publish command s in
    let started : RealtimeCounters = record k {
      nats_publish_started = k.nats_publish_started + 1;
    } in
    elim call.1 [
      | ok _ ↦ (
        (call.0, record started { nats_publish_succeeded = started.nats_publish_succeeded + 1 }),
        call.1,
      )
      | err _ ↦ (
        (call.0, record started { nats_publish_failed = started.nats_publish_failed + 1 }),
        call.1,
      )
    ]

-- The body of a frame: a text that is not blank.
unfoldable pub body_of : Field → Option String
unfolding is_blank
body_of (text s) = if is_blank s then none else some s
body_of (boolean b) = none
body_of other = none

module _ {ℓ} {L P : Type ℓ} {E : Type 0} (wire : Wire) (members : List RoomMember)
    (check : String → RateLimitOptions → L → L × RateLimitResult) (send_limit typing_limit : ℕ)
    (sha256 : String → String) (publish : MessageWriteCommand → P → P × Result E (Unit {0}))
    (now : ℕ) where
  unfoldable pub say : ℕ → WsServerFrame → Service L P → Service L P
  unfolding deliver
  say ws f s = record s { out = s.out ++ deliver wire ws f }

  unfoldable pub count : (RealtimeCounters → RealtimeCounters) → Service L P → Service L P
  count f s = record s { buffer = (s.buffer.0, f s.buffer.1) }

  -- `ensureRoomIndexed`: whether the user is a member; the socket then is in the room.
  unfoldable pub ensure_room_indexed :
      ClientState → String → PresenceStore → Option (PresenceStore × ClientState)
  unfolding add_socket_to_room
  ensure_room_indexed state room p =
      if any (λ r. r == room) state.room_ids
      then some (p, state)
      else if is_member state.user_id room members
      then some (add_socket_to_room state room p)
      else none

  -- The `try` of `handleSend`. The membership was checked, so the tables are not read.
  unfoldable pub send_buffered : ClientState → BufferedInput → Service L P → Service L P
  unfolding say count count_ack create_buffered_message instrument error_frame
      map_app_error_to_ws_reason
  send_buffered state input s =
      let call =
        create_buffered_message sha256 (instrument publish) none (some state.connection_id) true now
          input [] s.buffer in
      let after : Service L P = record s { buffer = call.0 } in
      elim call.1 [
        | ok message ↦
            count count_ack
              (say state.ws (ack input.request_id message.id message.created_at) after)
        | err e ↦
            say state.ws
              (error_frame (map_app_error_to_ws_reason e) e.message (some input.request_id)) after
      ]

  -- `handleSend` after the fields were checked.
  unfoldable pub handle_valid_send :
      ClientState → BufferedInput → Service L P → Service L P × ClientState
  unfolding send_buffered ensure_room_indexed count_limited_send
  handle_valid_send state input s =
      let limited =
        check state.user_id
          (record { key_prefix = "ws:send"; limit = send_limit; window_seconds = 1 }) s.limiter in
      let s' : Service L P = record s { limiter = limited.0 } in
      if limited.1.allowed
      then elim (ensure_room_indexed state input.chat_id s'.store) [
        | none ↦ (
          say state.ws
              (error_frame WsErrorReason.forbidden "Not a member of this chat"
                (some input.request_id))
              s',
          state,
        )
        | some indexed ↦
            (send_buffered indexed.1 input (record s' { store = indexed.0 }), indexed.1)
      ]
      else (
        say state.ws (error_frame WsErrorReason.rate_limited "Too many messages" none)
            (count count_limited_send s'),
        state,
      )

  unfoldable pub refuse : ClientState → String → Service L P → Service L P × ClientState
  unfolding say error_frame
  refuse state detail s =
      (say state.ws (error_frame WsErrorReason.validation_failed detail none) s, state)

  unfoldable pub handle_send : ClientState → RawFrame → Service L P → Service L P × ClientState
  unfolding handle_valid_send refuse body_of nonempty_text count_send
  handle_send state f s = elim (nonempty_text f.request_id) [
    | none ↦ refuse state "request_id is required" (count count_send s)
    | some request_id ↦ elim (nonempty_text f.chat_id) [
      | none ↦ refuse state "chat_id is required" (count count_send s)
      | some chat_id ↦ elim (body_of f.body) [
        | none ↦ refuse state "body is required" (count count_send s)
        | some body ↦
            handle_valid_send state
              (record {
                sender_id = state.user_id;
                chat_id = chat_id;
                body = body;
                request_id = request_id;
              })
              (count count_send s)
      ]
    ]
  ]

  unfoldable pub handle_valid_typing :
      ClientState → String → Bool → Service L P → Service L P × ClientState
  unfolding ensure_room_indexed count_limited_typing tell_all sockets_of
  handle_valid_typing state chat_id is_typing s =
      let limited =
        check state.user_id
          (record { key_prefix = "ws:typing"; limit = typing_limit; window_seconds = 1 })
          s.limiter in
      let s' : Service L P = record s { limiter = limited.0 } in
      if limited.1.allowed
      then elim (ensure_room_indexed state chat_id s'.store) [
        | none ↦ (
          say state.ws (error_frame WsErrorReason.forbidden "Not a member of this chat" none) s',
          state,
        )
        | some indexed ↦ (
          record s' {
            store = indexed.0;
            out =
                s'.out
                ++ tell_all wire (typing chat_id state.user_id is_typing)
                    (sockets_of chat_id indexed.0.room_sockets);
          },
          indexed.1,
        )
      ]
      else (
        say state.ws (error_frame WsErrorReason.rate_limited "Too many typing events" none)
            (count count_limited_typing s'),
        state,
      )

  unfoldable pub handle_typing : ClientState → RawFrame → Service L P → Service L P × ClientState
  unfolding handle_valid_typing refuse nonempty_text
  handle_typing state f s = elim (nonempty_text f.chat_id) [
    | none ↦ refuse state "chat_id is required" s
    | some chat_id ↦ elim f.is_typing [
      | boolean b ↦ handle_valid_typing state chat_id b s
      | text _ ↦ refuse state "is_typing is required" s
      | other ↦ refuse state "is_typing is required" s
    ]
  ]

  -- The listener of 'message'; a text that is no JSON is none.
  unfoldable pub on_message :
      ClientState → Option RawFrame → Service L P → Service L P × ClientState
  unfolding handle_send handle_typing
  on_message state none s = (s, state)
  on_message state (some f) s = elim f.type [
    | text t ↦
        if t == "ping"
        then (say state.ws pong s, state)
        else if t == "send"
        then handle_send state f s
        else if t == "typing"
        then handle_typing state f s
        else (
          say state.ws (error_frame WsErrorReason.unknown_op "Unknown frame type" none) s,
          state,
        )
    | boolean _ ↦
        (say state.ws (error_frame WsErrorReason.unknown_op "Unknown frame type" none) s, state)
    | other ↦
        (say state.ws (error_frame WsErrorReason.unknown_op "Unknown frame type" none) s, state)
  ]

  -- The listener of 'close', where no Redis holds the presence.
  unfoldable pub on_close : ℕ → Service L P → Service L P
  unfolding remove_client count_disconnected has_open_socket_for_user broadcast_presence
  on_close ws s =
      let left = remove_client ws s.store in
      let s' : Service L P = record (count count_disconnected s) { store = left.0 } in
      elim left.1 [
        | none ↦ s'
        | some closed ↦
            if has_open_socket_for_user wire.is_open closed.user_id left.0
            then s'
            else record s' { out = s'.out ++ broadcast_presence wire left.0 closed false }
      ]
