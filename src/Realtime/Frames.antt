-- ===== src/Realtime/Frames.antt =====
-- The frames of a socket, and how one is written to it: the wire types of
-- backend/packages/shared-types/src/api-types.ts, and `sendJson` and `sendError` of
-- backend/services/realtime-service/src/modules/realtime/realtime.server.ts.
use backend_sketch.Prelude.{ℕ, Bool, String, Option, none, some, List, [], ◌∷◌, string_eq}
use backend_sketch.Api.{
  MessageDto, WsErrorReason, AppError, ErrorCode, validation_failed, auth_required, forbidden,
  not_found, conflict, rate_limited, internal,
}
use backend_sketch.RoomEvents.{truthy}
use backend_sketch.Realtime.{skipped, closed_for_backpressure, sent, send_json}

-- A field of a frame that a client sent: it may be anything, or not be there.
pub data Field : Type 0 where
  text : String → Field
  boolean : Bool → Field
  other : Field

pub record RawFrame : Type 0 where
  pub type : Field
  pub request_id : Field
  pub chat_id : Field
  pub body : Field
  pub is_typing : Field

pub data WsServerFrame : Type 0 where
  ack : (request_id message_id : String) (accepted_at : ℕ) → WsServerFrame
  msg : MessageDto → WsServerFrame
  typing : (chat_id user_id : String) (is_typing : Bool) → WsServerFrame
  presence : (user_id : String) (online : Bool) → WsServerFrame
  error : WsErrorReason → (request_id detail : Option String) → WsServerFrame
  pong : WsServerFrame

-- What the service does to a socket.
pub data Outgoing : Type 0 where
  frame : ℕ → WsServerFrame → Outgoing
  close : ℕ → Outgoing

-- `typeof f === 'string' && f`: a text that is not empty.
unfoldable pub nonempty_text : Field → Option String
unfolding truthy
nonempty_text (text s) = truthy (some s)
nonempty_text (boolean b) = none
nonempty_text other = none

-- The sockets as they are at the time: their ready state, and how much each has yet to send.
pub record Wire : Type 0 where
  pub is_open : ℕ → Bool
  pub buffered_amount : ℕ → ℕ
  pub send_buffer_limit : ℕ

-- `sendJson`: what it adds to all that was done.
unfoldable pub deliver : Wire → ℕ → WsServerFrame → List Outgoing
unfolding send_json
deliver w ws f = elim (send_json w.send_buffer_limit (w.is_open ws) (w.buffered_amount ws)) [
  | skipped ↦ []
  | closed_for_backpressure ↦ close ws ∷ []
  | sent ↦ frame ws f ∷ []
]

-- The frame of `sendError`.
unfoldable pub error_frame : WsErrorReason → String → Option String → WsServerFrame
unfolding truthy
error_frame reason detail request_id = error reason (truthy request_id) (truthy (some detail))

-- `mapAppErrorToWsReason`
unfoldable pub reason_of_code : ErrorCode → WsErrorReason
reason_of_code forbidden = WsErrorReason.forbidden
reason_of_code auth_required = WsErrorReason.auth_expired
reason_of_code internal = WsErrorReason.buffer_unavailable
reason_of_code validation_failed = WsErrorReason.validation_failed
reason_of_code not_found = WsErrorReason.validation_failed
reason_of_code conflict = WsErrorReason.validation_failed
reason_of_code rate_limited = WsErrorReason.validation_failed

unfoldable pub map_app_error_to_ws_reason : AppError → WsErrorReason
unfolding reason_of_code
map_app_error_to_ws_reason e = reason_of_code e.code
