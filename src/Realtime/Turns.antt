-- ===== src/Realtime/Turns.antt =====
-- The service as its events and what waits for an answer: what runs between two awaits is one turn,
-- and any turns of other connections, or of the same one, come between (the listeners of a connection
-- in backend/services/realtime-service/src/modules/realtime/realtime.server.ts, without Redis).
pub mod Handlers
pub mod Laws
pub mod Served
use backend_sketch.Prelude.{
  ℕ, zero, suc, Bool, true, false, String, Option, none, some, List, [], ◌∷◌, ◌++◌, any, ◌==◌,
  string_eq, nat_eq, if◌then◌else◌,
}
use backend_sketch.Prelude.JsMap.{JsMap}
use backend_sketch.Prelude.JsMap
use backend_sketch.Prelude.Result.{Result}
use backend_sketch.Api.{WsErrorReason}
use backend_sketch.Db.{RoomMember, is_member}
use backend_sketch.Nats.{MessageWriteCommand}
use backend_sketch.RateLimit.{RateLimitOptions, RateLimitResult}
use backend_sketch.Chats.Buffered.{BufferedInput}
use backend_sketch.Accounts.Auth.{JwtPayload}
use backend_sketch.Realtime.{ClientState, PresenceStore, sockets_of, add_socket_to_room}
use backend_sketch.Realtime.Frames.{
  Field, text, boolean, other, RawFrame, WsServerFrame, typing, pong, Wire, nonempty_text,
  error_frame,
}
use backend_sketch.Realtime.Fanout.{tell_all}
use backend_sketch.Realtime.Server.{
  Service, RealtimeCounters, say, count, count_send, count_limited_send, count_limited_typing,
  body_of, send_buffered, on_close,
}
use backend_sketch.Realtime.Setup.{accept, set_up}

-- What the outside is at a turn: the sockets, the table of members and the time.
pub record Moment : Type 0 where
  pub wire : Wire
  pub members : List RoomMember
  pub now : ℕ

-- A handler that waits: for the limiter, for the membership, for the buffer, or for the rooms of a
-- connection that is set up.
pub data Task : Type 0 where
  limits_send joins_send buffers_send : ℕ → BufferedInput → Task
  limits_typing joins_typing : ℕ → String → Bool → Task
  sets_up : (ws : ℕ) (connection : String) (was_online : Bool) → Task

pub data Event : Type 0 where
  accepts : (ws : ℕ) (token : Option String) (connection : String) → Event
  receives : ℕ → Option RawFrame → Event
  resumes closes : ℕ → Event

-- The service with what waits, and with the states of the connections that have ended, which their
-- listeners and handlers still hold.
pub record Server {ℓ} (L P : Type ℓ) : Type ℓ where
  pub service : Service L P
  pub ended : JsMap ℕ ClientState
  pub tasks : List Task

unfoldable pub state_of {ℓ} : {L P : Type ℓ} → ℕ → Server L P → Option ClientState
state_of ws v = elim (JsMap.get ws v.service.store.client_states) [
  | some state ↦ some state
  | none ↦ JsMap.get ws v.ended
]

unfoldable pub await_task {ℓ} : {L P : Type ℓ} → Task → Server L P → Server L P
await_task t v = record v { tasks = v.tasks ++ t ∷ [] }

-- `addSocketToRoom`, which changes the one state that all hold, also of an ended connection.
unfoldable pub enter {ℓ} : {L P : Type ℓ} → ClientState → String → Server L P → Server L P
unfolding add_socket_to_room
enter state room v =
    let joined = add_socket_to_room state room v.service.store in
    record v {
      service = record v.service { store = joined.0 };
      ended = elim (JsMap.get state.ws v.service.store.client_states) [
        | none ↦ JsMap.set state.ws joined.1 v.ended
        | some _ ↦ v.ended
      ];
    }

-- The task of a number, and the others.
unfoldable pub pick : ℕ → List Task → Option (Task × List Task)
pick n [] = none
pick zero (t ∷ ts) = some (t, ts)
pick (suc n) (t ∷ ts) = elim (pick n ts) [
  | none ↦ none
  | some (found, rest) ↦ some (found, t ∷ rest)
]
