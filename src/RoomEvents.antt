-- ===== src/RoomEvents.antt =====
-- Events of a room on the message bus (backend/packages/shared-redis/src/message-events.ts).
use Prim.Native.String
use backend_sketch.Prelude.{String, Option, none, some, ◌==◌, string_eq, if◌then◌else◌}
use backend_sketch.Api.{MessageDto}

-- A `message.created` event.
pub record RoomEvent : Type 0 where
  pub room_id : String
  pub message : MessageDto
  pub origin_connection_id : Option String

-- `room:${roomId}:events`
unfoldable pub room_event_channel : String → String
room_event_channel room_id = String.◌++◌ "room:" (String.◌++◌ room_id ":events")

-- `...(id ? { origin_connection_id: id } : {})`: the empty text is left out.
unfoldable pub truthy : Option String → Option String
truthy none = none
truthy (some s) = if s == "" then none else some s
