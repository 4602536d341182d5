-- ===== src/Redis/Events.antt =====
-- The events of the rooms and of presence, as texts on the channels of Redis:
-- backend/packages/shared-redis/src/message-events.ts and presence.ts. `write` and `parse` are the
-- texts of `JSON.stringify` and `JSON.parse`.
pub mod Laws
use backend_sketch.Prelude.{
  Bool, true, false, not, String, Option, none, some, List, ◌==◌, string_eq, if◌then◌else◌,
}
use backend_sketch.Api.{MessageDto}
use backend_sketch.RoomEvents.{RoomEvent, room_event_channel, truthy}
use backend_sketch.Realtime.Frames.{Field, text, boolean, other}
use backend_sketch.Redis.{Listeners, Call, publish}
use backend_sketch.Redis.Presence.{PresenceEvent}

abbrev pub room_event_pattern : String
room_event_pattern = "room:*:events"

-- What JSON says of an event: fields that may be anything, or not be there.
pub record RawRoomEvent : Type 0 where
  pub type : Field
  pub room_id : Field
  pub message : Option MessageDto
  pub origin_connection_id : Option String

pub record RawPresenceEvent : Type 0 where
  pub type : Field
  pub user_id : Field
  pub online : Field

-- The event that `publishRoomMessage` makes.
unfoldable pub room_event : MessageDto → Option String → RoomEvent
unfolding truthy
room_event message origin = record {
  room_id = message.chat_id;
  message = message;
  origin_connection_id = truthy origin;
}

-- `publishRoomMessage`, with a Redis.
unfoldable pub publish_room_message :
    (RoomEvent → String) → MessageDto → Option String → Listeners → List Call
unfolding room_event room_event_channel publish
publish_room_message write message origin listeners =
    publish (room_event_channel message.chat_id) (write (room_event message origin)) listeners

unfoldable pub is_text : String → Field → Bool
is_text t (text s) = s == t
is_text t (boolean b) = false
is_text t other = false

-- `parseRoomEvent`
unfoldable pub parse_room_event : (String → Option RawRoomEvent) → String → Option RoomEvent
unfolding is_text
parse_room_event parse raw = elim (parse raw) [
  | none ↦ none
  | some parsed ↦
      if is_text "message.created" parsed.type
      then elim parsed.message [
        | none ↦ none
        | some message ↦ elim parsed.room_id [
          | text room ↦ some (record {
            room_id = room;
            message = message;
            origin_connection_id = parsed.origin_connection_id;
          })
          | boolean _ ↦ none
          | other ↦ none
        ]
      ]
      else none
]

-- `parsePresenceEvent`
unfoldable pub parse_presence_event :
    (String → Option RawPresenceEvent) → String → Option PresenceEvent
unfolding is_text
parse_presence_event parse raw = elim (parse raw) [
  | none ↦ none
  | some parsed ↦
      if is_text "presence" parsed.type
      then elim parsed.user_id [
        | text user ↦ elim parsed.online [
          | boolean b ↦ some (record { user_id = user; online = b })
          | text _ ↦ none
          | other ↦ none
        ]
        | boolean _ ↦ none
        | other ↦ none
      ]
      else none
]
