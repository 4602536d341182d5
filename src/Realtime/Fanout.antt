-- ===== src/Realtime/Fanout.antt =====
-- What the service tells the sockets that it holds: the messages of a room, and who is online.
pub mod Laws
use mathlib.Core.List.{map}
use backend_sketch.Prelude.{
  ℕ, Bool, true, false, not, String, Option, none, some, List, [], ◌∷◌, ◌++◌, any, keep, ◌==◌,
  string_eq, nat_eq, if◌then◌else◌, ◌&&◌, ◌||◌,
}
use backend_sketch.Prelude.JsMap.{JsMap}
use backend_sketch.Prelude.JsMap
use backend_sketch.Db.{RoomMember}
use backend_sketch.RoomEvents.{RoomEvent}
use backend_sketch.Redis.Presence.{PresenceEvent}
use backend_sketch.Realtime.{ClientState, PresenceStore, sockets_of}
use backend_sketch.Realtime.Frames.{WsServerFrame, msg, presence, Outgoing, Wire, deliver}

-- `recipient.connectionId === event.origin_connection_id`
unfoldable pub is_origin : String → Option String → Bool
is_origin connection none = false
is_origin connection (some o) = connection == o

-- The tests of the loop that let a socket have the message.
unfoldable pub receives : RoomEvent → ClientState → Bool
unfolding is_origin
receives event recipient =
    not (recipient.user_id == event.message.sender_id)
    && not (is_origin recipient.connection_id event.origin_connection_id)

-- The loop of `broadcastRoomEventToLocalClients`.
unfoldable pub send_event : Wire → PresenceStore → RoomEvent → List ℕ → List Outgoing
unfolding receives deliver
send_event w p event [] = []
send_event w p event (ws ∷ sockets) =
    let rest = send_event w p event sockets in
    elim (JsMap.get ws p.client_states) [
      | none ↦ rest
      | some recipient ↦
          if receives event recipient then deliver w ws (msg event.message) ++ rest else rest
    ]

-- An event that did not parse is none.
unfoldable pub broadcast_room_event_to_local_clients :
    Wire → PresenceStore → Option RoomEvent → List Outgoing
unfolding send_event sockets_of
broadcast_room_event_to_local_clients w p none = []
broadcast_room_event_to_local_clients w p (some event) =
    send_event w p event (sockets_of event.room_id p.room_sockets)

-- The sockets of one room that are registered to another user.
unfoldable pub others_in : PresenceStore → String → List ℕ → List ℕ
others_in p user [] = []
others_in p user (ws ∷ sockets) =
    let rest = others_in p user sockets in
    elim (JsMap.get ws p.client_states) [
      | none ↦ rest
      | some recipient ↦ if recipient.user_id == user then rest else ws ∷ rest
    ]

-- The `Set` of the sockets found so far, and those to add.
unfoldable pub add_all : List ℕ → List ℕ → List ℕ
add_all set [] = set
add_all set (x ∷ xs) = add_all (if any (λ y. y == x) set then set else set ++ x ∷ []) xs

unfoldable pub recipients_of : PresenceStore → String → List String → List ℕ → List ℕ
unfolding others_in add_all sockets_of
recipients_of p user [] set = set
recipients_of p user (room ∷ rooms) set =
    recipients_of p user rooms (add_all set (others_in p user (sockets_of room p.room_sockets)))

unfoldable pub tell_all : Wire → WsServerFrame → List ℕ → List Outgoing
unfolding deliver
tell_all w f [] = []
tell_all w f (ws ∷ sockets) = deliver w ws f ++ tell_all w f sockets

-- `broadcastPresence`
unfoldable pub broadcast_presence : Wire → PresenceStore → ClientState → Bool → List Outgoing
unfolding recipients_of tell_all
broadcast_presence w p state online =
    tell_all w (presence state.user_id online) (recipients_of p state.user_id state.room_ids [])

-- `broadcastPresenceEventToLocalClients`, of an event that parsed.
unfoldable pub broadcast_presence_event_to_local_clients :
    Wire → PresenceStore → List RoomMember → PresenceEvent → List Outgoing
unfolding recipients_of tell_all
broadcast_presence_event_to_local_clients w p members event =
    tell_all w (presence event.user_id event.online) (
      recipients_of p event.user_id
        (map (λ m. m.room_id) (keep (λ m. m.user_id == event.user_id) members)) [])

-- The users of the sockets of one room, other than `user`, added to a set.
unfoldable pub add_users : PresenceStore → String → List ℕ → List String → List String
add_users p user [] set = set
add_users p user (ws ∷ sockets) set =
    add_users p user sockets (elim (JsMap.get ws p.client_states) [
      | none ↦ set
      | some recipient ↦
          if (recipient.user_id == user) || any (λ u. u == recipient.user_id) set
          then set
          else set ++ recipient.user_id ∷ []
    ])

-- `findLocalOnlineRoomMembers`
unfoldable pub find_local_online_room_members :
    PresenceStore → String → List String → List String → List String
unfolding add_users sockets_of
find_local_online_room_members p user [] set = set
find_local_online_room_members p user (room ∷ rooms) set =
    find_local_online_room_members p user rooms
      (add_users p user (sockets_of room p.room_sockets) set)
