-- ===== src/Realtime/Setup.antt =====
-- The start of a connection: how it is accepted and set up, where no Redis holds the presence (the
-- listener of 'connection' in
-- backend/services/realtime-service/src/modules/realtime/realtime.server.ts). The turns of
-- Realtime/Turns.antt run what is set up as a step of its own.
pub mod Laws
use backend_sketch.Prelude.{
  ℕ, Bool, true, false, not, String, Option, none, some, List, [], ◌∷◌, ◌++◌, any, map, keep, ◌==◌,
  string_eq, nat_eq, if◌then◌else◌, ◌&&◌,
}
use backend_sketch.Prelude.JsMap.{JsMap}
use backend_sketch.Prelude.JsMap
use backend_sketch.Prelude.Result.{Result}
use backend_sketch.Db.{RoomMember}
use backend_sketch.Nats.{MessageWriteCommand}
use backend_sketch.RateLimit.{RateLimitOptions, RateLimitResult}
use backend_sketch.RoomEvents.{truthy}
use backend_sketch.Accounts.Auth.{JwtPayload}
use backend_sketch.Redis.{Store}
use backend_sketch.Redis.Presence.{is_user_online}
use backend_sketch.Realtime.{
  ClientState, PresenceStore, add_client, add_socket_to_room, has_open_socket_for_user,
}
use backend_sketch.Realtime.Frames.{RawFrame, presence, Outgoing, close, Wire, deliver}
use backend_sketch.Realtime.Fanout.{broadcast_presence, find_local_online_room_members}
use backend_sketch.Realtime.Server.{Service, count, count_connected, on_message, on_close}

-- The loop that adds the rooms of the memberships, with the state as it changes.
unfoldable pub add_rooms : List String → PresenceStore × ClientState → PresenceStore × ClientState
unfolding add_socket_to_room
add_rooms [] (p, state) = (p, state)
add_rooms (room ∷ rooms) (p, state) = add_rooms rooms (add_socket_to_room state room p)

-- The loop that tells a new connection who is online.
unfoldable pub tell_online : Wire → ℕ → List String → List Outgoing
unfolding deliver
tell_online w ws [] = []
tell_online w ws (user ∷ users) = deliver w ws (presence user true) ++ tell_online w ws users

-- The other members of the rooms, each once.
unfoldable pub other_members : List String → String → List RoomMember → List String → List String
other_members rooms user [] found = found
other_members rooms user (m ∷ ms) found = other_members rooms user ms (
    if any (λ r. r == m.room_id) rooms
      && (not (m.user_id == user) && not (any (λ u. u == m.user_id) found))
    then found ++ m.user_id ∷ []
    else found)

-- Those of the users who are online, asked one after the other.
unfoldable pub keep_online : ℕ → List String → Store × List String → Store × List String
unfolding is_user_online
keep_online now [] (s, found) = (s, found)
keep_online now (user ∷ users) (s, found) =
    let asked = is_user_online now user s in
    keep_online now users (asked.0, if asked.1 then found ++ user ∷ [] else found)

-- `findOnlineRoomMembers`
unfoldable pub find_online_room_members :
    ℕ → List String → String → List RoomMember → Store → Store × List String
unfolding other_members keep_online
find_online_room_members now [] user members s = (s, [])
find_online_room_members now (room ∷ rooms) user members s =
    keep_online now (other_members (room ∷ rooms) user members []) (s, [])

module _ {ℓ} {L P : Type ℓ} {E : Type 0} (wire : Wire) (members : List RoomMember)
    (check : String → RateLimitOptions → L → L × RateLimitResult) (send_limit typing_limit : ℕ)
    (sha256 : String → String) (publish : MessageWriteCommand → P → P × Result E (Unit {0}))
    (now : ℕ) where
  -- A connection with its token: closed without a good one, else it is registered, and whether its
  -- user was online before is kept for the set-up.
  unfoldable pub accept :
      (String → Option JwtPayload) → ℕ → Option String → String → Service L P → Service L P × Bool
  unfolding truthy count count_connected add_client has_open_socket_for_user
  accept verify_token ws token connection s = elim (truthy token) [
    | none ↦ (record s { out = s.out ++ close ws ∷ [] }, false)
    | some t ↦ elim (verify_token t) [
      | none ↦ (record s { out = s.out ++ close ws ∷ [] }, false)
      | some user ↦
          let state : ClientState = record {
            ws = ws;
            user_id = user.user_id;
            room_ids = [];
            connection_id = connection;
          } in
          (
            count wire members check send_limit typing_limit sha256 publish now count_connected
                (record s { store = add_client state s.store }),
            has_open_socket_for_user wire.is_open user.user_id s.store,
          )
    ]
  ]

  -- The set-up of a connection whose rooms are loaded first.
  unfoldable pub preload : ClientState → Bool → Service L P → Service L P
  unfolding add_rooms tell_online find_local_online_room_members broadcast_presence
  preload state was_online s =
      let mine = keep (λ m. m.user_id == state.user_id) members in
      let joined = add_rooms (map (λ m. m.room_id) mine) (s.store, state) in
      let told =
        s.out
        ++ tell_online wire state.ws
            (find_local_online_room_members joined.0 state.user_id joined.1.room_ids []) in
      record s {
        store = joined.0;
        out = if was_online then told else told ++ broadcast_presence wire joined.0 joined.1 true;
      }

  -- The set-up of a connection that joins its rooms later.
  unfoldable pub announce : ClientState → Bool → Service L P → Service L P
  unfolding broadcast_presence
  announce state was_online s =
      if was_online
      then s
      else record s { out = s.out ++ broadcast_presence wire s.store state true }

  -- The test that the connection is open and still the registered one, before its set-up.
  unfoldable pub set_up : (preloads : Bool) → ℕ → String → Bool → Service L P → Service L P
  unfolding preload announce
  set_up preloads ws connection was_online s = elim (JsMap.get ws s.store.client_states) [
    | none ↦ s
    | some state ↦
        if wire.is_open ws && (state.connection_id == connection)
        then (if preloads then preload state was_online s else announce state was_online s)
        else s
  ]
