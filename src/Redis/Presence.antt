-- ===== src/Redis/Presence.antt =====
-- Who is online, as the services share it: backend/packages/shared-redis/src/presence.ts on the
-- in-memory Redis, whose calls do not fail. The flag that a call answers says whether it publishes.
pub mod Alive
pub mod Laws
use Prim.Native.String
use backend_sketch.Prelude.{
  ℕ, Bool, true, false, not, String, Option, none, some, List, [], ◌∷◌, ◌==◌, string_eq,
  if◌then◌else◌, ◌||◌,
}
use backend_sketch.RoomEvents.{truthy}
use backend_sketch.Redis.{
  Store, get, put, expire, del, s_add, s_rem, s_members, Listeners, Call, publish,
}

abbrev pub presence_channel : String
presence_channel = "presence:events"

abbrev pub presence_ttl_seconds : ℕ
presence_ttl_seconds = 30

pub record PresenceEvent : Type 0 where
  pub user_id : String
  pub online : Bool

-- `connectionKey`
unfoldable pub connection_key : String → String
connection_key connection = String.◌++◌ "presence:conn:" connection

-- `userConnectionsKey`
unfoldable pub user_connections_key : String → String
user_connections_key user = String.◌++◌ "presence:user:" (String.◌++◌ user ":connections")

-- One connection in the loop of `isUserOnline`: whether its key stands, else it leaves the set.
unfoldable pub check_connection : ℕ → String → Store × Option String → String → Store × Bool
unfolding truthy s_rem
check_connection now user (s, found) connection = elim (truthy found) [
  | some _ ↦ (s, true)
  | none ↦ ((s_rem now (user_connections_key user) (connection ∷ []) s).0, false)
]

-- The loop, one connection after the other.
unfoldable pub check_connections : ℕ → String → List String → Store × Bool → Store × Bool
unfolding check_connection get connection_key
check_connections now user [] (s, online) = (s, online)
check_connections now user (c ∷ cs) (s, online) =
    let one = check_connection now user (get now (connection_key c) s) c in
    check_connections now user cs (one.0, one.1 || online)

unfoldable pub check_all : ℕ → String → Store × List String → Store × Bool
unfolding check_connections
check_all now user (s, cs) = check_connections now user cs (s, false)

-- `isUserOnline`
unfoldable pub is_user_online : ℕ → String → Store → Store × Bool
unfolding check_all s_members user_connections_key
is_user_online now user s = check_all now user (s_members now (user_connections_key user) s)

-- `registerPresence`: whether the user was not online before, when it is published.
unfoldable pub register_presence : ℕ → String → String → Store → Store × Bool
unfolding is_user_online put s_add connection_key user_connections_key
register_presence now user connection s =
    let was = is_user_online now user s in
    let s' = put now (connection_key connection) user (some presence_ttl_seconds) was.0 in
    ((s_add now (user_connections_key user) (connection ∷ []) s').0, not was.1)

-- `refreshPresence`
unfoldable pub refresh_presence : ℕ → String → Store → Store
unfolding expire connection_key
refresh_presence now connection s =
    (expire now (connection_key connection) presence_ttl_seconds s).0

-- `unregisterPresence`: whether the user is not online any more, when it is published.
unfoldable pub unregister_presence : ℕ → String → String → Store → Store × Bool
unfolding is_user_online del s_rem connection_key user_connections_key
unregister_presence now user connection s =
    let s' = (del (connection_key connection ∷ []) s).0 in
    let left = (s_rem now (user_connections_key user) (connection ∷ []) s').0 in
    let still = is_user_online now user left in (still.0, not still.1)

-- The call of `publishPresence` that the two make. `write` is `JSON.stringify` of an event.
unfoldable pub publish_presence : (PresenceEvent → String) → PresenceEvent → Listeners → List Call
unfolding publish
publish_presence write event listeners = publish presence_channel (write event) listeners
