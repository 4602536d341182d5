-- ===== src/Realtime.antt =====
-- The sockets that the realtime service holds: `InMemoryPresenceStore`
-- (backend/services/realtime-service/src/modules/realtime/realtime.service.ts). A socket is named by
-- a number; the state object of a socket is shared between the store and its connection.
pub mod Sockets
pub mod Frames
pub mod Fanout
pub mod Server
pub mod Registry
pub mod Online
pub mod Setup
pub mod Turns
use backend_sketch.Prelude.{
  ℕ, Bool, true, false, not, String, Option, none, some, List, [], ◌∷◌, ◌++◌, any, keep, find, ◌==◌,
  nat_eq, string_eq, if◌then◌else◌, ◌&&◌, ltb, length,
}
use backend_sketch.Prelude.JsMap.{JsMap}
use backend_sketch.Prelude.JsMap

pub record ClientState : Type 0 where
  pub ws : ℕ
  pub user_id : String
  pub room_ids : List String
  pub connection_id : String

pub record PresenceStore : Type 0 where
  pub room_sockets : JsMap String (List ℕ)
  pub user_sockets : JsMap String (List ℕ)
  pub client_states : JsMap ℕ ClientState

abbrev pub empty_store : PresenceStore
empty_store = record { room_sockets = []; user_sockets = []; client_states = [] }

-- The sockets under a key, none where there is no set.
unfoldable pub sockets_of : String → JsMap String (List ℕ) → List ℕ
sockets_of k m = elim (JsMap.get k m) [ none ↦ [] | some s ↦ s ]

-- `Set.prototype.add` on the set of a key, which is made first where there is none.
unfoldable pub add_socket : String → ℕ → JsMap String (List ℕ) → JsMap String (List ℕ)
unfolding sockets_of
add_socket k ws m =
    let s = sockets_of k m in JsMap.set k (if any (λ x. x == ws) s then s else s ++ ws ∷ []) m

-- The socket leaves the set of a key, and an empty set leaves the map.
unfoldable pub remove_socket : String → ℕ → JsMap String (List ℕ) → JsMap String (List ℕ)
remove_socket k ws m = elim (JsMap.get k m) [
  | none ↦ m
  | some s ↦
      let rest = keep (λ x. not (x == ws)) s in
      if ltb 0 (length rest) then JsMap.set k rest m else JsMap.delete k m
]

unfoldable pub add_client : ClientState → PresenceStore → PresenceStore
unfolding add_socket
add_client state p = record p {
  client_states = JsMap.set state.ws state p.client_states;
  user_sockets = add_socket state.user_id state.ws p.user_sockets;
}

-- The loop over the rooms of the state.
unfoldable pub remove_from_rooms : ℕ → List String → JsMap String (List ℕ) → JsMap String (List ℕ)
unfolding remove_socket
remove_from_rooms ws [] m = m
remove_from_rooms ws (r ∷ rs) m = remove_from_rooms ws rs (remove_socket r ws m)

unfoldable pub remove_socket_from_rooms : ClientState → PresenceStore → PresenceStore
unfolding remove_from_rooms
remove_socket_from_rooms state p = record p {
  room_sockets = remove_from_rooms state.ws state.room_ids p.room_sockets;
}

unfoldable pub remove_client : ℕ → PresenceStore → PresenceStore × Option ClientState
unfolding remove_socket_from_rooms
remove_client ws p = elim (JsMap.get ws p.client_states) [
  | none ↦ (p, none)
  | some state ↦
      let q = remove_socket_from_rooms state p in
      (
        record q {
          user_sockets = remove_socket state.user_id ws q.user_sockets;
          client_states = JsMap.delete ws q.client_states;
        },
        some state,
      )
]

-- The state is that of the store when its socket is there, so the store's copy changes with it; it
-- is given back changed.
unfoldable pub add_socket_to_room :
    ClientState → String → PresenceStore → PresenceStore × ClientState
unfolding add_socket
add_socket_to_room state room_id p =
    let joined : ClientState = record state {
      room_ids =
          if any (λ r. r == room_id) state.room_ids
          then state.room_ids
          else state.room_ids ++ room_id ∷ [];
    } in
    (
      record p {
        room_sockets = add_socket room_id state.ws p.room_sockets;
        client_states = elim (JsMap.get state.ws p.client_states) [
          | none ↦ p.client_states
          | some _ ↦ JsMap.set state.ws joined p.client_states
        ];
      },
      joined,
    )

-- `is_open` is the ready state of the sockets.
unfoldable pub has_open_socket_for_user : (ℕ → Bool) → String → PresenceStore → Bool
unfolding sockets_of
has_open_socket_for_user is_open user_id p = any is_open (sockets_of user_id p.user_sockets)

-- What `sendJson` does to a socket.
pub data SendOutcome : Type 0 where
  skipped closed_for_backpressure sent : SendOutcome

unfoldable pub send_json : ℕ → (is_open : Bool) → (buffered_amount : ℕ) → SendOutcome
send_json limit is_open buffered_amount =
    if is_open
    then (if ltb limit buffered_amount then closed_for_backpressure else sent)
    else skipped

-- `broadcastToRoom` and `broadcastToUser`, on the sockets of the key: the outcome at each.
unfoldable pub broadcast_to : ℕ → (ℕ → Bool) → (ℕ → ℕ) → List ℕ → List (ℕ × SendOutcome)
unfolding send_json
broadcast_to limit is_open buffered [] = []
broadcast_to limit is_open buffered (ws ∷ rest) =
    (ws, send_json limit (is_open ws) (buffered ws)) ∷ broadcast_to limit is_open buffered rest
