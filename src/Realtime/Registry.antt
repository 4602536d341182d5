-- ===== src/Realtime/Registry.antt =====
-- The store of sockets as a table of connections: what its two indexes say is what the table says,
-- in every store that the connections of the service reach (realtime.service.ts).
use backend_sketch.Prelude.{
  ℕ, ◌≡◌, refl, subst, some_inj, eq_of_test, Bool, true, false, String, none, some, List, [], ◌∷◌,
  ◌++◌, any, ◌==◌, nat_eq, string_eq, if◌then◌else◌, ◌||◌, arith, Bool-cases, Option-cases, inl,
  inr, ◌⊎◌, ◌&&◌,
}
use backend_sketch.Prelude.JsMap.{JsMap, get-set, get-delete}
use backend_sketch.Prelude.JsMap
use backend_sketch.Realtime.{
  ClientState, PresenceStore, empty_store, sockets_of, add_client, remove_client,
  add_socket_to_room, remove_socket_from_rooms, remove_socket, remove_from_rooms,
}
use backend_sketch.Realtime.Sockets.{holds}
use backend_sketch.Realtime.Sockets.Index.{
  holds-add_socket, held-remove_socket, held-remove_from_rooms,
}

-- What the table says of a socket: it has a connection, its connection is in the room, it is of the
-- user.
unfoldable pub is_registered : ℕ → PresenceStore → Bool
is_registered ws p = elim (JsMap.get ws p.client_states) [ none ↦ false | some state ↦ true ]

unfoldable pub in_room : String → ℕ → PresenceStore → Bool
in_room room ws p = elim (JsMap.get ws p.client_states) [
  | none ↦ false
  | some state ↦ any (λ r. r == room) state.room_ids
]

unfoldable pub of_user : String → ℕ → PresenceStore → Bool
of_user user ws p = elim (JsMap.get ws p.client_states) [
  | none ↦ false
  | some state ↦ state.user_id == user
]

-- One thing that happens to the store: a connection over a new socket, which nothing knows yet; a
-- join of a room, by a connection of the table or by one that has ended meanwhile; and an end.
pub data Step : PresenceStore → PresenceStore → Type 0 where
  connects :
      (state : ClientState) (p : PresenceStore)
      → JsMap.get state.ws p.client_states ≡ none
      → state.room_ids ≡ []
      → ((room : String) → holds state.ws (sockets_of room p.room_sockets) ≡ false)
      → Step p (add_client state p)
  joins :
      (state : ClientState) (room : String) (p : PresenceStore)
      → (JsMap.get state.ws p.client_states ≡ some state)
        ⊎ (JsMap.get state.ws p.client_states ≡ none)
      → Step p (add_socket_to_room state room p).0
  leaves : (ws : ℕ) (p : PresenceStore) → Step p (remove_client ws p).0

pub data Reached : PresenceStore → Type 0 where
  start : Reached empty_store
  next : (p q : PresenceStore) → Reached p → Step p q → Reached q

-- The index of the users and the table agree, the index of the rooms agrees with it on the sockets of
-- the table, and a connection stands under its own socket.
abbrev pub Indexed : PresenceStore → Type 0
Indexed p =
    ((room : String) (ws : ℕ)
      → (is_registered ws p && holds ws (sockets_of room p.room_sockets)) ≡ in_room room ws p)
    × ((user : String) (ws : ℕ) → holds ws (sockets_of user p.user_sockets) ≡ of_user user ws p)
    × ((ws : ℕ) (state : ClientState) → JsMap.get ws p.client_states ≡ some state → state.ws ≡ ws)

-- What a table says after a set and after a deletion.
in_room_after :
    (room : String) (ws : ℕ) (state : ClientState) (p q : PresenceStore)
    → q.client_states ≡ JsMap.set state.ws state p.client_states
    → in_room room ws q
      ≡ (if state.ws == ws then any (λ r. r == room) state.room_ids else in_room room ws p)
unfolding in_room
in_room_after room ws state p q e =
    rw (e, in_room) (rw (get-set state.ws ws state p.client_states) (ground arith))

is_registered_after :
    (ws : ℕ) (state : ClientState) (p q : PresenceStore)
    → q.client_states ≡ JsMap.set state.ws state p.client_states
    → is_registered ws q ≡ (state.ws == ws || is_registered ws p)
unfolding is_registered
is_registered_after ws state p q e =
    rw (e, is_registered) (rw (get-set state.ws ws state p.client_states) (ground arith))

of_user_after :
    (user : String) (ws : ℕ) (state : ClientState) (p q : PresenceStore)
    → q.client_states ≡ JsMap.set state.ws state p.client_states
    → of_user user ws q ≡ (if state.ws == ws then state.user_id == user else of_user user ws p)
unfolding of_user
of_user_after user ws state p q e =
    rw (e, of_user) (rw (get-set state.ws ws state p.client_states) (ground arith))

in_room_without :
    (room : String) (ws x : ℕ) (p q : PresenceStore)
    → q.client_states ≡ JsMap.delete ws p.client_states
    → in_room room x q ≡ (if ws == x then false else in_room room x p)
unfolding in_room
in_room_without room ws x p q e =
    rw (e, in_room) (rw (get-delete ws x p.client_states) (ground arith))

is_registered_without :
    (ws x : ℕ) (p q : PresenceStore)
    → q.client_states ≡ JsMap.delete ws p.client_states
    → is_registered x q ≡ (if ws == x then false else is_registered x p)
unfolding is_registered
is_registered_without ws x p q e =
    rw (e, is_registered) (rw (get-delete ws x p.client_states) (ground arith))

of_user_without :
    (user : String) (ws x : ℕ) (p q : PresenceStore)
    → q.client_states ≡ JsMap.delete ws p.client_states
    → of_user user x q ≡ (if ws == x then false else of_user user x p)
unfolding of_user
of_user_without user ws x p q e =
    rw (e, of_user) (rw (get-delete ws x p.client_states) (ground arith))

-- What a table says of a socket that it has, or has not.
table_none :
    (key : String) (ws x : ℕ) (p : PresenceStore)
    → JsMap.get ws p.client_states ≡ none
    → (ws == x) ≡ true
    → (in_room key x p ≡ false) × (of_user key x p ≡ false) × (is_registered x p ≡ false)
unfolding in_room of_user is_registered
table_none key ws x p h e =
    subst (λ y. (in_room key y p ≡ false) × (of_user key y p ≡ false) × (is_registered y p ≡ false))
      (eq_of_test ws x e) (ground (arith, h), ground (arith, h), ground (arith, h))

table_some :
    (key : String) (ws x : ℕ) (state : ClientState) (p : PresenceStore)
    → JsMap.get ws p.client_states ≡ some state
    → (ws == x) ≡ true
    → (in_room key x p ≡ any (λ r. r == key) state.room_ids)
      × (of_user key x p ≡ (state.user_id == key))
      × (is_registered x p ≡ true)
unfolding in_room of_user is_registered
table_some key ws x state p h e =
    subst
      (λ y.
        (in_room key y p ≡ any (λ r. r == key) state.room_ids)
        × (of_user key y p ≡ (state.user_id == key))
        × (is_registered y p ≡ true))
      (eq_of_test ws x e) (rw (h, in_room) refl, rw (h, of_user) refl, rw (h, is_registered) refl)

-- A socket that is held under no key is not held under its equal.
apart_of_fresh :
    (room : String) (ws x : ℕ) (p : PresenceStore)
    → holds ws (sockets_of room p.room_sockets) ≡ false
    → (ws == x) ≡ true
    → holds x (sockets_of room p.room_sockets) ≡ false
apart_of_fresh room ws x p h e =
    subst (λ y. holds y (sockets_of room p.room_sockets) ≡ false) (eq_of_test ws x e) h

named_after_set :
    (state : ClientState) (p : PresenceStore) (ws : ℕ) (st : ClientState)
    → ((w : ℕ) (s : ClientState) → JsMap.get w p.client_states ≡ some s → s.ws ≡ w)
    → JsMap.get ws (JsMap.set state.ws state p.client_states) ≡ some st
    → st.ws ≡ ws
named_after_set state p ws st named h = elim (Bool-cases (state.ws == ws)) [
  | inl same ↦
      let e : state ≡ st = some_inj (rw (get-set state.ws ws state p.client_states, same) at h) in
      subst (λ s. s.ws ≡ ws) e (eq_of_test state.ws ws same)
  | inr apart ↦ named ws st (rw (get-set state.ws ws state p.client_states, apart) at h)
]

connects-Indexed :
    (state : ClientState) (p : PresenceStore)
    → JsMap.get state.ws p.client_states ≡ none
    → state.room_ids ≡ []
    → ((room : String) → holds state.ws (sockets_of room p.room_sockets) ≡ false)
    → Indexed p
    → Indexed (add_client state p)
unfolding add_client
connects-Indexed state p fresh nowhere new i = (
  λ room ws.
      rw
        (
          in_room_after room ws state p (add_client state p) refl,
          is_registered_after ws state p (add_client state p) refl,
          nowhere,
          add_client,
        )
        (ground (arith, i.0 room ws, apart_of_fresh room state.ws ws p (new room))),
  λ user ws.
      rw (of_user_after user ws state p (add_client state p) refl, add_client)
        (ground (
          arith,
          holds-add_socket state.user_id user state.ws ws p.user_sockets,
          i.1 user ws,
          table_none user state.ws ws p fresh,
        )),
  λ ws st h. named_after_set state p ws st i.2 h,
)

joined : ClientState → String → PresenceStore → ClientState
joined state room p = (add_socket_to_room state room p).1

any_end :
    (r : String) (xs : List String) (y : String)
    → any (λ x. x == r) (xs ++ y ∷ []) ≡ (any (λ x. x == r) xs || y == r)
any_end r [] y = ground arith
any_end r (x ∷ xs) y = ground (arith, any_end r xs y)

any_same :
    (r room : String) (xs : List String)
    → any (λ x. x == room) xs ≡ true
    → (room == r) ≡ true
    → any (λ x. x == r) xs ≡ true
any_same r room xs h e = subst (λ y. any (λ x. x == y) xs ≡ true) (eq_of_test room r e) h

joined_rooms :
    (state : ClientState) (room r : String) (p : PresenceStore)
    → any (λ x. x == r) (joined state room p).room_ids
      ≡ ((room == r) || any (λ x. x == r) state.room_ids)
unfolding joined add_socket_to_room
joined_rooms state room r p = elim (Bool-cases (any (λ x. x == room) state.room_ids)) [
  | inl there ↦ rw there (ground (arith, any_same r room state.room_ids there))
  | inr away ↦ rw away (ground (arith, any_end r state.room_ids room))
]

joins_table :
    (state : ClientState) (room : String) (p : PresenceStore)
    → JsMap.get state.ws p.client_states ≡ some state
    → (add_socket_to_room state room p).0.client_states
      ≡ JsMap.set (joined state room p).ws (joined state room p) p.client_states
unfolding joined add_socket_to_room
joins_table state room p h = rw (h, add_socket_to_room) refl

joins-Indexed :
    (state : ClientState) (room : String) (p : PresenceStore)
    → JsMap.get state.ws p.client_states ≡ some state
    → Indexed p
    → Indexed (add_socket_to_room state room p).0
unfolding joined add_socket_to_room
joins-Indexed state room p h i =
    let q = (add_socket_to_room state room p).0 in
    let table = joins_table state room p h in
    (
      λ r ws.
          rw
            (
              in_room_after r ws (joined state room p) p q table,
              is_registered_after ws (joined state room p) p q table,
              joined_rooms state room r p,
            )
            (ground (
              arith,
              holds-add_socket room r state.ws ws p.room_sockets,
              i.0 r ws,
              table_some r state.ws ws state p h,
            )),
      λ user ws.
          rw (of_user_after user ws (joined state room p) p q table)
            (ground (arith, i.1 user ws, table_some user state.ws ws state p h)),
      λ ws st g.
          named_after_set (joined state room p) p ws st i.2
            (subst (λ m. JsMap.get ws m ≡ some st) table g),
    )

-- A connection that has ended and joins a room leaves the table as it was.
late-Indexed :
    (state : ClientState) (room : String) (p : PresenceStore)
    → JsMap.get state.ws p.client_states ≡ none
    → Indexed p
    → Indexed (add_socket_to_room state room p).0
unfolding add_socket_to_room in_room of_user is_registered
late-Indexed state room p h i =
    rw (h, add_socket_to_room)
      (
        λ r ws. ground (
          arith,
          holds-add_socket room r state.ws ws p.room_sockets,
          i.0 r ws,
          table_none r state.ws ws p h,
        ),
        i.1,
        i.2,
      )

without : ClientState → ℕ → PresenceStore → PresenceStore
without state ws p = record {
  room_sockets = remove_from_rooms state.ws state.room_ids p.room_sockets;
  user_sockets = remove_socket state.user_id ws p.user_sockets;
  client_states = JsMap.delete ws p.client_states;
}

without-Indexed :
    (ws : ℕ) (state : ClientState) (p : PresenceStore)
    → JsMap.get ws p.client_states ≡ some state
    → Indexed p
    → Indexed (without state ws p)
unfolding without
without-Indexed ws state p h i = (
  λ r x.
      rw
        (
          in_room_without r ws x p (without state ws p) refl,
          is_registered_without ws x p (without state ws p) refl,
          i.2 ws state h,
        )
        (ground (
          arith,
          held-remove_from_rooms ws x r state.room_ids p.room_sockets,
          i.0 r x,
          table_some r ws x state p h,
        )),
  λ user x. rw (of_user_without user ws x p (without state ws p) refl) (
      ground (
        arith,
        held-remove_socket state.user_id user ws x p.user_sockets,
        i.1 user x,
        table_some user ws x state p h,
      )),
  λ x st g. i.2 x st (ground (arith, g, get-delete ws x p.client_states)),
)

leaves-Indexed : (ws : ℕ) (p : PresenceStore) → Indexed p → Indexed (remove_client ws p).0
unfolding remove_client remove_socket_from_rooms without
leaves-Indexed ws p i = elim (Option-cases (JsMap.get ws p.client_states)) [
  | inl stranger ↦
      let e : p ≡ (remove_client ws p).0 = rw (stranger, remove_client) refl in
      subst (λ q. Indexed q) e i
  | inr (state, h) ↦
      let e : without state ws p ≡ (remove_client ws p).0 = rw (h, remove_client) refl in
      subst (λ q. Indexed q) e (without-Indexed ws state p h i)
]

start-Indexed : Indexed empty_store
unfolding in_room of_user is_registered sockets_of JsMap.get
start-Indexed = (λ room ws. refl, λ user ws. refl, λ ws st h. absurd (cc h))

-- In every store that connections over new sockets, joins and departures reach, where a join may also
-- come from a connection that has ended, a socket of the table stands under a room just when its
-- connection has the room, and any socket stands under a user just when it has a connection in the
-- table, of that user.
pub Reached-Indexed : (p : PresenceStore) → Reached p → Indexed p
Reached-Indexed _ start = start-Indexed
Reached-Indexed _ (next q _ r (connects state _ fresh nowhere new)) =
    connects-Indexed state q fresh nowhere new (Reached-Indexed q r)
Reached-Indexed _ (next q _ r (joins state room _ (inl h))) =
    joins-Indexed state room q h (Reached-Indexed q r)
Reached-Indexed _ (next q _ r (joins state room _ (inr h))) =
    late-Indexed state room q h (Reached-Indexed q r)
Reached-Indexed _ (next q _ r (leaves ws _)) = leaves-Indexed ws q (Reached-Indexed q r)
