-- ===== src/Realtime/Online.antt =====
-- Who has an open socket, and a connection that joins a room after it ended
-- (`hasOpenSocketForUser`, `addSocketToRoom` and `removeClient` of realtime.service.ts).
use backend_sketch.Prelude.{
  ℕ, ◌≡◌, ◌↔◌, refl, sym, subst, Bool, true, String, none, some, List, [], ◌∷◌, any, ◌==◌, nat_eq,
  string_eq, arith, Bool-cases, Option-cases, inl, inr, eq_of_test, test_of_eq,
}
use backend_sketch.Prelude.JsMap.{JsMap, get-delete}
use backend_sketch.Prelude.JsMap
use backend_sketch.Realtime.{
  ClientState, PresenceStore, sockets_of, remove_client, add_socket_to_room,
  has_open_socket_for_user,
}
use backend_sketch.Realtime.Sockets.{holds}
use backend_sketch.Realtime.Sockets.Index.{holds-add_socket}
use backend_sketch.Realtime.Registry.{of_user, Reached, Reached-Indexed}

-- An open socket of a connection of the user.
abbrev pub Open : (ℕ → Bool) → String → PresenceStore → Type 0
Open is_open user p =
    (ws : ℕ) × (state : ClientState) × (JsMap.get ws p.client_states ≡ some state)
    × (state.user_id ≡ user)
    × (is_open ws ≡ true)

any-holds :
    (f : ℕ → Bool) (xs : List ℕ) → any f xs ≡ true → (x : ℕ) × (holds x xs ≡ true) × (f x ≡ true)
any-holds f [] h = absurd (cc h)
any-holds f (x ∷ xs) h = elim (Bool-cases (f x)) [
  | inl here ↦ (x, ground (arith, test_of_eq x x refl), here)
  | inr there ↦ let r = any-holds f xs (ground (arith, h, there)) in (r.0, ground (arith, r.1), r.2)
]

holds-any : (f : ℕ → Bool) (x : ℕ) (xs : List ℕ) → holds x xs ≡ true → f x ≡ true → any f xs ≡ true
holds-any f x [] h g = absurd (cc h)
holds-any f x (y ∷ xs) h g = elim (Bool-cases (y == x)) [
  | inl same ↦ let e = eq_of_test y x same in ground (arith, subst (λ z. f z ≡ true) (sym e) g)
  | inr apart ↦ ground (arith, holds-any f x xs (ground (arith, h, apart)) g)
]

of_user-state :
    (user : String) (ws : ℕ) (p : PresenceStore)
    → of_user user ws p ≡ true
    → (state : ClientState) × (JsMap.get ws p.client_states ≡ some state) × (state.user_id ≡ user)
unfolding of_user
of_user-state user ws p h = elim (Option-cases (JsMap.get ws p.client_states)) [
  | inl stranger ↦ absurd (cc (rw (stranger, of_user) at h))
  | inr (state, found) ↦ (state, found, eq_of_test state.user_id user (rw (found, of_user) at h))
]

-- In a store that connections reach, the test for an open socket says just whether a connection of the
-- user has one.
pub has_open_socket_lem :
    (is_open : ℕ → Bool) (user : String) (p : PresenceStore)
    → Reached p
    → (has_open_socket_for_user is_open user p ≡ true) ↔ Open is_open user p
unfolding has_open_socket_for_user of_user
has_open_socket_lem is_open user p r =
    let i = (Reached-Indexed p r).1 in
    (
      λ h.
          let found = any-holds is_open (sockets_of user p.user_sockets) h in
          let s = of_user-state user found.0 p (subst (λ b. b ≡ true) (i user found.0) found.1) in
          (found.0, s.0, s.1, s.2, found.2),
      λ o.
          holds-any is_open o.0 (sockets_of user p.user_sockets)
            (subst (λ b. b ≡ true) (sym (i user o.0))
              (rw (o.2, of_user) (test_of_eq o.1.user_id user o.3)))
            o.4,
    )

no_connection :
    (ws : ℕ) (p : PresenceStore) → JsMap.get ws (remove_client ws p).0.client_states ≡ none
unfolding remove_client
no_connection ws p = elim (Option-cases (JsMap.get ws p.client_states)) [
  | inl stranger ↦ rw (stranger, remove_client) stranger
  | inr (state, found) ↦
      rw (found, remove_client)
        (ground (arith, get-delete ws ws p.client_states, test_of_eq ws ws refl))
]

removes_nothing :
    (ws : ℕ) (p : PresenceStore) → JsMap.get ws p.client_states ≡ none → (remove_client ws p).0 ≡ p
unfolding remove_client
removes_nothing ws p stranger = rw (stranger, remove_client) refl

late_join :
    (state : ClientState) (room : String) (p : PresenceStore)
    → JsMap.get state.ws p.client_states ≡ none
    → (JsMap.get state.ws (add_socket_to_room state room p).0.client_states ≡ none)
      × (holds state.ws (sockets_of room (add_socket_to_room state room p).0.room_sockets) ≡ true)
unfolding add_socket_to_room
late_join state room p stranger = (
  rw (stranger, add_socket_to_room) stranger,
  ground (
    arith,
    holds-add_socket room room state.ws state.ws p.room_sockets,
    test_of_eq room room refl,
    test_of_eq state.ws state.ws refl,
  ),
)

-- A connection that ended before it joined a room, as when its send was at an await, stays in the
-- room: the store knows the socket no more, and to remove it again does nothing.
pub late_join_stays :
    (state : ClientState) (room : String) (p : PresenceStore)
    → let q = (add_socket_to_room state room (remove_client state.ws p).0).0 in
      (JsMap.get state.ws q.client_states ≡ none)
      × (holds state.ws (sockets_of room q.room_sockets) ≡ true)
      × ((remove_client state.ws q).0 ≡ q)
late_join_stays state room p =
    let q = (add_socket_to_room state room (remove_client state.ws p).0).0 in
    let l = late_join state room (remove_client state.ws p).0 (no_connection state.ws p) in
    (l.0, l.1, removes_nothing state.ws q l.0)
