-- ===== src/Realtime/Fanout/Laws.antt =====
-- Who is told.
use mathlib.Core.List.{map}
use backend_sketch.Prelude.{
  ℕ, ◌≡◌, ◌≢◌, refl, sym, ap, ◌∙◌, Bool, true, false, not, String, none, some, List, [], ◌∷◌, ◌++◌,
  any, keep, All, All-append, AllPairs, arith, Bool-cases, Option-cases, inl, inr, ◌==◌, string_eq,
  nat_eq, if◌then◌else◌, ◌&&◌, ltb,
}
use backend_sketch.Prelude.JsMap.{JsMap}
use backend_sketch.Prelude.JsMap
use backend_sketch.RoomEvents.{RoomEvent}
use backend_sketch.Realtime.{ClientState, PresenceStore, sockets_of, send_json}
use backend_sketch.Realtime.Frames.{WsServerFrame, msg, Outgoing, frame, close, Wire, deliver}
use backend_sketch.Realtime.Fanout.{
  is_origin, receives, send_event, broadcast_room_event_to_local_clients, others_in, add_all,
  recipients_of,
}

-- The socket can take a frame now.
abbrev pub ready : Wire → ℕ → Bool
ready w ws = w.is_open ws && not (ltb w.send_buffer_limit (w.buffered_amount ws))

-- The socket is registered, and to neither the sender of the message nor its connection.
abbrev pub concerns : PresenceStore → RoomEvent → ℕ → Bool
concerns p event ws = elim (JsMap.get ws p.client_states) [
  | none ↦ false
  | some s ↦
      not (s.user_id == event.message.sender_id)
      && elim event.origin_connection_id [ none ↦ true | some o ↦ not (s.connection_id == o) ]
]

-- The frames alone, without the sockets that are closed for back-pressure.
abbrev pub frames : List Outgoing → List (ℕ × WsServerFrame)
frames [] = []
frames (frame ws f ∷ out) = (ws, f) ∷ frames out
frames (close ws ∷ out) = frames out

frames-append : (xs ys : List Outgoing) → frames (xs ++ ys) ≡ frames xs ++ frames ys
frames-append [] ys = refl
frames-append (frame ws f ∷ xs) ys = ap (λ zs. (ws, f) ∷ zs) (frames-append xs ys)
frames-append (close ws ∷ xs) ys = frames-append xs ys

frames-deliver :
    (w : Wire) (ws : ℕ) (f : WsServerFrame)
    → frames (deliver w ws f) ≡ (if ready w ws then (ws, f) ∷ [] else [])
unfolding deliver send_json
frames-deliver w ws f = ground arith

receives-eq :
    (event : RoomEvent) (s : ClientState)
    → receives event s ≡ (
        not (s.user_id == event.message.sender_id)
        && elim event.origin_connection_id [ none ↦ true | some o ↦ not (s.connection_id == o) ])
unfolding receives is_origin
receives-eq event s = ground arith

concerns_unknown :
    (p : PresenceStore) (event : RoomEvent) (ws : ℕ)
    → JsMap.get ws p.client_states ≡ none
    → concerns p event ws ≡ false
concerns_unknown p event ws e = rw (e, concerns) refl

concerns_known :
    (p : PresenceStore) (event : RoomEvent) (ws : ℕ) (s : ClientState)
    → JsMap.get ws p.client_states ≡ some s
    → concerns p event ws ≡ receives event s
concerns_known p event ws s e = rw (e, concerns) (sym (receives-eq event s))

-- What a socket of the room gets.
frames-send_event :
    (w : Wire) (p : PresenceStore) (event : RoomEvent) (sockets : List ℕ)
    → frames (send_event w p event sockets)
      ≡ map (λ ws. (ws, msg event.message)) (keep (λ ws. concerns p event ws && ready w ws) sockets)
unfolding send_event
frames-send_event w p event [] = refl
frames-send_event w p event (ws ∷ sockets) =
    let rest = frames-send_event w p event sockets in
    elim (Option-cases (JsMap.get ws p.client_states)) [
      | inl e ↦ rw (e, concerns_unknown p event ws e, send_event) rest
      | inr (s, e) ↦
          let c = concerns_known p event ws s e in
          elim (Bool-cases (receives event s)) [
            | inr f ↦ rw (e, f, send_event, c, f) rest
            | inl t ↦
                rw (e, t, send_event, c, t)
                  (frames-append (deliver w ws (msg event.message)) (send_event w p event sockets)
                    ∙ rw (frames-deliver w ws (msg event.message)) (ground (arith, rest)))
          ]
    ]

-- The frames that an event sends are its message, once for each place in the room's set whose socket is
-- registered, belongs to neither the sender nor the connection it came from, is open, and is not held
-- back.
pub broadcast_room_event-frames :
    (w : Wire) (p : PresenceStore) (event : RoomEvent)
    → frames (broadcast_room_event_to_local_clients w p (some event))
      ≡ map
          (λ ws. (ws, msg event.message))
          (keep (λ ws. concerns p event ws && ready w ws) (sockets_of event.room_id p.room_sockets))
unfolding broadcast_room_event_to_local_clients
broadcast_room_event-frames w p event =
    frames-send_event w p event (sockets_of event.room_id p.room_sockets)

-- A set to which an element is added that it does not have.
append_one-apart :
    (xs : List ℕ) (x : ℕ)
    → AllPairs ◌≢◌ xs
    → any (λ y. y == x) xs ≡ false
    → AllPairs ◌≢◌ (xs ++ x ∷ [])
append_one-apart [] x h f = (tt, tt)
append_one-apart (y ∷ xs) x h f = (
  All-append (◌≢◌ y) xs (x ∷ []) h.0 (ground arith, tt),
  append_one-apart xs x h.1 (ground arith),
)

add_all-apart : (set xs : List ℕ) → AllPairs ◌≢◌ set → AllPairs ◌≢◌ (add_all set xs)
unfolding add_all
add_all-apart set [] h = h
add_all-apart set (x ∷ xs) h = elim (Bool-cases (any (λ y. y == x) set)) [
  | inl known ↦ rw (known, add_all) (add_all-apart set xs h)
  | inr new ↦ rw (new, add_all) (add_all-apart (set ++ x ∷ []) xs (append_one-apart set x h new))
]

add_all-All {κ} : (P : ℕ → Type κ) (set xs : List ℕ) → All P set → All P xs → All P (add_all set xs)
unfolding add_all
add_all-All P set [] h k = h
add_all-All P set (x ∷ xs) h k = elim (Bool-cases (any (λ y. y == x) set)) [
  | inl known ↦ rw (known, add_all) (add_all-All P set xs h k.1)
  | inr new ↦
      rw (new, add_all)
        (add_all-All P (set ++ x ∷ []) xs (All-append P set (x ∷ []) h (k.0, tt)) k.1)
]

-- The socket is registered to another user.
abbrev pub Other : PresenceStore → String → ℕ → Type 0
Other p user ws = (s : ClientState) × (JsMap.get ws p.client_states ≡ some s) × (◌≢◌ s.user_id user)

others_in-Other :
    (p : PresenceStore) (user : String) (sockets : List ℕ)
    → All (Other p user) (others_in p user sockets)
unfolding others_in
others_in-Other p user [] = tt
others_in-Other p user (ws ∷ sockets) = elim (Option-cases (JsMap.get ws p.client_states)) [
  | inl e ↦ rw (e, others_in) (others_in-Other p user sockets)
  | inr (s, e) ↦ elim (Bool-cases (s.user_id == user)) [
    | inl same ↦ rw (e, same, others_in) (others_in-Other p user sockets)
    | inr other ↦ rw (e, other, others_in) ((s, e, ground arith), others_in-Other p user sockets)
  ]
]

-- From sockets that differ and are of other users, the sockets that hear of a user's presence differ,
-- and each is registered to another user.
pub recipients_of_others :
    (p : PresenceStore) (user : String) (rooms : List String) (set : List ℕ)
    → AllPairs ◌≢◌ set
    → All (Other p user) set
    → AllPairs ◌≢◌ (recipients_of p user rooms set)
      × All (Other p user) (recipients_of p user rooms set)
unfolding recipients_of
recipients_of_others p user [] set a o = (a, o)
recipients_of_others p user (room ∷ rooms) set a o =
    let more = others_in p user (sockets_of room p.room_sockets) in
    recipients_of_others p user rooms (add_all set more) (add_all-apart set more a) (
      add_all-All (Other p user) set more o
        (others_in-Other p user (sockets_of room p.room_sockets)))
