-- ===== src/Realtime/Setup/Laws.antt =====
-- What the set-up and the end of a connection do to the store.
use backend_sketch.Prelude.{
  ℕ, ◌≡◌, refl, sym, subst, Bool, true, String, none, some, List, [], ◌∷◌, string_eq, nat_eq,
  Bool-cases, Option-cases, inl, inr, ◌⊎◌, arith, test_of_eq,
}
use backend_sketch.Prelude.JsMap.{JsMap, get-set}
use backend_sketch.Prelude.JsMap
use backend_sketch.Prelude.Result.{Result, Result-cases}
use backend_sketch.Db.{RoomMember}
use backend_sketch.Nats.{MessageWriteCommand}
use backend_sketch.RateLimit.{RateLimitOptions, RateLimitResult}
use backend_sketch.Chats.Buffered.{BufferedInput, create_buffered_message}
use backend_sketch.Realtime.{
  ClientState, PresenceStore, add_socket_to_room, remove_client, has_open_socket_for_user,
}
use backend_sketch.Realtime.Frames.{Field, RawFrame, Wire, nonempty_text}
use backend_sketch.Realtime.Frames
use backend_sketch.Realtime.Registry.{joins, Reached, next}
use backend_sketch.Realtime.Server.{Service, instrument, send_buffered, on_close, count, say}
use backend_sketch.Realtime.Setup.{add_rooms}

-- The connection is registered with its state.
abbrev pub Registered : PresenceStore × ClientState → Type 0
Registered (p, state) = JsMap.get state.ws p.client_states ≡ some state

join-Registered :
    (state : ClientState) (room : String) (p : PresenceStore)
    → Registered (p, state)
    → Registered (add_socket_to_room state room p)
unfolding add_socket_to_room
join-Registered state room p h =
    let j : ClientState = (add_socket_to_room state room p).1 in
    let e : (add_socket_to_room state room p).0.client_states
        ≡ JsMap.set state.ws j p.client_states =
      rw (h, add_socket_to_room) refl in
    subst (λ m. JsMap.get state.ws m ≡ some j) (sym e)
      (ground
        (arith, get-set state.ws state.ws j p.client_states, test_of_eq state.ws state.ws refl))

pub add_rooms-Reached :
    (rooms : List String) (r : PresenceStore × ClientState)
    → Registered r
    → Reached r.0
    → Reached (add_rooms rooms r).0
unfolding add_rooms
add_rooms-Reached [] (p, state) h k = k
add_rooms-Reached (room ∷ rooms) (p, state) h k =
    add_rooms-Reached rooms (add_socket_to_room state room p) (join-Registered state room p h)
      (next p (add_socket_to_room state room p).0 k (joins state room p (inl h)))

pub Field-cases :
    (f : Field)
    → ((b : Bool) × (f ≡ Frames.boolean b))
      ⊎ (((t : String) × (f ≡ Frames.text t)) ⊎ (f ≡ Frames.other))
Field-cases (Frames.boolean b) = inl (b, refl)
Field-cases (Frames.text t) = inr (inl (t, refl))
Field-cases Frames.other = inr (inr refl)

module _ {ℓ} {L P : Type ℓ} {E : Type 0} (wire : Wire) (members : List RoomMember)
    (check : String → RateLimitOptions → L → L × RateLimitResult) (send_limit typing_limit : ℕ)
    (sha256 : String → String) (publish : MessageWriteCommand → P → P × Result E (Unit {0}))
    (now : ℕ) where
  pub send_buffered-store :
      (state : ClientState) (input : BufferedInput) (s : Service L P)
      → (send_buffered wire members check send_limit typing_limit sha256 publish now state input
          s).store
        ≡ s.store
  unfolding send_buffered say count
  send_buffered-store state input s =
      let call =
        create_buffered_message sha256 (instrument publish) none (some state.connection_id) true now
          input [] s.buffer in
      elim (Result-cases call.1) [
        | inl (e, h) ↦ rw (h, send_buffered) refl
        | inr (m, h) ↦ rw (h, send_buffered) refl
      ]

  pub close-store :
      (ws : ℕ) (s : Service L P)
      → (on_close wire members check send_limit typing_limit sha256 publish now ws s).store
        ≡ (remove_client ws s.store).0
  unfolding on_close count
  close-store ws s = elim (Option-cases (remove_client ws s.store).1) [
    | inl stranger ↦ rw (stranger, on_close) refl
    | inr (closed, a) ↦
        elim (Bool-cases
          (has_open_socket_for_user wire.is_open closed.user_id (remove_client ws s.store).0)) [
            | inl still ↦ rw (a, still, on_close) refl
            | inr gone ↦ rw (a, gone, on_close) refl
          ]
  ]
