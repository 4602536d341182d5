-- ===== src/Realtime/Turns/Served.antt =====
-- The service over any turns keeps the indexes of its sockets.
use backend_sketch.Prelude.{
  ℕ, ◌≡◌, refl, sym, subst, Bool, true, false, String, Option, none, some, List, [], ◌∷◌, map, keep,
  ◌==◌, string_eq, nat_eq, Bool-cases, Option-cases, inl, inr, ◌&&◌,
}
use backend_sketch.Prelude.JsMap.{JsMap, get-set}
use backend_sketch.Prelude.JsMap
use backend_sketch.Prelude.Result.{Result}
use backend_sketch.Nats.{MessageWriteCommand}
use backend_sketch.RateLimit.{RateLimitOptions, RateLimitResult}
use backend_sketch.RoomEvents.{truthy}
use backend_sketch.Accounts.Auth.{JwtPayload}
use backend_sketch.Realtime.{
  ClientState, PresenceStore, empty_store, sockets_of, add_client, remove_client,
}
use backend_sketch.Realtime.Sockets.{holds}
use backend_sketch.Realtime.Registry.{
  connects, leaves, Reached, next, start, Indexed, Reached-Indexed,
}
use backend_sketch.Realtime.Server.{Service, count}
use backend_sketch.Realtime.Setup.{accept, preload, announce, set_up}
use backend_sketch.Realtime.Setup.Laws.{Registered, add_rooms-Reached, close-store}
use backend_sketch.Realtime.Turns.{
  Moment, Task, limits_send, joins_send, buffers_send, limits_typing, joins_typing, sets_up, Event,
  accepts, receives, resumes, closes, Server, await_task, pick,
}
use backend_sketch.Realtime.Turns.Handlers.{
  receive, limit_send, join_send, buffer_send, limit_typing, join_typing, finish_set_up, resume,
  connect, leave, turn,
}
use backend_sketch.Realtime.Turns.Laws.{
  Owned, Owned-set, IsSound, Same-IsSound, receive-Same, limit_send-Same, limit_typing-Same,
  buffer_send-Same, join_send-IsSound, join_typing-IsSound, with_state-IsSound,
}

nobody-Owned : Owned []
unfolding JsMap.get
nobody-Owned ws state h = absurd (cc h)

module _ {ℓ} {L P : Type ℓ} {E : Type 0}
    (check : String → RateLimitOptions → L → L × RateLimitResult) (send_limit typing_limit : ℕ)
    (sha256 : String → String) (publish : MessageWriteCommand → P → P × Result E (Unit {0}))
    (verify_token : String → Option JwtPayload) (preloads : Bool) (m : Moment) where
  named :
      (ws : ℕ) (state : ClientState) (p : PresenceStore)
      → Reached p
      → JsMap.get ws p.client_states ≡ some state
      → Registered (p, state)
  named ws state p k h =
      subst (λ w. JsMap.get w p.client_states ≡ some state)
        (sym ((Reached-Indexed p k).2 ws state h)) h

  set_up-Reached :
      (loads : Bool) (ws : ℕ) (connection : String) (was_online : Bool) (s : Service L P)
      → Reached s.store
      → Reached
          (set_up m.wire m.members check send_limit typing_limit sha256 publish m.now loads ws
            connection was_online s).store
  unfolding set_up preload announce
  set_up-Reached loads ws connection was_online s k =
      elim (Option-cases (JsMap.get ws s.store.client_states)) [
        | inl a ↦ rw (a, set_up) k
        | inr (state, a) ↦
            elim (Bool-cases (m.wire.is_open ws && (state.connection_id == connection))) [
              | inr changed ↦ rw (a, changed, set_up) k
              | inl same ↦ elim (Bool-cases loads) [
                | inl first ↦
                    rw (a, same, first, set_up)
                      (add_rooms-Reached
                        (map (λ x. x.room_id) (keep (λ x. x.user_id == state.user_id) m.members))
                        (s.store, state) (named ws state s.store k a) k)
                | inr later ↦ elim (Bool-cases was_online) [
                  | inl before ↦ rw (a, same, later, before, set_up) k
                  | inr new ↦ rw (a, same, later, new, set_up) k
                ]
              ]
            ]
      ]

  resume-IsSound :
      (t : Task) (v : Server L P)
      → IsSound v
      → IsSound (resume check send_limit typing_limit sha256 publish verify_token preloads m t v)
  unfolding resume finish_set_up
  resume-IsSound (limits_send ws input) v k =
      with_state-IsSound check send_limit typing_limit sha256 publish verify_token preloads m ws
        (λ x.
          limit_send check send_limit typing_limit sha256 publish verify_token preloads m x input)
        v
        (λ x h.
          Same-IsSound v
            (limit_send check send_limit typing_limit sha256 publish verify_token preloads m x input
              v)
            (limit_send-Same check send_limit typing_limit sha256 publish verify_token preloads m x
              input v)
            k)
        k
  resume-IsSound (joins_send ws input) v k =
      with_state-IsSound check send_limit typing_limit sha256 publish verify_token preloads m ws
        (λ x.
          join_send check send_limit typing_limit sha256 publish verify_token preloads m x input)
        v
        (λ x h.
          join_send-IsSound check send_limit typing_limit sha256 publish verify_token preloads m x
            input v h k)
        k
  resume-IsSound (buffers_send ws input) v k =
      with_state-IsSound check send_limit typing_limit sha256 publish verify_token preloads m ws
        (λ x.
          buffer_send check send_limit typing_limit sha256 publish verify_token preloads m x input)
        v
        (λ x h.
          Same-IsSound v
            (buffer_send check send_limit typing_limit sha256 publish verify_token preloads m x
              input v)
            (buffer_send-Same check send_limit typing_limit sha256 publish verify_token preloads m x
              input v)
            k)
        k
  resume-IsSound (limits_typing ws chat b) v k =
      with_state-IsSound check send_limit typing_limit sha256 publish verify_token preloads m ws
        (λ x.
          limit_typing check send_limit typing_limit sha256 publish verify_token preloads m x chat
            b)
        v
        (λ x h.
          Same-IsSound v
            (limit_typing check send_limit typing_limit sha256 publish verify_token preloads m x
              chat b v)
            (limit_typing-Same check send_limit typing_limit sha256 publish verify_token preloads m
              x chat b v)
            k)
        k
  resume-IsSound (joins_typing ws chat b) v k =
      with_state-IsSound check send_limit typing_limit sha256 publish verify_token preloads m ws
        (λ x.
          join_typing check send_limit typing_limit sha256 publish verify_token preloads m x chat b)
        v
        (λ x h.
          join_typing-IsSound check send_limit typing_limit sha256 publish verify_token preloads m x
            chat b v h k)
        k
  resume-IsSound (sets_up ws connection was_online) v k =
      (set_up-Reached true ws connection was_online v.service k.0, k.1)

  -- A socket that is accepted is new: nothing knows it.
  abbrev pub IsNew : Event → Server L P → Type 0
  IsNew (accepts ws token connection) v =
      (JsMap.get ws v.service.store.client_states ≡ none)
      × ((room : String) → holds ws (sockets_of room v.service.store.room_sockets) ≡ false)
  IsNew (receives ws frame) v = Unit
  IsNew (resumes n) v = Unit
  IsNew (closes ws) v = Unit

  accept-Reached :
      (ws : ℕ) (token : Option String) (connection : String) (s : Service L P)
      → JsMap.get ws s.store.client_states ≡ none
      → ((room : String) → holds ws (sockets_of room s.store.room_sockets) ≡ false)
      → Reached s.store
      → Reached
          (accept m.wire m.members check send_limit typing_limit sha256 publish m.now verify_token
            ws token connection s).0.store
  unfolding accept count
  accept-Reached ws token connection s fresh new k = elim (Option-cases (truthy token)) [
    | inl a ↦ rw (a, accept) k
    | inr (t, a) ↦ elim (Option-cases (verify_token t)) [
      | inl b ↦ rw (a, b, accept) k
      | inr (user, b) ↦
          let state : ClientState = record {
            ws = ws;
            user_id = user.user_id;
            room_ids = [];
            connection_id = connection;
          } in
          rw (a, b, accept)
            (next s.store (add_client state s.store) k (connects state s.store fresh refl new))
    ]
  ]

  leave-IsSound :
      (ws : ℕ) (v : Server L P)
      → IsSound v
      → IsSound (leave check send_limit typing_limit sha256 publish verify_token preloads m ws v)
  unfolding leave
  leave-IsSound ws v k =
      let p = v.service.store in
      (
        subst (λ q. Reached q)
            (sym (
              close-store m.wire m.members check send_limit typing_limit sha256 publish m.now ws
                v.service))
            (next p (remove_client ws p).0 k.0 (leaves ws p)),
        elim (Option-cases (JsMap.get ws p.client_states)) [
          | inl nobody ↦ rw (nobody, leave) k.1
          | inr (state, h) ↦
              rw (h, leave)
                (subst (λ w. Owned (JsMap.set w state v.ended))
                  ((Reached-Indexed p k.0).2 ws state h) (Owned-set state v.ended k.1))
        ],
      )

  turn-IsSound :
      (e : Event) (v : Server L P)
      → IsNew e v
      → IsSound v
      → IsSound (turn check send_limit typing_limit sha256 publish verify_token preloads m e v)
  unfolding turn connect finish_set_up await_task
  turn-IsSound (accepts ws token connection) v new k =
      let a = accept-Reached ws token connection v.service new.0 new.1 k.0 in
      elim (Bool-cases preloads) [
        | inl loads ↦ rw (loads, turn, connect) (a, k.1)
        | inr later ↦ rw (later, turn, connect) (set_up-Reached false ws connection _ _ a, k.1)
      ]
  turn-IsSound (receives ws frame) v new k =
      with_state-IsSound check send_limit typing_limit sha256 publish verify_token preloads m ws
        (λ x. receive check send_limit typing_limit sha256 publish verify_token preloads m x frame)
        v
        (λ x h.
          Same-IsSound v
            (receive check send_limit typing_limit sha256 publish verify_token preloads m x frame v)
            (receive-Same check send_limit typing_limit sha256 publish verify_token preloads m x
              frame v)
            k)
        k
  turn-IsSound (resumes n) v new k = elim (Option-cases (pick n v.tasks)) [
    | inl nothing ↦ rw (nothing, turn) k
    | inr ((t, rest), h) ↦ rw (h, turn) (resume-IsSound t (record v { tasks = rest }) k)
  ]
  turn-IsSound (closes ws) v new k = leave-IsSound ws v k

module _ {ℓ} {L P : Type ℓ} {E : Type 0}
    (check : String → RateLimitOptions → L → L × RateLimitResult) (send_limit typing_limit : ℕ)
    (sha256 : String → String) (publish : MessageWriteCommand → P → P × Result E (Unit {0}))
    (verify_token : String → Option JwtPayload) (preloads : Bool) where
  -- The turns one after the other, each at its own moment.
  unfoldable pub turns : List (Moment × Event) → Server L P → Server L P
  unfolding turn
  turns [] v = v
  turns ((m, e) ∷ es) v =
      turns es (turn check send_limit typing_limit sha256 publish verify_token preloads m e v)

  -- Each socket that is accepted on the way is new.
  unfoldable pub AllNew : List (Moment × Event) → Server L P → Type 0
  AllNew [] v = Unit
  AllNew ((m, e) ∷ es) v =
      IsNew check send_limit typing_limit sha256 publish verify_token preloads m e v
      × AllNew es (turn check send_limit typing_limit sha256 publish verify_token preloads m e v)

  turns-IsSound :
      (es : List (Moment × Event)) (v : Server L P) → AllNew es v → IsSound v → IsSound (turns es v)
  unfolding turns AllNew
  turns-IsSound [] v n k = k
  turns-IsSound ((m, e) ∷ es) v n k =
      turns-IsSound es
        (turn check send_limit typing_limit sha256 publish verify_token preloads m e v) n.1
        (turn-IsSound check send_limit typing_limit sha256 publish verify_token preloads m e v n.0
          k)

  -- From a server that nothing has reached yet, after any turns of the listeners and of the handlers
  -- that wait, interleaved in any way and each at its own moment, also those of connections that have
  -- ended, where every accepted socket is new: the users' index of the store says what the table of
  -- connections says, and the rooms' index says it of every socket that is registered.
  pub turns-Indexed :
      (es : List (Moment × Event)) (v : Server L P)
      → v.service.store ≡ empty_store
      → v.ended ≡ []
      → AllNew es v
      → Indexed (turns es v).service.store
  turns-Indexed es v e f n =
      let k : IsSound v =
        (subst (λ p. Reached p) (sym e) start, subst (λ o. Owned o) (sym f) nobody-Owned) in
      Reached-Indexed (turns es v).service.store (turns-IsSound es v n k).0
