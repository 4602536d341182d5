-- ===== src/Realtime/Turns/Laws.antt =====
-- What a turn of a handler keeps of the store of sockets.
use backend_sketch.Prelude.{
  ℕ, ◌≡◌, refl, sym, subst, Bool, String, Option, none, some, ◌==◌, string_eq, nat_eq, Bool-cases,
  Option-cases, inl, inr, ◌⊎◌, arith, some_inj, eq_of_test,
}
use backend_sketch.Prelude.JsMap.{JsMap, get-set}
use backend_sketch.Prelude.JsMap
use backend_sketch.Prelude.Result.{Result}
use backend_sketch.Db.{is_member}
use backend_sketch.Nats.{MessageWriteCommand}
use backend_sketch.RateLimit.{RateLimitOptions, RateLimitResult}
use backend_sketch.Chats.Buffered.{BufferedInput}
use backend_sketch.Accounts.Auth.{JwtPayload}
use backend_sketch.Realtime.{ClientState, PresenceStore, add_socket_to_room}
use backend_sketch.Realtime.Frames.{RawFrame}
use backend_sketch.Realtime.Registry.{joins, Reached, next, Reached-Indexed}
use backend_sketch.Realtime.Server.{count, say}
use backend_sketch.Realtime.Setup.Laws.{send_buffered-store}
use backend_sketch.Realtime.Turns.{Moment, Server, state_of, await_task, enter}
use backend_sketch.Realtime.Turns.Handlers.{
  tell, tally, open_send, open_typing, unknown_frame, receive, index_room, limit_send, join_send,
  buffer_send, tell_typing, limit_typing, join_typing, with_state,
}

-- The states of ended connections stand under their own sockets.
abbrev pub Owned : JsMap ℕ ClientState → Type 0
Owned m = (ws : ℕ) (state : ClientState) → JsMap.get ws m ≡ some state → state.ws ≡ ws

pub Owned-set :
    (state : ClientState) (m : JsMap ℕ ClientState) → Owned m → Owned (JsMap.set state.ws state m)
Owned-set state m o ws st h = elim (Bool-cases (state.ws == ws)) [
  | inl same ↦
      let e : state ≡ st = some_inj (rw (get-set state.ws ws state m, same) at h) in
      subst (λ s. s.ws ≡ ws) e (eq_of_test state.ws ws same)
  | inr apart ↦ o ws st (rw (get-set state.ws ws state m, apart) at h)
]

joined_ws :
    (state : ClientState) (room : String) (p : PresenceStore)
    → (add_socket_to_room state room p).1.ws ≡ state.ws
unfolding add_socket_to_room
joined_ws state room p = refl

module _ {ℓ} {L P : Type ℓ} where
  -- Connections reach the store.
  abbrev pub IsSound : Server L P → Type 0
  IsSound v = Reached v.service.store × Owned v.ended

  -- A turn that leaves the store and the ended connections.
  abbrev pub Same : Server L P → Server L P → Type 0
  Same v w = (w.service.store ≡ v.service.store) × (w.ended ≡ v.ended)

  pub Same-IsSound : (v w : Server L P) → Same v w → IsSound v → IsSound w
  Same-IsSound v w e k = (subst (λ p. Reached p) (sym e.0) k.0, subst (λ m. Owned m) (sym e.1) k.1)

  -- A state that a listener holds: the registered one, or one of an ended connection.
  abbrev pub Held : ClientState → Server L P → Type 0
  Held state v =
      (JsMap.get state.ws v.service.store.client_states ≡ some state)
      ⊎ (JsMap.get state.ws v.service.store.client_states ≡ none)

  state_of-Held :
      (ws : ℕ) (state : ClientState) (v : Server L P)
      → IsSound v
      → state_of ws v ≡ some state
      → Held state v
  unfolding state_of
  state_of-Held ws state v k h = elim (Option-cases (JsMap.get ws v.service.store.client_states)) [
    | inr (st, e) ↦
        let same : st ≡ state = some_inj (rw (e, state_of) at h) in
        let own = (Reached-Indexed v.service.store k.0).2 ws st e in
        inl (
          subst (λ s. JsMap.get s.ws v.service.store.client_states ≡ some s) same
            (subst (λ w. JsMap.get w v.service.store.client_states ≡ some st) (sym own) e))
    | inl e ↦
        let own = k.1 ws state (rw (e, state_of) at h) in
        inr (subst (λ w. JsMap.get w v.service.store.client_states ≡ none) (sym own) e)
  ]

  enter-IsSound :
      (state : ClientState) (room : String) (v : Server L P)
      → Held state v
      → IsSound v
      → IsSound (enter state room v)
  unfolding enter
  enter-IsSound state room v h k =
      let p = v.service.store in
      let j = (add_socket_to_room state room p).1 in
      (
        next p (add_socket_to_room state room p).0 k.0 (joins state room p h),
        elim h [
          | inl there ↦ rw (there, enter) k.1
          | inr ended ↦
              rw (ended, enter)
                (subst (λ w. Owned (JsMap.set w j v.ended)) (joined_ws state room p)
                  (Owned-set j v.ended k.1))
        ],
      )

module _ {ℓ} {L P : Type ℓ} {E : Type 0}
    (check : String → RateLimitOptions → L → L × RateLimitResult) (send_limit typing_limit : ℕ)
    (sha256 : String → String) (publish : MessageWriteCommand → P → P × Result E (Unit {0}))
    (verify_token : String → Option JwtPayload) (preloads : Bool) (m : Moment) where
  pub receive-Same :
      (state : ClientState) (frame : Option RawFrame) (v : Server L P)
      → Same v (
          receive check send_limit typing_limit sha256 publish verify_token preloads m state frame
            v)
  unfolding receive open_send open_typing unknown_frame tell tally await_task say count
  receive-Same state none v = (refl, refl)
  receive-Same state (some f) v = ground arith

  pub limit_send-Same :
      (state : ClientState) (input : BufferedInput) (v : Server L P)
      → Same v (
          limit_send check send_limit typing_limit sha256 publish verify_token preloads m state
            input v)
  unfolding limit_send index_room tell tally await_task say count
  limit_send-Same state input v = ground arith

  pub limit_typing-Same :
      (state : ClientState) (chat : String) (b : Bool) (v : Server L P)
      → Same v (
          limit_typing check send_limit typing_limit sha256 publish verify_token preloads m state
            chat b v)
  unfolding limit_typing tell_typing tell tally await_task say count
  limit_typing-Same state chat b v = ground arith

  pub buffer_send-Same :
      (state : ClientState) (input : BufferedInput) (v : Server L P)
      → Same v (
          buffer_send check send_limit typing_limit sha256 publish verify_token preloads m state
            input v)
  unfolding buffer_send
  buffer_send-Same state input v = (
    send_buffered-store m.wire m.members check send_limit typing_limit sha256 publish m.now state
        input v.service,
    refl,
  )

  pub join_send-IsSound :
      (state : ClientState) (input : BufferedInput) (v : Server L P)
      → Held state v
      → IsSound v
      → IsSound (
          join_send check send_limit typing_limit sha256 publish verify_token preloads m state input
            v)
  unfolding join_send await_task tell say
  join_send-IsSound state input v h k =
      elim (Bool-cases (is_member state.user_id input.chat_id m.members)) [
        | inl member ↦ rw (member, join_send) (enter-IsSound state input.chat_id v h k)
        | inr stranger ↦ rw (stranger, join_send) k
      ]

  pub join_typing-IsSound :
      (state : ClientState) (chat : String) (b : Bool) (v : Server L P)
      → Held state v
      → IsSound v
      → IsSound (
          join_typing check send_limit typing_limit sha256 publish verify_token preloads m state
            chat b v)
  unfolding join_typing tell_typing tell say
  join_typing-IsSound state chat b v h k =
      elim (Bool-cases (is_member state.user_id chat m.members)) [
        | inl member ↦ rw (member, join_typing) (enter-IsSound state chat v h k)
        | inr stranger ↦ rw (stranger, join_typing) k
      ]

  pub with_state-IsSound :
      (ws : ℕ) (f : ClientState → Server L P → Server L P) (v : Server L P)
      → ((state : ClientState) → Held state v → IsSound (f state v))
      → IsSound v
      → IsSound
          (with_state check send_limit typing_limit sha256 publish verify_token preloads m ws f v)
  unfolding with_state
  with_state-IsSound ws f v each k = elim (Option-cases (state_of ws v)) [
    | inl nobody ↦ rw (nobody, with_state) k
    | inr (state, h) ↦ rw (h, with_state) (each state (state_of-Held ws state v k h))
  ]
