-- ===== src/Realtime/Server/Sends.antt =====
-- What a client is told of a message that it sends.
use backend_sketch.Prelude.{
  some_inj, ℕ, ◌≡◌, refl, sym, subst, ap, true, false, String, Option, none, some, List, [], ◌++◌,
  any, Bool-cases, Option-cases, inl, inr, ◌⊎◌, ◌==◌, string_eq, ◌||◌,
}
use backend_sketch.Prelude.Result.{Result, Result-cases}
use backend_sketch.Api.{MessageDto, WsErrorReason}
use backend_sketch.Db.{RoomMember, is_member}
use backend_sketch.Nats.{MessageWriteCommand}
use backend_sketch.RateLimit.{RateLimitOptions, RateLimitResult}
use backend_sketch.Chats.Buffered.{
  BufferedInput, create_buffered_message, create_buffered_message_accepted, command_of, TookCommand,
  to_pending_message_dto,
}
use backend_sketch.Realtime.{ClientState, PresenceStore, add_socket_to_room}
use backend_sketch.Realtime.Frames.{
  WsServerFrame, ack, error, Wire, deliver, error_frame, map_app_error_to_ws_reason,
}
use backend_sketch.Realtime.Server.{
  Service, RealtimeCounters, instrument, say, count, count_limited_send, ensure_room_indexed,
  send_buffered, handle_valid_send,
}

module _ {ℓ} {L P : Type ℓ} {E : Type 0} (wire : Wire) (members : List RoomMember)
    (check : String → RateLimitOptions → L → L × RateLimitResult) (send_limit typing_limit : ℕ)
    (sha256 : String → String) (publish : MessageWriteCommand → P → P × Result E (Unit {0}))
    (now : ℕ) where
  -- The command of the message, as the buffer takes it.
  abbrev pub command : String → BufferedInput → MessageWriteCommand
  command connection input =
      command_of sha256 (instrument publish) none (some connection) true now input

  abbrev pub Took : String → BufferedInput → P × RealtimeCounters → Type ℓ
  Took connection input b =
      (b' : P × RealtimeCounters) × TookCommand sha256 (instrument publish) none (some connection)
        true now (command connection input) b b'

  -- What is said after a send: an acknowledgement of a command that the buffer took, or an error.
  abbrev pub Verdict : String → BufferedInput → P × RealtimeCounters → WsServerFrame → Type ℓ
  Verdict connection input b f =
      ((f ≡ ack input.request_id (command connection input).message_id now)
        × Took connection input b)
      ⊎ ((reason : WsErrorReason) × (q : Option String) × (d : Option String) × (f
            ≡ error reason q d))

  send_buffered_says :
      (state : ClientState) (input : BufferedInput) (s : Service L P)
      → (f : WsServerFrame) × ((send_buffered wire members check send_limit typing_limit sha256
            publish now state input s).out
          ≡ s.out ++ deliver wire state.ws f)
        × Verdict state.connection_id input s.buffer f
  unfolding send_buffered say count error_frame to_pending_message_dto command_of
  send_buffered_says state input s =
      let call =
        create_buffered_message sha256 (instrument publish) none (some state.connection_id) true now
          input [] s.buffer in
      elim (Result-cases call.1) [
        | inl (e, h) ↦ (
          error_frame (map_app_error_to_ws_reason e) e.message (some input.request_id),
          rw (h, send_buffered) refl,
          inr (map_app_error_to_ws_reason e, _, _, refl),
        )
        | inr (m, h) ↦
            let a =
              create_buffered_message_accepted sha256 (instrument publish) none
                (some state.connection_id) true now input [] s.buffer call.0 m
                (ap (λ r. (call.0, r)) h) in
            (
              ack input.request_id m.id m.created_at,
              rw (h, send_buffered) refl,
              inl (
                ap (λ (d : MessageDto). ack input.request_id d.id d.created_at) a.2,
                (call.0, a.3),
              ),
            )
      ]

  -- The user may write to the chat: their connection knows it, or the table does.
  abbrev pub MayWrite : ClientState → String → Type 0
  MayWrite state chat =
      (any (λ r. r == chat) state.room_ids || is_member state.user_id chat members) ≡ true

  pub ensure_joined :
      (state : ClientState) (chat : String) (p : PresenceStore)
      → any (λ r. r == chat) state.room_ids ≡ false
      → is_member state.user_id chat members ≡ true
      → ensure_room_indexed wire members check send_limit typing_limit sha256 publish now state chat
          p
        ≡ some (add_socket_to_room state chat p)
  unfolding ensure_room_indexed
  ensure_joined state chat p unknown member = rw (unknown, member) refl

  keeps_socket :
      (state : ClientState) (chat : String) (p : PresenceStore)
      → ((add_socket_to_room state chat p).1.ws ≡ state.ws)
        × ((add_socket_to_room state chat p).1.connection_id ≡ state.connection_id)
  unfolding add_socket_to_room
  keeps_socket state chat p = (refl, refl)

  ensure_room_indexed-MayWrite :
      (state state' : ClientState) (chat : String) (p p' : PresenceStore)
      → ensure_room_indexed wire members check send_limit typing_limit sha256 publish now state chat
          p
        ≡ some (p', state')
      → MayWrite state chat × (state'.ws ≡ state.ws) × (state'.connection_id ≡ state.connection_id)
  unfolding ensure_room_indexed
  ensure_room_indexed-MayWrite state state' chat p p' h =
      elim (Bool-cases (any (λ r. r == chat) state.room_ids)) [
        | inl known ↦
            let same : (p, state) ≡ (p', state') =
              some_inj (rw (known, ensure_room_indexed) at h) in
            (rw (known) refl, sym (ap (λ r. r.1.ws) same), sym (ap (λ r. r.1.connection_id) same))
        | inr unknown ↦ elim (Bool-cases (is_member state.user_id chat members)) [
          | inl member ↦
              let same : add_socket_to_room state chat p ≡ (p', state') =
                (let e = ensure_joined state chat p unknown member in some_inj cc) in
              let kept = keeps_socket state chat p in
              (
                rw (unknown, member) refl,
                (let e = sym (ap (λ r. r.1.ws) same) in let k = kept.0 in cc),
                (let e = sym (ap (λ r. r.1.connection_id) same) in let k = kept.1 in cc),
              )
          | inr stranger ↦ absurd (cc (rw (unknown, stranger, ensure_room_indexed) at h))
        ]
      ]

  abbrev pub limited : ClientState → Service L P → L × RateLimitResult
  limited state s =
      check state.user_id
        (record { key_prefix = "ws:send"; limit = send_limit; window_seconds = 1 }) s.limiter

  -- An acknowledgement of a message that the sender may write, that the limiter lets pass and that
  -- the buffer took; or an error.
  abbrev pub Answer : ClientState → BufferedInput → Service L P → WsServerFrame → Type ℓ
  Answer state input s f =
      ((f ≡ ack input.request_id (command state.connection_id input).message_id now)
        × MayWrite state input.chat_id
        × ((limited state s).1.allowed ≡ true)
        × Took state.connection_id input s.buffer)
      ⊎ ((reason : WsErrorReason) × (q : Option String) × (d : Option String) × (f
            ≡ error reason q d))

  pub valid_answers :
      (state : ClientState) (input : BufferedInput) (s : Service L P)
      → (f : WsServerFrame) × ((handle_valid_send wire members check send_limit typing_limit sha256
            publish now state input s).0.out
          ≡ s.out ++ deliver wire state.ws f)
        × Answer state input s f
  unfolding handle_valid_send say count count_limited_send error_frame
  valid_answers state input s =
      let s' : Service L P = record s { limiter = (limited state s).0 } in
      elim (Bool-cases (limited state s).1.allowed) [
        | inr full ↦ (
          error_frame WsErrorReason.rate_limited "Too many messages" none,
          rw (full, handle_valid_send) refl,
          inr (WsErrorReason.rate_limited, _, _, refl),
        )
        | inl passed ↦
            elim (Option-cases (
              ensure_room_indexed wire members check send_limit typing_limit sha256 publish now
                state input.chat_id s.store)) [
                  | inl stranger ↦ (
                    error_frame WsErrorReason.forbidden "Not a member of this chat"
                        (some input.request_id),
                    rw (passed, stranger, handle_valid_send) refl,
                    inr (WsErrorReason.forbidden, _, _, refl),
                  )
                  | inr (indexed, h) ↦
                      let said =
                        send_buffered_says indexed.1 input (record s' { store = indexed.0 }) in
                      let kept =
                        ensure_room_indexed-MayWrite state indexed.1 input.chat_id s.store indexed.0
                          h in
                      (
                        said.0,
                        rw (passed, h, handle_valid_send)
                            (subst
                              (λ w.
                                (send_buffered wire members check send_limit typing_limit sha256
                                  publish now indexed.1 input (record s' { store = indexed.0 })).out
                                ≡ s.out ++ deliver wire w said.0)
                              kept.1 said.1),
                        elim (subst (λ c. Verdict c input s.buffer said.0) kept.2 said.2) [
                          | inl v ↦ inl (v.0, kept.0, passed, v.1)
                          | inr v ↦ inr v
                        ],
                      )
                ]
      ]
