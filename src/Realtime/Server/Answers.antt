-- ===== src/Realtime/Server/Answers.antt =====
-- Every send frame has one answer: `handleSend` as a whole.
use backend_sketch.Prelude.{
  ℕ, ◌≡◌, refl, String, Option, none, some, List, ◌++◌, Option-cases, inl, inr, ◌⊎◌,
}
use backend_sketch.Prelude.Result.{Result}
use backend_sketch.Api.{WsErrorReason}
use backend_sketch.Db.{RoomMember}
use backend_sketch.Nats.{MessageWriteCommand}
use backend_sketch.RateLimit.{RateLimitOptions, RateLimitResult}
use backend_sketch.Chats.Buffered.{BufferedInput}
use backend_sketch.Realtime.{ClientState}
use backend_sketch.Realtime.Frames.{
  RawFrame, WsServerFrame, error, Wire, nonempty_text, deliver, error_frame,
}
use backend_sketch.Realtime.Server.{Service, count, count_send, refuse, body_of, handle_send, say}
use backend_sketch.Realtime.Server.Sends.{Answer, valid_answers}

module _ {ℓ} {L P : Type ℓ} {E : Type 0} (wire : Wire) (members : List RoomMember)
    (check : String → RateLimitOptions → L → L × RateLimitResult) (send_limit typing_limit : ℕ)
    (sha256 : String → String) (publish : MessageWriteCommand → P → P × Result E (Unit {0}))
    (now : ℕ) where
  abbrev pub input_of : ClientState → String → String → String → BufferedInput
  input_of state request_id chat_id body = record {
    sender_id = state.user_id;
    chat_id = chat_id;
    body = body;
    request_id = request_id;
  }

  abbrev pub Refused : WsServerFrame → Type 0
  Refused said =
      (reason : WsErrorReason) × (q : Option String) × (d : Option String) × (said
        ≡ error reason q d)

  -- The answer to the message of a frame, where the frame has one.
  abbrev pub FrameAnswer : ClientState → RawFrame → Service L P → WsServerFrame → Type ℓ
  FrameAnswer state f s said =
      ((request_id : String) × (chat_id : String) × (body : String) × (nonempty_text f.request_id
          ≡ some request_id)
        × (nonempty_text f.chat_id ≡ some chat_id)
        × (body_of f.body ≡ some body)
        × Answer wire members check send_limit typing_limit sha256 publish now state
            (input_of state request_id chat_id body)
            (count wire members check send_limit typing_limit sha256 publish now count_send s) said)
      ⊎ Refused said

  abbrev pub Says : ClientState → RawFrame → Service L P → WsServerFrame → Type 0
  Says state f s said =
      (handle_send wire members check send_limit typing_limit sha256 publish now state f s).0.out
      ≡ s.out ++ deliver wire state.ws said

  -- A send frame has one answer, delivered after all that was sent before: an acknowledgement only where
  -- the frame is complete, the user may write to the chat, the limiter lets it pass and the buffer took
  -- the command that the acknowledgement names; else an error.
  pub handle_send_answers :
      (state : ClientState) (f : RawFrame) (s : Service L P)
      → (said : WsServerFrame) × Says state f s said × FrameAnswer state f s said
  unfolding handle_send refuse say count error_frame
  handle_send_answers state f s = elim (Option-cases (nonempty_text f.request_id)) [
    | inl a ↦ (
      error_frame WsErrorReason.validation_failed "request_id is required" none,
      rw (a, handle_send) refl,
      inr (WsErrorReason.validation_failed, _, _, refl),
    )
    | inr (request_id, a) ↦ elim (Option-cases (nonempty_text f.chat_id)) [
      | inl b ↦ (
        error_frame WsErrorReason.validation_failed "chat_id is required" none,
        rw (a, b, handle_send) refl,
        inr (WsErrorReason.validation_failed, _, _, refl),
      )
      | inr (chat_id, b) ↦ elim (Option-cases (body_of f.body)) [
        | inl c ↦ (
          error_frame WsErrorReason.validation_failed "body is required" none,
          rw (a, b, c, handle_send) refl,
          inr (WsErrorReason.validation_failed, _, _, refl),
        )
        | inr (body, c) ↦
            let v =
              valid_answers wire members check send_limit typing_limit sha256 publish now state
                (input_of state request_id chat_id body)
                (count wire members check send_limit typing_limit sha256 publish now count_send
                  s) in
            (v.0, rw (a, b, c, handle_send) v.1, inl (request_id, chat_id, body, a, b, c, v.2))
      ]
    ]
  ]
