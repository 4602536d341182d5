-- ===== src/Chats/Buffered.antt =====
-- `createBufferedMessage`: a message is accepted when the buffer has its write command.
use Prim.Native.String
use backend_sketch.Prelude.{
  ℕ, Bool, true, false, String, Option, some, List, if◌then◌else◌, ◌||◌, ◌≡◌, ◌≢◌, ◌<◌, sym, ap,
  ◌∙◌, Bool-cases, inl, inr,
}
use backend_sketch.Prelude.Result.{Result, ok, err, ok_inj}
use backend_sketch.Nats.{MessageWriteCommand, publish_message_write_with_retry, at_least_one}
use backend_sketch.Nats.Retry.{Tried, after_calls, publish_message_write_with_retry-Tried}
use backend_sketch.Api.{MessageDto, AppError, internal, sent, text}
use backend_sketch.RoomEvents.{truthy}
use backend_sketch.Db.{RoomMember, is_member}
use backend_sketch.MessageWrites.Dead.{slice_text}
use backend_sketch.Chats.Send.{is_blank, trim, body_is_required, not_a_member}

pub record BufferedInput : Type 0 where
  pub sender_id : String
  pub chat_id : String
  pub body : String
  pub request_id : String

abbrev pub buffer_is_unavailable : AppError
buffer_is_unavailable = record {
  status_code = 503;
  code = internal;
  message = "message buffer is unavailable";
}

-- `sha256` gives the hexadecimal digest of a text; the source feeds it the sender, ":" and the
-- request.
unfoldable pub stable_message_id : (String → String) → String → String → String
unfolding slice_text
stable_message_id sha256 sender_id request_id =
    String.◌++◌ "msg_" (slice_text 32 (sha256 (String.◌++◌ sender_id (String.◌++◌ ":" request_id))))

-- `toPendingMessageDto`, of the row that the service builds.
unfoldable pub to_pending_message_dto : MessageWriteCommand → MessageDto
to_pending_message_dto c = record {
  id = c.message_id;
  chat_id = c.room_id;
  sender_id = c.sender_id;
  type = text;
  body = c.body;
  created_at = c.accepted_at;
  delivery_status = some sent;
}

module _ {ℓ} {S : Type ℓ} {E : Type 0} (sha256 : String → String)
    (publish : MessageWriteCommand → S → S × Result E (Unit {0})) (attempts : Option ℕ)
    (origin : Option String) (membership_verified : Bool) (accepted_at : ℕ) where
  unfoldable pub command_of : BufferedInput → MessageWriteCommand
  unfolding stable_message_id truthy trim
  command_of input = record {
    message_id = stable_message_id sha256 input.sender_id input.request_id;
    request_id = input.request_id;
    sender_id = input.sender_id;
    room_id = input.chat_id;
    body = trim input.body;
    accepted_at = accepted_at;
    origin_connection_id = truthy origin;
  }

  unfoldable pub create_buffered_message :
      BufferedInput → List RoomMember → S → S × Result AppError MessageDto
  unfolding is_blank command_of to_pending_message_dto publish_message_write_with_retry
  create_buffered_message input members s =
      if is_blank input.body
      then (s, err body_is_required)
      else if membership_verified || is_member input.sender_id input.chat_id members
      then (let call = publish_message_write_with_retry publish (command_of input) attempts s in
          (
            call.0,
            elim call.1 [
              | ok _ ↦ ok (to_pending_message_dto (command_of input))
              | err _ ↦ err buffer_is_unavailable
            ],
          ))
      else (s, err not_a_member)

  unavailable_ne_ok :
      (dto : MessageDto) → ◌≢◌ {A = Result AppError MessageDto} (err buffer_is_unavailable) (ok dto)
  unavailable_ne_ok dto e = cc

  -- The call of the publisher that took the command, after failed ones.
  abbrev pub TookCommand : MessageWriteCommand → S → S → Type ℓ
  TookCommand c s s' =
      (k : ℕ) × (k < at_least_one 3 attempts)
      × (publish c (after_calls publish c k s) ≡ (s', ok tt))

  published_ok :
      (c : MessageWriteCommand) (s s' : S) (dto : MessageDto)
      → (r : S × Result E (Unit {0})) → Tried publish c (at_least_one 3 attempts) s r
      → r.0 ≡ s'
      → ◌≡◌ {A = Result AppError MessageDto}
          (elim r.1 [ ok _ ↦ ok (to_pending_message_dto c) | err _ ↦ err buffer_is_unavailable ])
          (ok dto)
      → (dto ≡ to_pending_message_dto c) × TookCommand c s s'
  published_ok c s s' dto (t, ok u) tried e h =
      (sym (ok_inj h), (tried.calls, tried.within, tried.result ∙ ap (λ x. (x, ok tt)) e))
  published_ok c s s' dto (t, err x) tried e h = absurd (unavailable_ne_ok dto h)

  -- A message is acknowledged only when it has a body, its sender may write to the chat, and the
  -- buffer took its command within the allowed attempts; the acknowledgement says what the command
  -- says.
  pub create_buffered_message_accepted :
      (input : BufferedInput) (members : List RoomMember) (s s' : S) (dto : MessageDto)
      → create_buffered_message input members s ≡ (s', ok dto)
      → (is_blank input.body ≡ false)
        × ((membership_verified || is_member input.sender_id input.chat_id members) ≡ true)
        × (dto ≡ to_pending_message_dto (command_of input))
        × TookCommand (command_of input) s s'
  unfolding create_buffered_message
  create_buffered_message_accepted input members s s' dto h =
      elim (Bool-cases (is_blank input.body)) [
        | inl blank ↦ absurd (cc (ap (λ x. x.1) (rw (blank, create_buffered_message) at h)))
        | inr written ↦
            elim (Bool-cases
              (membership_verified || is_member input.sender_id input.chat_id members)) [
                | inr stranger ↦
                    absurd
                      (cc (ap (λ x. x.1) (rw (written, stranger, create_buffered_message) at h)))
                | inl member ↦
                    let e = rw (written, member, create_buffered_message) at h in
                    let (says, took) =
                      published_ok (command_of input) s s' dto
                        (publish_message_write_with_retry publish (command_of input) attempts s)
                        (publish_message_write_with_retry-Tried publish (command_of input) attempts
                          s)
                        (ap (λ x. x.0) e) (ap (λ x. x.1) e) in
                    (written, member, says, took)
              ]
      ]
