-- ===== src/Nats.antt =====
-- The buffer between the WebSocket service and the writer
-- (backend/packages/shared-nats/src/message-write-buffer.ts).
pub mod Retry
use backend_sketch.Prelude.{ℕ, zero, suc, max, String, Option, none, some, List, [], ◌∷◌, ◌++◌, ◌-◌}
use backend_sketch.Prelude.Result.{Result, ok, err}

-- `Math.max(1, n ?? d)`
unfoldable pub at_least_one : ℕ → Option ℕ → ℕ
at_least_one d none = max 1 d
at_least_one d (some n) = max 1 n

pub record MessageWriteCommand : Type 0 where
  pub message_id : String
  pub request_id : String
  pub sender_id : String
  pub room_id : String
  pub body : String
  pub accepted_at : ℕ
  pub origin_connection_id : Option String

-- A publisher, as it answers on its state `S`; a call may throw.
module _ {ℓ} {S : Type ℓ} {E : Type 0} (publish : MessageWriteCommand → S → S × Result E (Unit {0}))
    (command : MessageWriteCommand) where
  -- The loop of `publishMessageWriteWithRetry` with `n` more attempts after this one.
  unfoldable pub try_from : ℕ → S → S × Result E (Unit {0})
  try_from zero s = publish command s
  try_from (suc n) s =
      let call = publish command s in
      elim call.1 [ ok _ ↦ (call.0, ok tt) | err _ ↦ try_from n call.0 ]

  -- `Math.max(1, options.attempts ?? 3)`; the wait between two attempts changes nothing here.
  unfoldable pub publish_message_write_with_retry : Option ℕ → S → S × Result E (Unit {0})
  unfolding try_from at_least_one
  publish_message_write_with_retry attempts s = try_from (at_least_one 3 attempts - 1) s

-- `InMemoryMessageWriteBuffer`: the command is kept before the callback runs, which may throw.
unfoldable pub publish_message_write :
    {E : Type 0}
    → (MessageWriteCommand → Result E (Unit {0}))
    → MessageWriteCommand
    → List MessageWriteCommand
    → List MessageWriteCommand × Result E (Unit {0})
publish_message_write on_publish command commands = (commands ++ command ∷ [], on_publish command)
