-- ===== src/MessageWrites/Insert.antt =====
-- The first two statements of the transaction: the rows of `input` are inserted into "MessageWrite"
-- unless their sender and request are there, and the rows that answer to `input` are read back and
-- compared with the commands.
use mathlib.Core.List.{map}
use backend_sketch.Prelude.{
  ℕ, Bool, String, Option, none, some, List, [], ◌∷◌, ◌++◌, ◌&&◌, ◌==◌, string_eq, any, keep,
  if◌then◌else◌,
}
use backend_sketch.Prelude.JsMap.{JsMap}
use backend_sketch.Prelude.JsMap
use backend_sketch.Prelude.Result.{Result, ok, err, ◌>>=◌}
use backend_sketch.Nats.{MessageWriteCommand}
use backend_sketch.Db.{User, Room, MessageWrite, WriteStatus, has_user, has_room}
use backend_sketch.MessageWrites.Dedupe.{
  WriteError, command_mismatch, unique_violation, foreign_key_violation, message_write_key, key_of,
}

-- A row of `jsonb_to_recordset(batchJson)`.
pub record InputRow : Type 0 where
  pub message_id : String
  pub request_id : String
  pub sender_id : String
  pub room_id : String
  pub body : String
  pub accepted_at : ℕ
  pub origin_connection_id : Option String

-- `a ?? b`
abbrev pub or_else {ℓ} : {A : Type ℓ} → Option A → Option A → Option A
or_else none b = b
or_else (some a) b = some a

unfoldable pub message_write_batch : Option String → List MessageWriteCommand → List InputRow
message_write_batch fallback = map λ c. record {
  message_id = c.message_id;
  request_id = c.request_id;
  sender_id = c.sender_id;
  room_id = c.room_id;
  body = c.body;
  accepted_at = c.accepted_at;
  origin_connection_id = or_else c.origin_connection_id fallback;
}

-- The join condition of the statements, and the unique index behind ON CONFLICT.
unfoldable pub answers : MessageWrite → InputRow → Bool
answers w i = (i.sender_id == w.sender_id) && (i.request_id == w.request_id)

abbrev pub new_write : InputRow → MessageWrite
new_write i = record {
  id = i.message_id;
  request_id = i.request_id;
  sender_id = i.sender_id;
  room_id = i.room_id;
  content = i.body;
  status = WriteStatus.pending;
  accepted_at = i.accepted_at;
  persisted_at = none;
  failed_at = none;
  failure_reason = none;
}

module _ (users : List User) (rooms : List Room) where
  -- One row of the INSERT: a taken (sender, request) does nothing, a taken id or a missing sender or
  -- room fails the statement.
  unfoldable pub insert_write : InputRow → List MessageWrite → Result WriteError (List MessageWrite)
  insert_write i ws =
      if any (λ w. answers w i) ws
      then ok ws
      else if any (λ w. w.id == i.message_id) ws
      then err unique_violation
      else if has_user i.sender_id users && has_room i.room_id rooms
      then ok (ws ++ new_write i ∷ [])
      else err foreign_key_violation

  unfoldable pub insert_writes :
      List InputRow → List MessageWrite → Result WriteError (List MessageWrite)
  unfolding insert_write
  insert_writes [] ws = ok ws
  insert_writes (i ∷ is) ws = do ws' ← insert_write i ws; insert_writes is ws'

-- SELECT … FROM "MessageWrite" JOIN input: each row of the table that some row of `input` names.
unfoldable pub joined : List InputRow → List MessageWrite → List MessageWrite
joined is = keep (λ w. any (answers w) is)

-- `new Map(writes.map(…))`: of two rows with one key the later one stays.
unfoldable pub writes_by_key :
    JsMap String MessageWrite → List MessageWrite → JsMap String MessageWrite
writes_by_key m [] = m
writes_by_key m (w ∷ ws) =
    writes_by_key (JsMap.set (message_write_key w.sender_id w.request_id) w m) ws

unfoldable pub is_write_of : MessageWriteCommand → MessageWrite → Bool
is_write_of c w = (w.id == c.message_id) && ((w.room_id == c.room_id) && (w.content == c.body))

-- The loop that compares the commands with what the table holds.
unfoldable pub verify :
    JsMap String MessageWrite → List MessageWriteCommand → Result WriteError (Unit {0})
verify m [] = ok tt
verify m (c ∷ cs) =
    let rest = verify m cs in
    elim (JsMap.get (key_of c) m) [
      | none ↦ err command_mismatch
      | some w ↦ if is_write_of c w then rest else err command_mismatch
    ]
