-- ===== src/MessageWrites/Created.antt =====
-- Which messages a batch creates, and how they are answered and numbered.
use mathlib.Core.List.{map}
use backend_sketch.Prelude.{
  ℕ, ◌≡◌, sym, ap, ◌∙◌, Bool, String, Option, List, [], ◌∷◌, ◌++◌, AllPairs,
}
use backend_sketch.Prelude.Result.{ok}
use backend_sketch.Nats.{MessageWriteCommand}
use backend_sketch.Api.{MessageDto, to_message_dto}
use backend_sketch.Db.{Message, Db}
use backend_sketch.MessageWrites.Insert.{message_write_batch}
use backend_sketch.MessageWrites.Persist.{ordered, candidates}
use backend_sketch.MessageWrites.Persist.Order.{InOrder, numbered-InOrder, ordered-Earlier}
use backend_sketch.MessageWrites.Process.{process_message_write_commands}
use backend_sketch.MessageWrites.Invariant.{IsValid, created, batch_rows, persist-IsValid}
use backend_sketch.MessageWrites.Batch.{Run, process-Run, insert-IsValid}
use backend_sketch.MessageWrites.Redelivery.{Run-persisted}

module _ (collate : String → String → Bool) (md5 : String → String) (now : ℕ)
    (origin : Option String) where
  Run-created :
      (cs : List MessageWriteCommand) (db db' : Db) (ms : List MessageDto)
      → IsValid db
      → (r : Run collate md5 now origin cs db db' ms)
      → r.created_messages
        ≡ created collate (message_write_batch origin r.deduped) (record db { writes = r.writes })
  Run-created cs db db' ms v r =
      (persist-IsValid collate (message_write_batch origin r.deduped)
        (record db { writes = r.writes })
        (insert-IsValid collate md5 now origin (message_write_batch origin r.deduped) db r.writes v
          r.inserts)
        md5 now (db', r.created_messages) r.persists).1

  -- The messages that a call creates are appended to the table, oldest first and with growing
  -- numbers within a room, and the call answers with exactly these.
  pub process_creates :
      (c : MessageWriteCommand) (cs : List MessageWriteCommand) (db db' : Db) (ms : List MessageDto)
      → IsValid db
      → process_message_write_commands collate md5 now origin (c ∷ cs) db ≡ ok (db', ms)
      → (new : List Message) × (db'.messages ≡ db.messages ++ new)
        × (ms ≡ map to_message_dto new)
        × AllPairs InOrder new
  process_creates c cs db db' ms v h =
      let r = process-Run collate md5 now origin c cs db db' ms h in
      let (outbox, same) = Run-persisted collate md5 now origin (c ∷ cs) db db' ms v r in
      let is = message_write_batch origin r.deduped in
      let base = record db { writes = r.writes } in
      (
        created collate is base,
        ap (λ d. d.messages) (sym same),
        sym r.answer ∙ ap (map to_message_dto) (Run-created (c ∷ cs) db db' ms v r),
        numbered-InOrder base.rooms []
            (ordered collate (candidates base.messages (batch_rows collate is base)))
            (ordered-Earlier collate (candidates base.messages (batch_rows collate is base))),
      )
