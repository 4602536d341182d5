-- ===== src/MessageWrites/Process.antt =====
-- `processMessageWriteCommands`, a transaction, and `processMessageWriteCommand`, which gives a
-- command up after its last delivery. A transaction that throws leaves the database as it was, so
-- an error comes with no new state.
use mathlib.Core.List.{map}
use backend_sketch.Prelude.{
  ℕ, Bool, String, Option, none, some, List, [], ◌∷◌, ◌++◌, leb, if◌then◌else◌,
}
use backend_sketch.Prelude.Result.{Result, ok, err, ◌>>=◌}
use backend_sketch.Nats.{MessageWriteCommand, at_least_one}
use backend_sketch.Api.{MessageDto, to_message_dto}
use backend_sketch.Db.{Db, Message}
use backend_sketch.MessageWrites.Dedupe.{WriteError, dedupe}
use backend_sketch.MessageWrites.Insert.{
  InputRow, message_write_batch, insert_writes, joined, writes_by_key, verify,
}
use backend_sketch.MessageWrites.Persist.{
  candidates, ordered, allocate, numbered, inserted, add_outbox, origin_of, all_messages,
  mark_persisted, update_rooms_last_message_at,
}
use backend_sketch.MessageWrites.Dead.{mark_message_write_command_dead, format_failure_reason}

-- `const [first] = …`
abbrev pub first {ℓ} : {A : Type ℓ} → List A → Option A
first [] = none
first (x ∷ xs) = some x

module _ (collate : String → String → Bool) (md5 : String → String) where
  -- The statement that creates the messages, and `updateRoomsLastMessageAt` after it. The rows come
  -- back in the order of the numbering, which is that of the final ORDER BY.
  unfoldable pub persist : ℕ → List InputRow → Db → Result WriteError (Db × List Message)
  persist now is db = do
    let rows = joined is db.writes
    let cs = ordered collate (candidates db.messages rows)
    let new = inserted db.messages (numbered db.rooms [] cs)
    outbox ← add_outbox md5 now (origin_of is rows) new db.outbox
    ok (
      record db {
        rooms = update_rooms_last_message_at new (allocate cs db.rooms);
        messages = db.messages ++ new;
        writes = map (mark_persisted (all_messages new db.messages rows)) db.writes;
        outbox = outbox;
      },
      new,
    )

  -- The body of `prisma.$transaction`.
  unfoldable pub transact :
      ℕ → List InputRow → List MessageWriteCommand → Db → Result WriteError (Db × List Message)
  unfolding persist
  transact now is deduped db = do
    writes ← insert_writes db.users db.rooms is db.writes
    checked ← verify (writes_by_key [] (joined is writes)) deduped
    persist now is (record db { writes = writes })

  unfoldable pub process_message_write_commands :
      ℕ → Option String → List MessageWriteCommand → Db → Result WriteError (Db × List MessageDto)
  unfolding transact
  process_message_write_commands now origin [] db = ok (db, [])
  process_message_write_commands now origin (c ∷ cs) db = do
    deduped ← dedupe (c ∷ cs)
    result ← transact now (message_write_batch origin deduped) deduped db
    ok (result.0, map to_message_dto result.1)

  -- The deliveries are those after `Math.max(1, … ?? 1)` and `Math.max(1, … ?? 5)`; `finds` and
  -- `writes` are those of the marking.
  unfoldable pub process_message_write_command :
      (finds writes : Bool)
      → (WriteError → String)
      → ℕ
      → Option String
      → (attempt most : Option ℕ) → MessageWriteCommand
      → Db
      → Result WriteError (Db × Option MessageDto)
  process_message_write_command finds writes text now origin attempt most c db =
      elim (process_message_write_commands now origin (c ∷ []) db) [
        | ok (db', ms) ↦ ok (db', first ms)
        | err e ↦
            if leb (at_least_one 5 most) (at_least_one 1 attempt)
            then ok (
              mark_message_write_command_dead finds writes now (format_failure_reason text e) c db,
              none,
            )
            else err e
      ]
