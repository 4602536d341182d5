-- ===== src/MessageWrites/Status/Steps.antt =====
-- The writer as a step relation: a batch that is written, a command that is given up, a drain of the
-- outbox. A batch that throws leaves the tables alone, and is no step.
use mathlib.Core.List.{map}
use backend_sketch.Prelude.{
  ℕ, ◌≡◌, Bool, true, false, String, Option, List, [], ◌∷◌, find, Option-cases, inl, inr, ◌==◌,
  string_eq,
}
use backend_sketch.Prelude.Result.{ok}
use backend_sketch.Nats.{MessageWriteCommand, at_least_one}
use backend_sketch.Api.{MessageDto}
use backend_sketch.Db.{MessageOutbox, Db}
use backend_sketch.MessageWrites.Process.{process_message_write_commands}
use backend_sketch.MessageWrites.Dead.{mark_message_write_command_dead}
use backend_sketch.MessageWrites.Outbox.{
  Attempt, Drain, fail_row, publish_row, publish_rows, claimed_rows, claim, claimed_drain,
  drain_message_outbox,
}
use backend_sketch.MessageWrites.Invariant.{IsValid}
use backend_sketch.MessageWrites.Status.{Evolves-self}
use backend_sketch.MessageWrites.Status.History.{
  Forward, Forward-trans, drained, batch-Forward, dead-Forward, try_publish-Forward,
}

module _ (db : Db) (attempt : MessageOutbox → Attempt) (clock : MessageOutbox → ℕ) where
  publish_row-Forward :
      (row : MessageOutbox) (s : Drain)
      → Forward db (drained db s)
      → Forward db (drained db (publish_row db.messages attempt clock row s))
  unfolding publish_row fail_row
  publish_row-Forward row s f =
      elim (Option-cases (find (λ m. m.id == row.message_id) db.messages)) [
        | inl missing ↦
            rw (missing, publish_row)
              (
                record {
                  counted = f.0.counted;
                  indexed = f.0.indexed;
                  apart = f.0.apart;
                  housed = f.0.housed;
                },
                f.1,
              )
        | inr (m, found) ↦
            rw (found, publish_row) (try_publish-Forward db attempt clock row m (attempt row) s f)
      ]

  publish_rows-Forward :
      (rows : List MessageOutbox) (s : Drain)
      → Forward db (drained db s)
      → Forward db (drained db (publish_rows db.messages attempt clock rows s))
  unfolding publish_rows
  publish_rows-Forward [] s f = f
  publish_rows-Forward (row ∷ rows) s f =
      publish_rows-Forward rows (publish_row db.messages attempt clock row s)
        (publish_row-Forward row s f)

Forward-same :
    (db : Db) (outbox : List MessageOutbox)
    → IsValid db
    → Forward db (record db { outbox = outbox })
Forward-same db outbox v = (
  record { counted = v.counted; indexed = v.indexed; apart = v.apart; housed = v.housed },
  Evolves-self db.writes,
)

drain-Forward :
    (collate : String → String → Bool) (has_publisher : Bool) (limit stale : Option ℕ) (now : ℕ)
    (attempt : MessageOutbox → Attempt) (clock : MessageOutbox → ℕ) (db : Db)
    → IsValid db
    → Forward db
        (drained db (drain_message_outbox collate has_publisher limit stale now attempt clock db))
unfolding drain_message_outbox
drain-Forward collate false limit stale now attempt clock db v = Forward-same db db.outbox v
drain-Forward collate true limit stale now attempt clock db v =
    let claimed =
      claimed_rows collate now (at_least_one 30000 stale) (at_least_one 100 limit) db.outbox in
    publish_rows-Forward db attempt clock (map (claim now) claimed) (claimed_drain now claimed db)
      (Forward-same db (claimed_drain now claimed db).outbox v)

pub data WriterStep (collate : String → String → Bool) (md5 : String → String) (db : Db)
    : Db → Type 0 where
  batch :
      (now : ℕ) (origin : Option String) (cs : List MessageWriteCommand) {db' : Db}
      (ms : List MessageDto)
      → process_message_write_commands collate md5 now origin cs db ≡ ok (db', ms)
      → WriterStep collate md5 db db'
  give_up :
      (finds writes : Bool) (now : ℕ) (reason : String) (c : MessageWriteCommand)
      → WriterStep collate md5 db (mark_message_write_command_dead finds writes now reason c db)
  drain :
      (has_publisher : Bool) (limit stale : Option ℕ) (now : ℕ) (attempt : MessageOutbox → Attempt)
      (clock : MessageOutbox → ℕ)
      → WriterStep collate md5 db
          (drained db (drain_message_outbox collate has_publisher limit stale now attempt clock db))

pub data Reach (collate : String → String → Bool) (md5 : String → String) (db : Db)
    : Db → Type 0 where
  here : Reach collate md5 db db
  next :
      {db' db'' : Db}
      → Reach collate md5 db db'
      → WriterStep collate md5 db' db''
      → Reach collate md5 db db''

module _ (collate : String → String → Bool) (md5 : String → String) where
  WriterStep-Forward : {db db' : Db} → WriterStep collate md5 db db' → IsValid db → Forward db db'
  WriterStep-Forward {db} (batch now origin cs {db' = db'} ms h) v =
      batch-Forward collate md5 now origin cs db db' ms h v
  WriterStep-Forward {db} (give_up finds writes now reason c) v =
      dead-Forward finds writes now reason c db v
  WriterStep-Forward {db} (drain has_publisher limit stale now attempt clock) v =
      drain-Forward collate has_publisher limit stale now attempt clock db v

  -- Whatever the writer does, in any order, the tables stay valid; no write is lost or changed in
  -- its id, request, sender, room, content or time; and its status only moves forward, from PENDING
  -- to any other and from PERSISTED to FANOUTED.
  pub Reach-Forward : {db db' : Db} → IsValid db → Reach collate md5 db db' → Forward db db'
  Reach-Forward {db} v here = (v, Evolves-self db.writes)
  Reach-Forward {db} v (next {db' = db'} {db'' = db''} r s) =
      let f = Reach-Forward v r in Forward-trans db db' db'' f (WriterStep-Forward s f.0)
