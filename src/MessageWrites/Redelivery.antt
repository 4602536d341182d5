-- ===== src/MessageWrites/Redelivery.antt =====
-- The whole batch, processed a second time on the tables that the first left.
use mathlib.Core.List.{map, append-nil}
use backend_sketch.Prelude.{
  ℕ, ◌≡◌, refl, sym, ap, ◌∙◌, subst, Bool, true, String, Option, List, [], ◌∷◌, ◌++◌, All, All_imp,
  All-map, All-keep, arith, any, inr, ◌⊎◌, any-append, All_of_keep, keep_none,
}
use backend_sketch.Prelude.Result.{ok, >>=-eq-ok, ok_inj}
use backend_sketch.Nats.{MessageWriteCommand}
use backend_sketch.Api.{MessageDto}
use backend_sketch.Db.{Message, MessageWrite, MessageOutbox, Db}
use backend_sketch.MessageWrites.Insert.{
  InputRow, message_write_batch, joined, writes_by_key, verify,
}
use backend_sketch.MessageWrites.Persist.{
  is_dead, has_message, candidates, ordered, numbered, inserted, add_outbox, origin_of,
  mark_persisted, all_messages,
}
use backend_sketch.MessageWrites.Persist.Order.{ordered-All, All_of_ordered}
use backend_sketch.MessageWrites.Rooms.{updated}
use backend_sketch.MessageWrites.Process.{persist, transact, process_message_write_commands}
use backend_sketch.MessageWrites.Invariant.{
  IsValid, Housed, batch_rows, chosen, created, persisted, persist-eq,
}
use backend_sketch.MessageWrites.Batch.{Run, process-Run, insert-IsValid}
use backend_sketch.MessageWrites.Replay.{
  insert_writes_answered, insert_writes_known, numbered-covers, joined_mark, answered_mark,
  writes_by_key_mark, verify_mark, marked_settled,
}

-- The write is dead or has its message.
abbrev pub Settled : List Message → MessageWrite → Type 0
Settled table w = (is_dead w.status ≡ true) ⊎ (any (has_message w) table ≡ true)

module _ (collate : String → String → Bool) (md5 : String → String) (is : List InputRow) (db : Db)
    (v : IsValid db) where
  candidates-Housed : All (Housed db.rooms) (candidates db.messages (batch_rows collate is db))
  unfolding candidates joined
  candidates-Housed = All-keep _ _ (batch_rows collate is db) (All-keep _ _ db.writes v.housed)

  covered :
      All
        (λ w. any (has_message w) (created collate is db) ≡ true)
        (candidates db.messages (batch_rows collate is db))
  covered = All_of_ordered collate _ (candidates db.messages (batch_rows collate is db)) (
      numbered-covers db.rooms [] (chosen collate is db)
        (ordered-All collate _ _ candidates-Housed))

  pub Settled-after :
      All (Settled (db.messages ++ created collate is db)) (batch_rows collate is db)
  unfolding candidates
  Settled-after =
      All_of_keep (Settled (db.messages ++ created collate is db)) _ (batch_rows collate is db)
        (λ w e. ground (arith, any-append (has_message w) db.messages (created collate is db)))
        (All_imp (candidates db.messages (batch_rows collate is db))
          (λ w (k : any (has_message w) (created collate is db) ≡ true).
            inr (ground (arith, any-append (has_message w) db.messages (created collate is db))))
          covered)

  module _ (outbox : List MessageOutbox) where
    abbrev after : Db
    after = persisted collate is db outbox

    -- The tables after a statement that had no candidate.
    abbrev again : Db
    again = record after {
      rooms = updated [] [] after.rooms;
      messages = after.messages ++ [];
      writes =
          map (mark_persisted (all_messages [] after.messages (joined is after.writes)))
            after.writes;
    }

    none_left : candidates after.messages (joined is after.writes) ≡ []
    unfolding candidates
    none_left =
        let all = all_messages (created collate is db) db.messages (batch_rows collate is db) in
        rw (joined_mark all is db.writes) (
          keep_none _ (map (mark_persisted all) (batch_rows collate is db)) (
            All-map (mark_persisted all) _ (batch_rows collate is db) (
              All_imp (batch_rows collate is db)
                (marked_settled all (db.messages ++ created collate is db)) Settled-after)))

    persist_again :
        (now : ℕ)
        → (db' : Db) × (persist collate md5 now is after ≡ ok (db', []))
          × (db'.messages ≡ after.messages)
          × (db'.outbox ≡ outbox)
    unfolding persist ordered numbered inserted add_outbox
    persist_again now = (again, rw none_left, append-nil after.messages, refl)

module _ (collate : String → String → Bool) (md5 : String → String) (now : ℕ)
    (origin : Option String) where
  -- The tables that a run leaves.
  pub Run-persisted :
      (cs : List MessageWriteCommand) (db db' : Db) (ms : List MessageDto)
      → IsValid db
      → (r : Run collate md5 now origin cs db db' ms)
      → (outbox : List MessageOutbox) × (persisted collate
            (message_write_batch origin r.deduped)
            (record db { writes = r.writes })
            outbox
          ≡ db')
  Run-persisted cs db db' ms v r =
      let is = message_write_batch origin r.deduped in
      let base = record db { writes = r.writes } in
      let w = insert-IsValid collate md5 now origin is db r.writes v r.inserts in
      let (outbox, _, e) =
        >>=-eq-ok
          (add_outbox md5 now (origin_of is (batch_rows collate is base)) (created collate is base)
            db.outbox)
          _ (sym (persist-eq collate is base w md5 now) ∙ r.persists) in
      (outbox, ap (λ x. x.0) (ok_inj e))

  -- What a repeated batch does to the tables `db'`.
  abbrev CreatesNothing : ℕ → List MessageWriteCommand → Option String → Db → Type 0
  CreatesNothing later deduped origin' db' =
      (db'' : Db) × (transact collate md5 later (message_write_batch origin' deduped) deduped db'
        ≡ ok (db'', []))
      × (db''.messages ≡ db'.messages)
      × (db''.outbox ≡ db'.outbox)

  transact_again :
      (cs : List MessageWriteCommand) (db db' : Db) (ms : List MessageDto) (later : ℕ)
      → IsValid db
      → (r : Run collate md5 now origin cs db db' ms) → CreatesNothing later r.deduped origin db'
  unfolding transact
  transact_again cs db db' ms later v r =
      let is = message_write_batch origin r.deduped in
      let base = record db { writes = r.writes } in
      let w = insert-IsValid collate md5 now origin is db r.writes v r.inserts in
      let (outbox, same) = Run-persisted cs db db' ms v r in
      let all = all_messages (created collate is base) db.messages (batch_rows collate is base) in
      let inserts =
        insert_writes_known db.users (persisted collate is base outbox).rooms is
          (map (mark_persisted all) r.writes)
          (answered_mark all is r.writes
            (insert_writes_answered db.users db.rooms is db.writes r.writes r.inserts)) in
      let verifies : verify (writes_by_key [] (joined is (map (mark_persisted all) r.writes)))
            r.deduped
          ≡ ok tt =
        rw (joined_mark all is r.writes, writes_by_key_mark all [] (joined is r.writes))
          (verify_mark all (writes_by_key [] (joined is r.writes)) r.deduped r.verifies) in
      let (db'', persists, messages, outboxes) = persist_again collate md5 is base w outbox later in
      subst (CreatesNothing later r.deduped origin) same
        (db'', ground (arith, inserts, verifies, persists), messages, outboxes)

  -- Delivered again, at any later time, a batch that was written is accepted, and creates no message
  -- and no outbox row: the redelivery of the buffer is idempotent.
  pub process_again :
      (c : MessageWriteCommand) (cs : List MessageWriteCommand) (db db' : Db) (ms : List MessageDto)
      (later : ℕ)
      → IsValid db
      → process_message_write_commands collate md5 now origin (c ∷ cs) db ≡ ok (db', ms)
      → (db'' : Db) × (process_message_write_commands collate md5 later origin (c ∷ cs) db'
          ≡ ok (db'', []))
        × (db''.messages ≡ db'.messages)
        × (db''.outbox ≡ db'.outbox)
  unfolding process_message_write_commands
  process_again c cs db db' ms later v h =
      let r = process-Run collate md5 now origin c cs db db' ms h in
      let (db'', e, messages, outbox) = transact_again (c ∷ cs) db db' ms later v r in
      (db'', rw r.is_deduped (rw e refl), messages, outbox)
