-- ===== src/MessageWrites/Batch.antt =====
-- What one call of `processMessageWriteCommands` guarantees.
use mathlib.Core.List.{map}
use backend_sketch.Prelude.{ℕ, ◌≡◌, refl, subst, Bool, String, Option, List, [], ◌∷◌}
use backend_sketch.Prelude.Result.{ok, >>=-eq-ok, ok_inj}
use backend_sketch.Nats.{MessageWriteCommand}
use backend_sketch.Api.{MessageDto, to_message_dto}
use backend_sketch.Db.{Message, MessageWrite, Db}
use backend_sketch.MessageWrites.Dedupe.{dedupe}
use backend_sketch.MessageWrites.Insert.{
  InputRow, message_write_batch, insert_writes, joined, writes_by_key, verify,
}
use backend_sketch.MessageWrites.Process.{persist, transact, process_message_write_commands}
use backend_sketch.MessageWrites.Invariant.{IsValid, persist-IsValid, insert_writes-Kept}

-- A successful call with commands, taken apart.
pub record Run (collate : String → String → Bool) (md5 : String → String) (now : ℕ)
    (origin : Option String) (cs : List MessageWriteCommand) (db db' : Db) (ms : List MessageDto)
    : Type 0 where
  pub deduped : List MessageWriteCommand
  pub writes : List MessageWrite
  pub created_messages : List Message
  pub is_deduped : dedupe cs ≡ ok deduped
  pub inserts :
      insert_writes db.users db.rooms (message_write_batch origin deduped) db.writes ≡ ok writes
  pub verifies :
      verify (writes_by_key [] (joined (message_write_batch origin deduped) writes)) deduped ≡ ok tt
  pub persists :
      persist collate md5 now (message_write_batch origin deduped) (record db { writes = writes })
      ≡ ok (db', created_messages)
  pub answer : map to_message_dto created_messages ≡ ms

module _ (collate : String → String → Bool) (md5 : String → String) (now : ℕ)
    (origin : Option String) where
  transact-Run :
      (cs deduped : List MessageWriteCommand) (db db' : Db) (ms : List Message)
      → dedupe cs ≡ ok deduped
      → transact collate md5 now (message_write_batch origin deduped) deduped db ≡ ok (db', ms)
      → Run collate md5 now origin cs db db' (map to_message_dto ms)
  unfolding transact
  transact-Run cs deduped db db' ms d h =
      let is = message_write_batch origin deduped in
      let (writes, i, h₁) = >>=-eq-ok (insert_writes db.users db.rooms is db.writes) _ h in
      let (u, v, p) = >>=-eq-ok (verify (writes_by_key [] (joined is writes)) deduped) _ h₁ in
      record {
        deduped = deduped;
        writes = writes;
        created_messages = ms;
        is_deduped = d;
        inserts = i;
        verifies = v;
        persists = p;
        answer = refl;
      }

  pub process-Run :
      (c : MessageWriteCommand) (cs : List MessageWriteCommand) (db db' : Db) (ms : List MessageDto)
      → process_message_write_commands collate md5 now origin (c ∷ cs) db ≡ ok (db', ms)
      → Run collate md5 now origin (c ∷ cs) db db' ms
  unfolding process_message_write_commands
  process-Run c cs db db' ms h =
      let (deduped, d, h₁) = >>=-eq-ok (dedupe (c ∷ cs)) _ h in
      let (r, t, e) =
        >>=-eq-ok (transact collate md5 now (message_write_batch origin deduped) deduped db) _ h₁ in
      subst (λ (x : Db × List MessageDto). Run collate md5 now origin (c ∷ cs) db x.0 x.1)
        {x = (r.0, map to_message_dto r.1)} (ok_inj e)
        (transact-Run (c ∷ cs) deduped db r.0 r.1 d t)

  pub insert-IsValid :
      (is : List InputRow) (db : Db) (writes : List MessageWrite)
      → IsValid db
      → insert_writes db.users db.rooms is db.writes ≡ ok writes
      → IsValid (record db { writes = writes })
  insert-IsValid is db writes v h =
      let (apart, housed) =
        insert_writes-Kept db.users db.rooms is db.writes writes (v.apart, v.housed) h in
      record { counted = v.counted; indexed = v.indexed; apart = apart; housed = housed }

  Run-IsValid :
      (cs : List MessageWriteCommand) (db db' : Db) (ms : List MessageDto)
      → IsValid db
      → Run collate md5 now origin cs db db' ms
      → IsValid db'
  Run-IsValid cs db db' ms v r =
      let w = insert-IsValid (message_write_batch origin r.deduped) db r.writes v r.inserts in
      (persist-IsValid collate (message_write_batch origin r.deduped)
        (record db { writes = r.writes }) w md5 now (db', r.created_messages) r.persists).0

  -- A batch that is written keeps the tables valid: ids, requests and the numbers within a room stay
  -- unique, every write has its room, and each room's counter stays above the numbers of its
  -- messages.
  pub process_message_write_commands-IsValid :
      (cs : List MessageWriteCommand) (db db' : Db) (ms : List MessageDto)
      → IsValid db
      → process_message_write_commands collate md5 now origin cs db ≡ ok (db', ms)
      → IsValid db'
  unfolding process_message_write_commands
  process_message_write_commands-IsValid [] db db' ms v h =
      subst (λ (x : Db × List MessageDto). IsValid x.0) {x = (db, [])} (ok_inj h) v
  process_message_write_commands-IsValid (c ∷ cs) db db' ms v h =
      Run-IsValid (c ∷ cs) db db' ms v (process-Run c cs db db' ms h)
