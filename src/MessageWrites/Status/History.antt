-- ===== src/MessageWrites/Status/History.antt =====
-- Any sequence of the writer's steps keeps the tables valid, and moves each write only forward.
use mathlib.Core.List.{map}
use backend_sketch.Prelude.{
  ℕ, ◌≡◌, subst, Bool, true, false, ◌&&◌, String, Option, none, List, [], ◌∷◌, ◌++◌, All_imp,
  All_zip, All-append, AllPairs-append, All_of_any-false, All_of_find-none, arith, any, find,
  Bool-cases, Option-cases, inl, inr, ◌==◌, string_eq,
}
use backend_sketch.Prelude.Result.{ok, ok_inj}
use backend_sketch.Nats.{MessageWriteCommand}
use backend_sketch.Api.{MessageDto}
use backend_sketch.Db.{Message, MessageWrite, MessageOutbox, Db, has_user, has_room}
use backend_sketch.MessageWrites.Insert.{message_write_batch}
use backend_sketch.MessageWrites.Persist.{mark_persisted, all_messages}
use backend_sketch.MessageWrites.Persist.Numbering.{Apart}
use backend_sketch.MessageWrites.Process.{process_message_write_commands}
use backend_sketch.MessageWrites.Dead.{
  mark_message_write_dead, mark_message_write_command_dead, is_of, dead_write,
}
use backend_sketch.MessageWrites.Outbox.{
  mark_fanouted, Attempt, delivered, not_published, not_recorded, Drain, fail_row, try_publish,
}
use backend_sketch.MessageWrites.Invariant.{IsValid, Housed, batch_rows, created}
use backend_sketch.MessageWrites.Batch.{Run, process-Run, process_message_write_commands-IsValid}
use backend_sketch.MessageWrites.Redelivery.{Run-persisted}
use backend_sketch.MessageWrites.Status.{
  Follows, Evolves, Evolves-self, Evolves-append, Evolves-trans, Evolves-map, map-Apart, map-Housed,
  mark_persisted-Follows, mark_dead-Follows, mark_fanouted-Follows, insert_writes-Evolves,
}

-- The tables after a drain.
abbrev pub drained : Db → Drain → Db
drained db d = record db { writes = d.writes; outbox = d.outbox }

-- What one step leaves, from the tables `db`.
abbrev pub Forward : Db → Db → Type 0
Forward db db' = IsValid db' × Evolves db.writes db'.writes

module _ (collate : String → String → Bool) (md5 : String → String) where
  Run-Evolves :
      (now : ℕ) (origin : Option String) (cs : List MessageWriteCommand) (db db' : Db)
      (ms : List MessageDto)
      → IsValid db
      → Run collate md5 now origin cs db db' ms
      → Evolves db.writes db'.writes
  Run-Evolves now origin cs db db' ms v r =
      let is = message_write_batch origin r.deduped in
      let base = record db { writes = r.writes } in
      let all = all_messages (created collate is base) db.messages (batch_rows collate is base) in
      let (outbox, same) = Run-persisted collate md5 now origin cs db db' ms v r in
      Evolves-trans db.writes r.writes db'.writes
        (insert_writes-Evolves db.users db.rooms is db.writes r.writes r.inserts)
        (subst (λ (x : Db). Evolves r.writes x.writes) same
          (Evolves-map (mark_persisted all) (mark_persisted-Follows all) r.writes))

  pub batch-Forward :
      (now : ℕ) (origin : Option String) (cs : List MessageWriteCommand) (db db' : Db)
      (ms : List MessageDto)
      → process_message_write_commands collate md5 now origin cs db ≡ ok (db', ms)
      → IsValid db
      → Forward db db'
  unfolding process_message_write_commands
  batch-Forward now origin [] db db' ms h v =
      subst (λ (x : Db × List MessageDto). Forward db x.0) {x = (db, [])} (ok_inj h)
        (v, Evolves-self db.writes)
  batch-Forward now origin (c ∷ cs) db db' ms h v = (
    process_message_write_commands-IsValid collate md5 now origin (c ∷ cs) db db' ms v h,
    Run-Evolves now origin (c ∷ cs) db db' ms v
        (process-Run collate md5 now origin c cs db db' ms h),
  )

map-Forward :
    (f : MessageWrite → MessageWrite)
    → ((w : MessageWrite) → Follows w (f w))
    → (db : Db) (outbox : List MessageOutbox) → IsValid db
    → Forward db (record db { writes = map f db.writes; outbox = outbox })
map-Forward f follows db outbox v = (
  record {
    counted = v.counted;
    indexed = v.indexed;
    apart = map-Apart f follows db.writes v.apart;
    housed = map-Housed f follows db.rooms db.writes v.housed;
  },
  Evolves-map f follows db.writes,
)

dead_write-Forward :
    (now : ℕ) (reason : String) (c : MessageWriteCommand) (db : Db)
    → IsValid db
    → find (is_of c) db.writes ≡ none
    → any (λ w. w.id == c.message_id) db.writes ≡ false
    → (has_user c.sender_id db.users && has_room c.room_id db.rooms) ≡ true
    → Forward db (record db { writes = db.writes ++ dead_write now reason c ∷ [] })
dead_write-Forward now reason c db v fresh free there = (
  record {
    counted = v.counted;
    indexed = v.indexed;
    apart =
        AllPairs-append Apart db.writes (dead_write now reason c ∷ []) v.apart (tt, tt)
          (All_imp db.writes
            (λ w (p : (is_of c w ≡ false) × ((w.id == c.message_id) ≡ false)). (ground arith, tt))
            (All_zip _ _ db.writes (All_of_find-none (is_of c) db.writes fresh)
              (All_of_any-false (λ w. w.id == c.message_id) db.writes free)));
    housed =
        All-append (Housed db.rooms) db.writes (dead_write now reason c ∷ []) v.housed
          (ground arith, tt);
  },
  Evolves-append db.writes (dead_write now reason c ∷ []),
)

pub dead-Forward :
    (finds writes : Bool) (now : ℕ) (reason : String) (c : MessageWriteCommand) (db : Db)
    → IsValid db
    → Forward db (mark_message_write_command_dead finds writes now reason c db)
unfolding mark_message_write_command_dead
dead-Forward false writes now reason c db v = (v, Evolves-self db.writes)
dead-Forward true writes now reason c db v = elim (Option-cases (find (is_of c) db.writes)) [
  | inr (w, e) ↦ elim (Bool-cases writes) [
    | inl works ↦
        rw (e, works, mark_message_write_command_dead)
          (map-Forward (mark_message_write_dead now reason w.id) (mark_dead-Follows now reason w.id)
            db db.outbox v)
    | inr fails ↦ rw (e, fails, mark_message_write_command_dead) (v, Evolves-self db.writes)
  ]
  | inl e ↦
      rw (e, mark_message_write_command_dead)
        (elim (Bool-cases (any (λ w. w.id == c.message_id) db.writes)) [
          | inl taken ↦ rw taken (v, Evolves-self db.writes)
          | inr free ↦
              let there = has_user c.sender_id db.users && has_room c.room_id db.rooms in
              elim (Bool-cases (writes && there)) [
                | inl works ↦
                    let h : there ≡ true = ground (arith, works) in
                    rw (free, works) (dead_write-Forward now reason c db v e free h)
                | inr fails ↦ rw (free, fails) (v, Evolves-self db.writes)
              ]
        ])
]

pub Forward-trans : (db db' db'' : Db) → Forward db db' → Forward db' db'' → Forward db db''
Forward-trans db db' db'' f g = (g.0, Evolves-trans db.writes db'.writes db''.writes f.1 g.1)

module _ (db : Db) (attempt : MessageOutbox → Attempt) (clock : MessageOutbox → ℕ) where
  pub try_publish-Forward :
      (row : MessageOutbox) (m : Message) (a : Attempt) (s : Drain)
      → Forward db (drained db s)
      → Forward db (drained db (try_publish db.messages attempt clock row m a s))
  unfolding try_publish fail_row
  try_publish-Forward row m delivered s f = Forward-trans db (drained db s) _ f (
      map-Forward (mark_fanouted row.message_id) (mark_fanouted-Follows row.message_id)
        (drained db s) _ f.0)
  try_publish-Forward row m (not_published reason) s f = (
    record { counted = f.0.counted; indexed = f.0.indexed; apart = f.0.apart; housed = f.0.housed },
    f.1,
  )
  try_publish-Forward row m (not_recorded reason) s f = (
    record { counted = f.0.counted; indexed = f.0.indexed; apart = f.0.apart; housed = f.0.housed },
    f.1,
  )
