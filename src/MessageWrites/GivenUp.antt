-- ===== src/MessageWrites/GivenUp.antt =====
-- The last delivery of a command: `processMessageWriteCommand` when the batch throws.
use backend_sketch.Prelude.{
  ℕ, ◌≡◌, refl, Bool, true, false, String, Option, none, some, List, [], ◌∷◌, ◌++◌, ◌&&◌, ◌==◌, ◌⊎◌,
  string_eq, any, find, find-map, leb, arith, inl, inr, Bool-cases, Option-cases, test_of_eq,
}
use backend_sketch.Prelude.Result.{ok, err}
use backend_sketch.Nats.{MessageWriteCommand, at_least_one}
use backend_sketch.Db.{Db, MessageWrite, has_user, has_room}
use backend_sketch.MessageWrites.Dedupe.{WriteError}
use backend_sketch.MessageWrites.Dead.{
  mark_message_write_command_dead, mark_message_write_dead, format_failure_reason, is_of,
  is_pending, dead_write,
}
use backend_sketch.MessageWrites.Process.{
  process_message_write_commands, process_message_write_command,
}

-- What becomes of a command that is given up: its write is PENDING no more; or the database did not
-- answer; or there is no write of it and none can be made, since the id is taken or the sender or the
-- room is missing.
pub data GivenUp (finds writes : Bool) (c : MessageWriteCommand) (db db' : Db) : Type 0 where
  closed :
      (w : MessageWrite)
      → find (is_of c) db'.writes ≡ some w
      → is_pending w.status ≡ false
      → GivenUp finds writes c db db'
  unanswered : (finds && writes) ≡ false → db' ≡ db → GivenUp finds writes c db db'
  unrecordable :
      find (is_of c) db.writes ≡ none
      → (any (λ w. w.id == c.message_id) db.writes ≡ true)
        ⊎ ((has_user c.sender_id db.users && has_room c.room_id db.rooms) ≡ false)
      → db' ≡ db
      → GivenUp finds writes c db db'

find-append_none {ℓ} :
    {A : Type ℓ} (p : A → Bool) (xs : List A) (y : A)
    → find p xs ≡ none
    → p y ≡ true
    → find p (xs ++ y ∷ []) ≡ some y
find-append_none p [] y h t = ground (arith, t)
find-append_none p (x ∷ xs) y h t = elim (Bool-cases (p x)) [
  | inl here ↦ absurd (cc (rw here at h))
  | inr other ↦ rw other (find-append_none p xs y (rw other at h) t)
]

module _ (now : ℕ) (reason : String) (c : MessageWriteCommand) where
  marked_of :
      (id : String) (w : MessageWrite)
      → is_of c (mark_message_write_dead now reason id w) ≡ is_of c w
  unfolding mark_message_write_dead
  marked_of id w = ground arith

  marked_closed :
      (w : MessageWrite) → is_pending (mark_message_write_dead now reason w.id w).status ≡ false
  unfolding mark_message_write_dead is_pending
  marked_closed w = ground (arith, test_of_eq w.id w.id refl)

  recorded :
      (db : Db)
      → find (is_of c) db.writes ≡ none
      → find (is_of c) (db.writes ++ dead_write now reason c ∷ []) ≡ some (dead_write now reason c)
  recorded db h = find-append_none (is_of c) db.writes (dead_write now reason c) h (
      ground
        (arith, test_of_eq c.sender_id c.sender_id refl, test_of_eq c.request_id c.request_id refl))

  dead-GivenUp :
      (finds writes : Bool) (db : Db)
      → GivenUp finds writes c db (mark_message_write_command_dead finds writes now reason c db)
  unfolding mark_message_write_command_dead is_pending
  dead-GivenUp false writes db = unanswered refl refl
  dead-GivenUp true false db = unanswered refl (ground arith)
  dead-GivenUp true true db = elim (Option-cases (find (is_of c) db.writes)) [
    | inr (w, e) ↦
        closed (mark_message_write_dead now reason w.id w)
          (rw (e, mark_message_write_command_dead)
            (find-map (mark_message_write_dead now reason w.id) (is_of c) db.writes w
              (marked_of w.id) e))
          (marked_closed w)
    | inl e ↦ elim (Bool-cases (any (λ w. w.id == c.message_id) db.writes)) [
      | inl taken ↦ unrecordable e (inl taken) (rw (e, taken, mark_message_write_command_dead) refl)
      | inr free ↦
          elim (Bool-cases (has_user c.sender_id db.users && has_room c.room_id db.rooms)) [
            | inl there ↦
                closed (dead_write now reason c)
                  (rw (e, free, there, mark_message_write_command_dead) (recorded db e)) refl
            | inr missing ↦
                unrecordable e (inr missing)
                  (rw (e, free, missing, mark_message_write_command_dead) refl)
          ]
    ]
  ]

  dead_messages :
      (finds writes : Bool) (db : Db)
      → (mark_message_write_command_dead finds writes now reason c db).messages ≡ db.messages
  unfolding mark_message_write_command_dead
  dead_messages finds writes db = elim (Option-cases (find (is_of c) db.writes)) [
    | inr (w, e) ↦ rw (e, mark_message_write_command_dead) (ground arith)
    | inl e ↦ rw (e, mark_message_write_command_dead) (ground arith)
  ]

module _ (collate : String → String → Bool) (md5 : String → String) (text : WriteError → String)
    (finds writes : Bool) (now : ℕ) (origin : Option String) (attempt most : Option ℕ)
    (c : MessageWriteCommand) (db : Db) where
  -- When the batch of a command throws on its last delivery, the call does not throw: it answers
  -- with no message and creates none, and the write of the command is PENDING no more, whether it
  -- stood in the table or is recorded now, unless the database does not answer the marking, or there
  -- is no write and the id is taken or the sender or the room is missing; then nothing changes.
  pub process_last_delivery :
      (e : WriteError)
      → leb (at_least_one 5 most) (at_least_one 1 attempt) ≡ true
      → process_message_write_commands collate md5 now origin (c ∷ []) db ≡ err e
      → (db' : Db) × (process_message_write_command collate md5 finds writes text now origin attempt
            most c db
          ≡ ok (db', none))
        × (db'.messages ≡ db.messages)
        × GivenUp finds writes c db db'
  unfolding process_message_write_command
  process_last_delivery e last h =
      let reason = format_failure_reason text e in
      (
        mark_message_write_command_dead finds writes now reason c db,
        rw (h, last, process_message_write_command) refl,
        dead_messages now reason c finds writes db,
        dead-GivenUp now reason c finds writes db,
      )
