-- ===== src/MessageWrites/Dead.antt =====
-- Marking a write that has used up its deliveries.
use mathlib.Core.List.{map}
use backend_sketch.Prelude.{
  ℕ, zero, suc, Bool, true, false, String, none, some, [], ◌∷◌, ◌++◌, ◌&&◌, ◌==◌, string_eq, any,
  find, if◌then◌else◌,
}
use backend_sketch.Nats.{MessageWriteCommand}
use backend_sketch.Db.{MessageWrite, WriteStatus, Db, has_user, has_room}
use backend_sketch.MessageWrites.Dedupe.{WriteError}

-- `slice(0, n)`, in code points.
unfoldable pub slice_text : ℕ → String → String
slice_text zero s = ""
slice_text (suc n) String.[] = ""
slice_text (suc n) (String.◌∷◌ c s) = String.◌∷◌ c (slice_text n s)

-- `text` gives the message of an error.
unfoldable pub format_failure_reason : (WriteError → String) → WriteError → String
unfolding slice_text
format_failure_reason text e = slice_text 2000 (text e)

unfoldable pub is_pending : WriteStatus → Bool
is_pending WriteStatus.pending = true
is_pending WriteStatus.persisted = false
is_pending WriteStatus.fanouted = false
is_pending WriteStatus.dead = false

-- `markMessageWriteDead`: only a PENDING row changes.
unfoldable pub mark_message_write_dead : ℕ → String → String → MessageWrite → MessageWrite
unfolding is_pending
mark_message_write_dead now reason id w =
    if (w.id == id) && is_pending w.status
    then record w { status = WriteStatus.dead; failed_at = some now; failure_reason = some reason }
    else w

abbrev pub is_of : MessageWriteCommand → MessageWrite → Bool
is_of c w = (w.sender_id == c.sender_id) && (w.request_id == c.request_id)

-- The row that stands for a command that was never written.
abbrev pub dead_write : ℕ → String → MessageWriteCommand → MessageWrite
dead_write now reason c = record {
  id = c.message_id;
  request_id = c.request_id;
  sender_id = c.sender_id;
  room_id = c.room_id;
  content = c.body;
  status = WriteStatus.dead;
  accepted_at = c.accepted_at;
  persisted_at = none;
  failed_at = some now;
  failure_reason = some reason;
}

-- `markMessageWriteCommandDead`, where `finds` and `writes` say whether the query and the statement
-- after it reach the database. What fails, also an insert that breaks a constraint, is logged and
-- changes nothing.
unfoldable pub mark_message_write_command_dead :
    (finds writes : Bool) → ℕ → String → MessageWriteCommand → Db → Db
mark_message_write_command_dead finds writes now reason c db =
    if finds
    then elim (find (is_of c) db.writes) [
      | some existing ↦
          if writes
          then record db { writes = map (mark_message_write_dead now reason existing.id) db.writes }
          else db
      | none ↦
          if any (λ w. w.id == c.message_id) db.writes
          then db
          else if writes && (has_user c.sender_id db.users && has_room c.room_id db.rooms)
          then record db { writes = db.writes ++ dead_write now reason c ∷ [] }
          else db
    ]
    else db
