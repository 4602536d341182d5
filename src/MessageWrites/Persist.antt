-- ===== src/MessageWrites/Persist.antt =====
-- The statement of the transaction that creates the messages: candidates are numbered by room and
-- inserted, each with an outbox row, and the writes that have their message are marked PERSISTED.
-- All parts of the statement read the tables as they were before it. `collate` is the database's
-- order of texts, and `md5` its hash.
pub mod Numbering
pub mod Order
use Prim.Native.String
use mathlib.Core.List.{map}
use backend_sketch.Prelude.{
  ℕ, ◌+◌, max, Bool, true, false, not, String, Option, none, some, List, [], ◌∷◌, ◌++◌, ◌&&◌, ◌||◌,
  ◌==◌, nat_eq, string_eq, any, find, keep, ltb, if◌then◌else◌,
}
use backend_sketch.Prelude.Result.{Result, ok, err}
use backend_sketch.Db.{
  Room, Message, MessageWrite, WriteStatus, MessageOutbox, OutboxStatus, find_room,
}
use backend_sketch.MessageWrites.Dedupe.{WriteError, unique_violation}
use backend_sketch.MessageWrites.Insert.{InputRow, answers}

unfoldable pub is_dead : WriteStatus → Bool
is_dead WriteStatus.dead = true
is_dead WriteStatus.pending = false
is_dead WriteStatus.persisted = false
is_dead WriteStatus.fanouted = false

-- `status NOT IN ('DEAD', 'FANOUTED')`
unfoldable pub is_final : WriteStatus → Bool
is_final WriteStatus.dead = true
is_final WriteStatus.fanouted = true
is_final WriteStatus.pending = false
is_final WriteStatus.persisted = false

-- `m.requestId = r`, which does not hold of NULL.
unfoldable pub has_request : Message → String → Bool
has_request m r = elim m.request_id [ none ↦ false | some q ↦ q == r ]

-- A message has the id of the write, or its sender and request.
unfoldable pub has_message : MessageWrite → Message → Bool
has_message w m = (m.id == w.id) || ((m.sender_id == w.sender_id) && has_request m w.request_id)

unfoldable pub candidates : List Message → List MessageWrite → List MessageWrite
candidates messages = keep (λ w. not (is_dead w.status) && not (any (has_message w) messages))

module _ (collate : String → String → Bool) where
  -- ORDER BY "acceptedAt", "id"
  unfoldable pub write_le : MessageWrite → MessageWrite → Bool
  write_le v w =
      ltb v.accepted_at w.accepted_at || ((v.accepted_at == w.accepted_at) && collate v.id w.id)

  unfoldable pub insert_ordered : MessageWrite → List MessageWrite → List MessageWrite
  unfolding write_le
  insert_ordered w [] = w ∷ []
  insert_ordered w (v ∷ vs) = if write_le w v then w ∷ v ∷ vs else v ∷ insert_ordered w vs

  unfoldable pub ordered : List MessageWrite → List MessageWrite
  unfolding insert_ordered
  ordered [] = []
  ordered (w ∷ ws) = insert_ordered w (ordered ws)

-- The rows of a room: COUNT(*), and ROW_NUMBER() - 1 of the row that follows.
unfoldable pub count_room : String → List MessageWrite → ℕ
count_room room [] = 0
count_room room (w ∷ ws) = (if w.room_id == room then 1 else 0) + count_room room ws

-- The row that a candidate becomes, with its sequence number.
abbrev pub message_of : MessageWrite → ℕ → Message
message_of w sequence = record {
  id = w.id;
  content = w.content;
  created_at = w.accepted_at;
  request_id = some w.request_id;
  room_sequence = sequence;
  sender_id = w.sender_id;
  room_id = w.room_id;
}

-- The rows of the INSERT INTO "Message", over the ordered candidates; `before` holds those passed.
unfoldable pub numbered : List Room → List MessageWrite → List MessageWrite → List Message
numbered rooms before [] = []
numbered rooms before (w ∷ ws) =
    let rest = numbered rooms (w ∷ before) ws in
    elim (find_room w.room_id rooms) [
      | none ↦ rest
      | some r ↦ message_of w (r.next_message_seq + count_room w.room_id before) ∷ rest
    ]

-- room_allocations
unfoldable pub allocate : List MessageWrite → List Room → List Room
allocate cs =
    map {A = Room} λ r. record r { next_message_seq = r.next_message_seq + count_room r.id cs }

-- A unique index of "Message" refuses `m` beside `n`: the id, the sender and request, or the room and
-- sequence.
unfoldable pub clashes : Message → Message → Bool
unfolding has_request
clashes m n =
    (m.id == n.id)
    || (((m.sender_id == n.sender_id)
          && elim m.request_id [ none ↦ false | some q ↦ has_request n q ])
        || ((m.room_id == n.room_id) && (m.room_sequence == n.room_sequence)))

-- ON CONFLICT DO NOTHING RETURNING: the rows that were inserted.
unfoldable pub inserted : List Message → List Message → List Message
inserted table [] = []
inserted table (m ∷ ms) =
    let skipped = inserted table ms in
    let taken = m ∷ inserted (m ∷ table) ms in if any (clashes m) table then skipped else taken

abbrev pub event_created : String
event_created = "message.created"

unfoldable pub outbox_id : (String → String) → String → String
outbox_id md5 message_id = String.◌++◌ "outbox_" (md5 (String.◌++◌ "message.created:" message_id))

-- The origin connection that `input` gives to the write of this id.
unfoldable pub origin_of : List InputRow → List MessageWrite → String → Option String
origin_of is ws id = elim (find (λ w. w.id == id) ws) [
  | none ↦ none
  | some w ↦ elim (find (answers w) is) [ none ↦ none | some i ↦ i.origin_connection_id ]
]

module _ (md5 : String → String) (now : ℕ) (origin : String → Option String) where
  unfoldable pub new_outbox : Message → MessageOutbox
  new_outbox m = record {
    id = outbox_id md5 m.id;
    event_type = event_created;
    message_id = m.id;
    status = OutboxStatus.pending;
    attempts = 0;
    next_attempt_at = none;
    locked_at = none;
    published_at = none;
    failure_reason = none;
    origin_connection_id = origin m.id;
    created_at = now;
  }

  -- ON CONFLICT ("eventType", "messageId") DO NOTHING; a taken id fails the statement.
  unfoldable pub add_outbox :
      List Message → List MessageOutbox → Result WriteError (List MessageOutbox)
  unfolding new_outbox
  add_outbox [] table = ok table
  add_outbox (m ∷ ms) table =
      let skipped = add_outbox ms table in
      let added = add_outbox ms (table ++ new_outbox m ∷ []) in
      if any (λ o. (o.event_type == event_created) && (o.message_id == m.id)) table
      then skipped
      else if any (λ o. o.id == outbox_id md5 m.id) table
      then err unique_violation
      else added

-- all_messages: those inserted, and those that were there for some row of the join.
unfoldable pub all_messages : List Message → List Message → List MessageWrite → List Message
all_messages new table rows =
    new ++ keep (λ m. any (λ w. has_message w m) rows && not (any (λ n. n.id == m.id) new)) table

-- write_updates
unfoldable pub mark_persisted : List Message → MessageWrite → MessageWrite
mark_persisted all w =
    elim (find (λ m. (m.sender_id == w.sender_id) && has_request m w.request_id) all) [
      | none ↦ w
      | some m ↦ if is_final w.status then w else record w {
        status = WriteStatus.persisted;
        persisted_at = some m.created_at;
        failed_at = none;
        failure_reason = none;
      }
    ]

-- `updateRoomsLastMessageAt`: the newest of the room's messages, by the loop over them.
unfoldable pub max_by_room : String → Option ℕ → List Message → Option ℕ
max_by_room room current [] = current
max_by_room room current (m ∷ ms) =
    max_by_room room
      (if m.room_id == room
        then elim current [
          | none ↦ some m.created_at
          | some t ↦ some (if ltb t m.created_at then m.created_at else t)
        ]
        else current)
      ms

unfoldable pub update_rooms_last_message_at : List Message → List Room → List Room
unfolding max_by_room
update_rooms_last_message_at ms = map {A = Room} λ r. elim (max_by_room r.id none ms) [
  | none ↦ r
  | some t ↦ record r { last_message_at = max r.last_message_at t }
]
