-- ===== src/MessageWrites/Outbox.antt =====
-- `drainMessageOutbox`: due rows are claimed, their events published, and each row is marked
-- PUBLISHED or FAILED. What the publisher and the database answer is an argument; a row whose mark
-- itself fails would stop the loop, and is left out.
pub mod Claims
pub mod Delivery
use mathlib.Core.List.{map}
use backend_sketch.Prelude.{
  ℕ, suc, ◌+◌, ◌*◌, min, max, Bool, true, false, String, Option, none, some, List, [], ◌∷◌, ◌++◌,
  ◌&&◌, ◌||◌, ◌==◌, nat_eq, string_eq, any, find, keep, take, ltb, leb, if◌then◌else◌,
}
use backend_sketch.Api.{MessageDto, to_message_dto}
use backend_sketch.Db.{Message, MessageWrite, WriteStatus, MessageOutbox, OutboxStatus, Db}
use backend_sketch.RoomEvents.{RoomEvent, room_event_channel, truthy}
use backend_sketch.MessageWrites.Dead.{slice_text}
use backend_sketch.Nats.{at_least_one}

-- PENDING or FAILED and due, or PUBLISHING under a lock that has gone stale. NULL compares false.
unfoldable pub claimable : ℕ → ℕ → MessageOutbox → Bool
claimable now stale o = elim o.status [
  | OutboxStatus.pending ↦ elim o.next_attempt_at [ none ↦ true | some t ↦ leb t now ]
  | OutboxStatus.failed ↦ elim o.next_attempt_at [ none ↦ true | some t ↦ leb t now ]
  | OutboxStatus.publishing ↦ elim o.locked_at [ none ↦ false | some t ↦ ltb (t + stale) now ]
  | OutboxStatus.published ↦ false
]

module _ (collate : String → String → Bool) where
  -- ORDER BY "createdAt", "id"
  unfoldable pub outbox_le : MessageOutbox → MessageOutbox → Bool
  outbox_le a b =
      ltb a.created_at b.created_at || ((a.created_at == b.created_at) && collate a.id b.id)

  unfoldable pub insert_row : MessageOutbox → List MessageOutbox → List MessageOutbox
  unfolding outbox_le
  insert_row o [] = o ∷ []
  insert_row o (p ∷ ps) = if outbox_le o p then o ∷ p ∷ ps else p ∷ insert_row o ps

  unfoldable pub ordered_rows : List MessageOutbox → List MessageOutbox
  unfolding insert_row
  ordered_rows [] = []
  ordered_rows (o ∷ os) = insert_row o (ordered_rows os)

  -- The rows of `claimable`, at most `limit`.
  unfoldable pub claimed_rows : ℕ → ℕ → ℕ → List MessageOutbox → List MessageOutbox
  unfolding claimable ordered_rows
  claimed_rows now stale limit os = take limit (ordered_rows (keep (claimable now stale) os))

-- The UPDATE that claims a row.
unfoldable pub claim : ℕ → MessageOutbox → MessageOutbox
claim now o = record o {
  status = OutboxStatus.publishing;
  attempts = o.attempts + 1;
  locked_at = some now;
  next_attempt_at = none;
}

unfoldable pub claim_rows : ℕ → List MessageOutbox → List MessageOutbox → List MessageOutbox
claim_rows now claimed =
    map {A = MessageOutbox} λ o. if any (λ c. c.id == o.id) claimed then claim now o else o

-- `retryDelayMs`
unfoldable pub retry_delay_ms : ℕ → ℕ
retry_delay_ms attempts = min 60000 (max 1000 (attempts * attempts * 1000))

-- `markOutboxFailed`, for a row of the claimed id.
unfoldable pub mark_outbox_failed : ℕ → String → MessageOutbox → MessageOutbox → MessageOutbox
unfolding retry_delay_ms slice_text
mark_outbox_failed now reason row o =
    if o.id == row.id
    then record o {
      status = OutboxStatus.failed;
      next_attempt_at = some (now + retry_delay_ms row.attempts);
      locked_at = none;
      failure_reason = some (slice_text 2000 reason);
    }
    else o

unfoldable pub mark_published : ℕ → MessageOutbox → MessageOutbox → MessageOutbox
mark_published now row o =
    if o.id == row.id
    then record o {
      status = OutboxStatus.published;
      published_at = some now;
      locked_at = none;
      failure_reason = none;
    }
    else o

unfoldable pub is_persisted : WriteStatus → Bool
is_persisted WriteStatus.persisted = true
is_persisted WriteStatus.pending = false
is_persisted WriteStatus.fanouted = false
is_persisted WriteStatus.dead = false

unfoldable pub mark_fanouted : String → MessageWrite → MessageWrite
unfolding is_persisted
mark_fanouted message_id w =
    if (w.id == message_id) && is_persisted w.status
    then record w { status = WriteStatus.fanouted; failed_at = none; failure_reason = none }
    else w

-- What happens to the event of one row: it is published and recorded, or `publish` throws, or the
-- event goes out and the transaction that records it throws.
pub data Attempt : Type 0 where
  delivered : Attempt
  not_published not_recorded : String → Attempt

-- An event on the bus, with the row that it was published for.
pub record Published : Type 0 where
  pub row_id : String
  pub channel : String
  pub event : RoomEvent

pub record Drain : Type 0 where
  pub writes : List MessageWrite
  pub outbox : List MessageOutbox
  pub events : List Published
  pub published : ℕ

unfoldable pub event_of : MessageOutbox → Message → Published
unfolding room_event_channel to_message_dto truthy
event_of row m =
    let dto = to_message_dto m in
    record {
      row_id = row.id;
      channel = room_event_channel dto.chat_id;
      event = record {
        room_id = dto.chat_id;
        message = dto;
        origin_connection_id = truthy row.origin_connection_id;
      };
    }

module _ (messages : List Message) (attempt : MessageOutbox → Attempt)
    (clock : MessageOutbox → ℕ) where
  unfoldable pub fail_row : MessageOutbox → String → Drain → Drain
  unfolding mark_outbox_failed
  fail_row row reason s = record s {
    outbox = map (mark_outbox_failed (clock row) reason row) s.outbox;
  }

  -- The body of the `try` and its `catch`, by what the publisher and the database answer.
  unfoldable pub try_publish : MessageOutbox → Message → Attempt → Drain → Drain
  unfolding fail_row mark_published mark_fanouted event_of
  try_publish row m delivered s = record {
    writes = map (mark_fanouted row.message_id) s.writes;
    outbox = map (mark_published (clock row) row) s.outbox;
    events = s.events ++ event_of row m ∷ [];
    published = s.published + 1;
  }
  try_publish row m (not_published reason) s = fail_row row reason s
  try_publish row m (not_recorded reason) s =
      fail_row row reason (record s { events = s.events ++ event_of row m ∷ [] })

  -- One round of the loop.
  unfoldable pub publish_row : MessageOutbox → Drain → Drain
  unfolding try_publish
  publish_row row s = elim (find (λ m. m.id == row.message_id) messages) [
    | none ↦ fail_row row "message not found for outbox event" s
    | some m ↦ try_publish row m (attempt row) s
  ]

  unfoldable pub publish_rows : List MessageOutbox → Drain → Drain
  unfolding publish_row
  publish_rows [] s = s
  publish_rows (row ∷ rows) s = publish_rows rows (publish_row row s)

-- The state before the loop: the rows are claimed.
abbrev pub claimed_drain : ℕ → List MessageOutbox → Db → Drain
claimed_drain now claimed db = record {
  writes = db.writes;
  outbox = claim_rows now claimed db.outbox;
  events = [];
  published = 0;
}

-- With no publisher nothing is done. The limits are `Math.max(1, … ?? 100)` and
-- `Math.max(1, … ?? 30_000)`.
unfoldable pub drain_message_outbox :
    (String → String → Bool)
    → Bool
    → (limit stale : Option ℕ) → ℕ
    → (MessageOutbox → Attempt)
    → (MessageOutbox → ℕ)
    → Db
    → Drain
unfolding claimed_rows claim_rows publish_rows at_least_one
drain_message_outbox collate has_publisher limit stale now attempt clock db =
    if has_publisher
    then (let claimed =
          claimed_rows collate now (at_least_one 30000 stale) (at_least_one 100 limit) db.outbox in
        publish_rows db.messages attempt clock (map (claim now) claimed)
          (claimed_drain now claimed db))
    else record { writes = db.writes; outbox = db.outbox; events = []; published = 0 }
