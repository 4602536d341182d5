-- ===== src/MessageWrites/Outbox/Delivery.antt =====
-- What a drain has published.
use mathlib.Core.List.{map}
use backend_sketch.Prelude.{
  ℕ, ◌≤◌, ◌≡◌, refl, Bool, true, false, ◌&&◌, ◌||◌, String, Option, some, List, [], ◌∷◌, ◌++◌, All,
  All_imp, All-map, All-append, arith, any, find, not, subst, length, length-append, Bool-cases,
  Option-cases, inl, inr, ◌⊎◌, ◌==◌, string_eq, any-append, All_any_self, if◌then◌else◌,
}
use backend_sketch.Db.{Message, MessageOutbox, OutboxStatus, Db}
use backend_sketch.Nats.{at_least_one}
use backend_sketch.MessageWrites.Outbox.{
  claimed_rows, claim, claim_rows, mark_outbox_failed, mark_published, Attempt, delivered,
  not_published, not_recorded, Published, Drain, event_of, fail_row, try_publish, publish_row,
  publish_rows, drain_message_outbox, claimed_drain,
}

abbrev pub is_published : OutboxStatus → Bool
is_published OutboxStatus.published = true
is_published OutboxStatus.pending = false
is_published OutboxStatus.publishing = false
is_published OutboxStatus.failed = false

-- A row that is PUBLISHED was so before, or its event is among those that went out.
abbrev pub Recorded : List MessageOutbox → List Published → MessageOutbox → Type 0
Recorded old events o =
    is_published o.status ≡ true
    → (any (λ p. (p.id == o.id) && is_published p.status) old ≡ true)
      ⊎ (any (λ e. e.row_id == o.id) events ≡ true)

-- The event is that of a message, made for a row of the outbox.
abbrev pub Genuine : List Message → Published → Type 0
Genuine messages e =
    (row : MessageOutbox) × (m : Message) × (find (λ n. n.id == row.message_id) messages ≡ some m)
    × (e ≡ event_of row m)

failed_Recorded :
    (old : List MessageOutbox) (events : List Published) (now : ℕ) (reason : String)
    (row o : MessageOutbox)
    → Recorded old events o
    → Recorded old events (mark_outbox_failed now reason row o)
unfolding mark_outbox_failed
failed_Recorded old events now reason row o h = elim (Bool-cases (o.id == row.id)) [
  | inl same ↦ rw same (λ p. absurd (cc p))
  | inr other ↦ rw other h
]

any_later :
    (p : Published → Bool) (events : List Published) (e : Published)
    → any p events ≡ true
    → any p (events ++ e ∷ []) ≡ true
any_later p events e h = ground (arith, any-append p events (e ∷ []))

later_Recorded :
    (old : List MessageOutbox) (events : List Published) (e : Published) (o : MessageOutbox)
    → Recorded old events o
    → Recorded old (events ++ e ∷ []) o
later_Recorded old events e o h p = elim (h p) [
  | inl was ↦ inl was
  | inr out ↦ inr (any_later (λ e. e.row_id == o.id) events e out)
]

published_Recorded :
    (old : List MessageOutbox) (events : List Published) (now : ℕ) (row o : MessageOutbox)
    (m : Message)
    → Recorded old events o
    → Recorded old (events ++ event_of row m ∷ []) (mark_published now row o)
unfolding mark_published event_of
published_Recorded old events now row o m h = elim (Bool-cases (o.id == row.id)) [
  | inl same ↦
      rw same
        (λ p. inr (ground (arith, any-append (λ e. e.row_id == o.id) events (event_of row m ∷ []))))
  | inr other ↦ rw other (later_Recorded old events (event_of row m) o h)
]

module _ (messages : List Message) (attempt : MessageOutbox → Attempt) (clock : MessageOutbox → ℕ)
    (old : List MessageOutbox) where
  record Sound (s : Drain) : Type 0 where
    recorded : All (Recorded old s.events) s.outbox
    genuine : All (Genuine messages) s.events
    counted : s.published ≤ length s.events

  fail-Sound :
      (row : MessageOutbox) (reason : String) (s : Drain)
      → Sound s
      → Sound (fail_row messages attempt clock row reason s)
  unfolding fail_row
  fail-Sound row reason s v = record {
    recorded =
        All-map _ (Recorded old s.events) s.outbox
          (All_imp s.outbox (failed_Recorded old s.events (clock row) reason row) v.recorded);
    genuine = v.genuine;
    counted = v.counted;
  }

  -- An event goes out.
  abbrev with_event : MessageOutbox → Message → Drain → Drain
  with_event row m s = record s { events = s.events ++ event_of row m ∷ [] }

  event-Sound :
      (row : MessageOutbox) (m : Message) (s : Drain)
      → find (λ n. n.id == row.message_id) messages ≡ some m
      → Sound s
      → Sound (with_event row m s)
  event-Sound row m s found v = record {
    recorded = All_imp s.outbox (later_Recorded old s.events (event_of row m)) v.recorded;
    genuine =
        All-append (Genuine messages) s.events (event_of row m ∷ []) v.genuine
          ((row, m, found, refl), tt);
    counted = omega (arith, length-append s.events (event_of row m ∷ []), v.counted);
  }

  try_publish-Sound :
      (row : MessageOutbox) (m : Message) (a : Attempt) (s : Drain)
      → find (λ n. n.id == row.message_id) messages ≡ some m
      → Sound s
      → Sound (try_publish messages attempt clock row m a s)
  unfolding try_publish
  try_publish-Sound row m delivered s found v =
      let w = event-Sound row m s found v in
      record {
        recorded = All-map _ (Recorded old (s.events ++ event_of row m ∷ [])) s.outbox (
            All_imp s.outbox
              (λ o (h : Recorded old s.events o).
                published_Recorded old s.events (clock row) row o m h)
              v.recorded);
        genuine = w.genuine;
        counted = omega (arith, length-append s.events (event_of row m ∷ []), v.counted);
      }
  try_publish-Sound row m (not_published reason) s found v = fail-Sound row reason s v
  try_publish-Sound row m (not_recorded reason) s found v =
      fail-Sound row reason (with_event row m s) (event-Sound row m s found v)

  publish_row-Sound :
      (row : MessageOutbox) (s : Drain) → Sound s → Sound (publish_row messages attempt clock row s)
  unfolding publish_row
  publish_row-Sound row s v = elim (Option-cases (find (λ m. m.id == row.message_id) messages)) [
    | inl missing ↦
        rw (missing, publish_row) (fail-Sound row "message not found for outbox event" s v)
    | inr (m, found) ↦ rw (found, publish_row) (try_publish-Sound row m (attempt row) s found v)
  ]

  publish_rows-Sound :
      (rows : List MessageOutbox) (s : Drain)
      → Sound s
      → Sound (publish_rows messages attempt clock rows s)
  unfolding publish_rows
  publish_rows-Sound [] s v = v
  publish_rows-Sound (row ∷ rows) s v =
      publish_rows-Sound rows (publish_row messages attempt clock row s) (publish_row-Sound row s v)

-- The row `p` stands for the row `o`, and is PUBLISHED if `o` is.
abbrev stands_for : MessageOutbox → MessageOutbox → Bool
stands_for p o = (p.id == o.id) && (not (is_published o.status) || is_published p.status)

stands_for_self : (o : MessageOutbox) → stands_for o o ≡ true
stands_for_self o = ground arith

old_Recorded :
    (old : List MessageOutbox) (o : MessageOutbox)
    → any (λ p. stands_for p o) old ≡ true
    → Recorded old [] o
old_Recorded old o h q =
    inl (subst (λ b. any (λ p. (p.id == o.id) && (not b || is_published p.status)) old ≡ true) q h)

claimed_Recorded :
    (now : ℕ) (claimed old : List MessageOutbox) (o : MessageOutbox)
    → Recorded old [] o
    → Recorded old [] (if any (λ c. c.id == o.id) claimed then claim now o else o)
unfolding claim
claimed_Recorded now claimed old o h = elim (Bool-cases (any (λ c. c.id == o.id) claimed)) [
  | inl due ↦ rw due (λ p. absurd (cc p))
  | inr other ↦ rw other h
]

claim_rows-Recorded :
    (now : ℕ) (claimed old : List MessageOutbox)
    → All (Recorded old []) (claim_rows now claimed old)
unfolding claim_rows
claim_rows-Recorded now claimed old = All-map _ (Recorded old []) old (
    All_imp old
      (λ o (h : any (λ p. stands_for p o) old ≡ true).
        claimed_Recorded now claimed old o (old_Recorded old o h))
      (All_any_self stands_for old [] stands_for_self))

-- After a drain: a row is PUBLISHED only if it was before or its event has gone out; every event that
-- went out is that of a stored message, made for a row that names it; and the number returned is at
-- most the number of events. This holds whatever the publisher and the database answer.
pub drain_message_outbox_sound :
    (collate : String → String → Bool) (has_publisher : Bool) (limit stale : Option ℕ) (now : ℕ)
    (attempt : MessageOutbox → Attempt) (clock : MessageOutbox → ℕ) (db : Db)
    → let d = drain_message_outbox collate has_publisher limit stale now attempt clock db in
      All (Recorded db.outbox d.events) d.outbox
      × All (Genuine db.messages) d.events
      × (d.published ≤ length d.events)
unfolding drain_message_outbox
drain_message_outbox_sound collate false limit stale now attempt clock db = (
  All_imp db.outbox (old_Recorded db.outbox) (All_any_self stands_for db.outbox [] stands_for_self),
  tt,
  omega arith,
)
drain_message_outbox_sound collate true limit stale now attempt clock db =
    let claimed =
      claimed_rows collate now (at_least_one 30000 stale) (at_least_one 100 limit) db.outbox in
    let v =
      publish_rows-Sound db.messages attempt clock db.outbox (map (claim now) claimed)
        (claimed_drain now claimed db)
        (record {
          recorded = claim_rows-Recorded now claimed db.outbox;
          genuine = tt;
          counted = omega arith;
        }) in
    (v.recorded, v.genuine, v.counted)
