-- ===== src/Chats/Send/Again.antt =====
-- What a call of `createMessage` leaves, and what the same call does after it.
use backend_sketch.Prelude.{
  ℕ, ◌≡◌, refl, sym, ap, subst, ◌∙◌, Bool, true, false, String, Option, none, some, List, [], ◌∷◌,
  ◌++◌, arith, any, find-map, ◌+◌, ◌==◌, string_eq, Bool-cases, Option-cases, inl, inr, ◌⊎◌,
}
use backend_sketch.Prelude.Result.{ok, err, ok_inj, Result-cases}
use backend_sketch.Api.{MessageDto, to_message_dto}
use backend_sketch.Db.{Db, Room, Message, find_room, is_member}
use backend_sketch.RoomEvents.{truthy}
use backend_sketch.MessageWrites.Persist.{clashes, has_request}
use backend_sketch.MessageWrites.Invariant.{IsValid}
use backend_sketch.Chats.Send.{
  increment, CreateMessageInput, RowError, Sent, create_message_row, create_message,
  recover_duplicate, unique_request_id, room_not_found, missing_user, update_last_message_at,
  is_blank, trim, find_message_by_request_id,
}
use backend_sketch.Chats.Send.Tables.{
  create_message_row-RowCreated, create_message_row-IsValid, rooms-IsValid, stamp, stamp-Grows,
  find_room-bump,
}

-- What is left when a row was created.
abbrev sent_new : Db → Message → CreateMessageInput → Sent
sent_new db' m input = record {
  db = record db' { rooms = update_last_message_at input.chat_id m.created_at db'.rooms };
  message = to_message_dto m;
  cached = true;
  published = true;
}

recover_duplicate_keeps :
    (input : CreateMessageInput) (e : RowError) (db : Db) (s : Sent)
    → recover_duplicate input e db ≡ ok s
    → (db ≡ s.db) × (s.published ≡ false)
unfolding recover_duplicate
recover_duplicate_keeps input unique_request_id db s h =
    elim (Option-cases (truthy input.request_id)) [
      | inl without ↦ absurd (cc (rw (without, recover_duplicate) at h))
      | inr (q, asked) ↦
          elim (Option-cases (find_message_by_request_id input.sender_id q db.messages)) [
            | inl missing ↦ absurd (cc (rw (asked, missing, recover_duplicate) at h))
            | inr (m, found) ↦
                let e = ok_inj (rw (asked, found, recover_duplicate) at h) in
                (ap (λ x. x.db) e, sym (ap (λ x. x.published) e))
          ]
    ]
recover_duplicate_keeps input room_not_found db s h = absurd (cc h)
recover_duplicate_keeps input missing_user db s h = absurd (cc h)

-- A call that succeeds created a row, or left the tables as they were.
record SentFresh (id : String) (now : ℕ) (input : CreateMessageInput) (db : Db) (s : Sent)
    : Type 0 where
  tables : Db
  row : Message
  written : is_blank input.body ≡ false
  member : is_member input.sender_id input.chat_id db.members ≡ true
  creates : create_message_row id now input (trim input.body) db ≡ ok (tables, row)
  leaves : sent_new tables row input ≡ s

create_message-cases :
    (cached : Option MessageDto) (id : String) (now : ℕ) (input : CreateMessageInput) (db : Db)
    (s : Sent)
    → create_message cached id now input db ≡ ok s
    → SentFresh id now input db s ⊎ ((db ≡ s.db) × (s.published ≡ false))
unfolding create_message
create_message-cases cached id now input db s h = elim (Bool-cases (is_blank input.body)) [
  | inl blank ↦ absurd (cc (rw (blank, create_message) at h))
  | inr written ↦ elim (Bool-cases (is_member input.sender_id input.chat_id db.members)) [
    | inr stranger ↦ absurd (cc (rw (written, stranger, create_message) at h))
    | inl member ↦ elim (Option-cases cached) [
      | inr (dto, hit) ↦
          let e = ok_inj (rw (written, member, hit, create_message) at h) in
          inr (ap (λ x. x.db) e, sym (ap (λ x. x.published) e))
      | inl miss ↦ elim (Result-cases (create_message_row id now input (trim input.body) db)) [
        | inl (e, failed) ↦ inr (
            recover_duplicate_keeps input e db s
              (rw (written, member, miss, failed, create_message) at h))
        | inr ((db', m), created) ↦ inl record {
          tables = db';
          row = m;
          written = written;
          member = member;
          creates = created;
          leaves = ok_inj (rw (written, member, miss, created, create_message) at h);
        }
      ]
    ]
  ]
]

-- A message that is sent keeps the tables valid, whether it is new, cached or a duplicate.
pub create_message-IsValid :
    (cached : Option MessageDto) (id : String) (now : ℕ) (input : CreateMessageInput) (db : Db)
    (s : Sent)
    → IsValid db
    → create_message cached id now input db ≡ ok s
    → IsValid s.db
unfolding update_last_message_at
create_message-IsValid cached id now input db s v h =
    elim (create_message-cases cached id now input db s h) [
      | inr (same, _) ↦ subst IsValid same v
      | inl f ↦
          subst (λ (x : Sent). IsValid x.db) f.leaves
            (rooms-IsValid (stamp input.chat_id f.row.created_at) f.tables
              (stamp-Grows input.chat_id f.row.created_at)
              (create_message_row-IsValid id now input (trim input.body) db f.tables f.row v
                f.creates))
    ]

-- The row that clashes with no other is the one that its sender and request find.
find_new :
    (m : Message) (q : String) (ms : List Message)
    → m.request_id ≡ some q
    → any (clashes m) ms ≡ false
    → find_message_by_request_id m.sender_id q (ms ++ m ∷ []) ≡ some m
unfolding find_message_by_request_id clashes has_request
find_new m q [] e h = ground arith
find_new m q (n ∷ ms) e h = ground (arith, find_new m q ms)

any_last :
    (p : Message → Bool) (ms : List Message) (m : Message)
    → p m ≡ true
    → any p (ms ++ m ∷ []) ≡ true
any_last p [] m h = rw h refl
any_last p (n ∷ ms) m h = ground (arith, any_last p ms m h)

-- The tables after a row was created and its room was touched.
abbrev with_row : CreateMessageInput → Message → Db → Db
with_row input m db = record db {
  rooms = update_last_message_at input.chat_id m.created_at (increment input.chat_id db.rooms);
  messages = db.messages ++ m ∷ [];
}

-- The call that finds the message of its request.
abbrev Found : String → ℕ → CreateMessageInput → Db → Message → Type 0
Found id now input db m =
    (s : Sent) × (create_message none id now input db ≡ ok s)
    × (s.message ≡ to_message_dto m)
    × (s.db ≡ db)
    × (s.published ≡ false)

find_room-touched :
    (room : String) (t : ℕ) (rooms : List Room) (r : Room)
    → find_room room rooms ≡ some r
    → find_room room (update_last_message_at room t (increment room rooms))
      ≡ some (stamp room t (record r { next_message_seq = r.next_message_seq + 1 }))
unfolding find_room update_last_message_at
find_room-touched room t rooms r e =
    find-map (stamp room t) (λ r. r.id == room) (increment room rooms)
      (record r { next_message_seq = r.next_message_seq + 1 }) (λ s. ground arith)
      (find_room-bump room rooms r e)

module _ (input : CreateMessageInput) (q : String)
    (requested : truthy input.request_id ≡ some q) where
  -- A row of the same request is refused.
  create_message_row-taken :
      (id : String) (now : ℕ) (content : String) (db : Db) (m : Message) (r : Room)
      → find_room input.chat_id db.rooms ≡ some r
      → m.sender_id ≡ input.sender_id
      → m.request_id ≡ some q
      → create_message_row id now input content (record db { messages = db.messages ++ m ∷ [] })
        ≡ err unique_request_id
  unfolding create_message_row clashes has_request
  create_message_row-taken id now content db m r found sender request =
      let row : Message = record {
        id = id;
        content = content;
        created_at = now;
        request_id = truthy input.request_id;
        room_sequence = r.next_message_seq;
        sender_id = input.sender_id;
        room_id = input.chat_id;
      } in
      let taken : any (clashes row) (db.messages ++ m ∷ []) ≡ true =
        any_last (clashes row) db.messages m (ground arith) in
      rw (found, taken, create_message_row) refl

  Found-again :
      (id : String) (now : ℕ) (db : Db) (m : Message) (r : Room)
      → is_blank input.body ≡ false
      → is_member input.sender_id input.chat_id db.members ≡ true
      → find_room input.chat_id db.rooms ≡ some r
      → m.sender_id ≡ input.sender_id
      → m.request_id ≡ some q
      → any (clashes m) db.messages ≡ false
      → Found id now input (record db { messages = db.messages ++ m ∷ [] }) m
  unfolding create_message recover_duplicate
  Found-again id now db m r written member found sender request fresh =
      let taken = create_message_row-taken id now (trim input.body) db m r found sender request in
      let finds : find_message_by_request_id input.sender_id q (db.messages ++ m ∷ []) ≡ some m =
        subst (λ k. find_message_by_request_id k q (db.messages ++ m ∷ []) ≡ some m) sender
          (find_new m q db.messages request fresh) in
      (
        record {
          db = record db { messages = db.messages ++ m ∷ [] };
          message = to_message_dto m;
          cached = true;
          published = false;
        },
        rw (written, member, taken, requested, finds, create_message, recover_duplicate) refl,
        refl,
        refl,
        refl,
      )

  -- A request that created a message, sent again, is answered with the same message, and creates and
  -- tells nothing: it holds without the cache, by the unique index alone.
  pub create_message_again :
      (cached : Option MessageDto) (id id' : String) (now now' : ℕ) (db : Db) (s : Sent)
      → create_message cached id now input db ≡ ok s
      → s.published ≡ true
      → (s' : Sent) × (create_message none id' now' input s.db ≡ ok s')
        × (s'.message ≡ s.message)
        × (s'.db ≡ s.db)
        × (s'.published ≡ false)
  create_message_again cached id id' now now' db s h told =
      elim (create_message-cases cached id now input db s h) [
        | inr (_, silent) ↦ absurd (cc (sym told ∙ silent))
        | inl f ↦
            let c =
              create_message_row-RowCreated id now input (trim input.body) db f.tables f.row
                f.creates in
            subst Again f.leaves (
              subst (λ t. Again (sent_new t f.row input)) c.tables
                (Found-again id' now'
                  (record db {
                    rooms =
                        update_last_message_at input.chat_id f.row.created_at
                          (increment input.chat_id db.rooms);
                  })
                  f.row
                  (stamp input.chat_id f.row.created_at
                    (record c.room { next_message_seq = c.room.next_message_seq + 1 }))
                  f.written f.member
                  (find_room-touched input.chat_id f.row.created_at db.rooms c.room c.found)
                  c.sender (c.requested ∙ requested) c.fresh))
      ]
    where
      Again : Sent → Type 0
      Again t =
          (s' : Sent) × (create_message none id' now' input t.db ≡ ok s')
          × (s'.message ≡ t.message)
          × (s'.db ≡ t.db)
          × (s'.published ≡ false)
