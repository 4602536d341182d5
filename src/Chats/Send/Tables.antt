-- ===== src/Chats/Send/Tables.antt =====
-- Sending a message keeps the tables valid, and sending it again changes nothing.
use mathlib.Core.List.{map}
use backend_sketch.Prelude.{
  ℕ, ◌+◌, ◌≤◌, max, ◌≡◌, refl, ap, subst, ◌∙◌, false, String, some, List, [], ◌∷◌, ◌++◌, All_imp,
  All-append, AllPairs-append, All_of_any-false, arith, any, any-map, find-map, ◌==◌, string_eq,
  Bool-cases, Option-cases, inl, inr, if◌then◌else◌,
}
use backend_sketch.Prelude.Result.{ok, ok_inj}
use backend_sketch.Db.{Db, Room, Message, find_room, has_room, has_user}
use backend_sketch.RoomEvents.{truthy}
use backend_sketch.MessageWrites.Persist.{clashes}
use backend_sketch.MessageWrites.Persist.Numbering.{Below}
use backend_sketch.MessageWrites.Invariant.{IsValid, Housed}
use backend_sketch.Chats.Send.{CreateMessageInput, increment, create_message_row}

-- An update of the rooms that lowers no counter.
pub record Grows (f : Room → Room) : Type 0 where
  pub same_id : (r : Room) → (f r).id ≡ r.id
  pub no_less : (r : Room) → r.next_message_seq ≤ (f r).next_message_seq

Below-grows :
    (f : Room → Room) (rooms : List Room) (m : Message)
    → Grows f
    → Below rooms m
    → Below (map f rooms) m
unfolding find_room
Below-grows f rooms m g (r, e, l) = (
  f r,
  find-map f (λ r. r.id == m.room_id) rooms r (λ s. ground (arith, g.same_id s)) e,
  ground (arith, g.no_less r),
)

module _ (f : Room → Room) (db : Db) (m : Message) (g : Grows f) where
  -- A message that clashes with none and lies below its room's counter may be added.
  add_message-IsValid :
      any (clashes m) db.messages ≡ false
      → Below (map f db.rooms) m
      → IsValid db
      → IsValid (record db { rooms = map f db.rooms; messages = db.messages ++ m ∷ [] })
  unfolding has_room
  add_message-IsValid fresh below v = record {
    counted =
        All-append _ db.messages (m ∷ [])
          (All_imp db.messages (λ n b. Below-grows f db.rooms n g b) v.counted) (below, tt);
    indexed =
        AllPairs-append (λ m n. clashes n m ≡ false) db.messages (m ∷ []) v.indexed (tt, tt)
          (All_imp db.messages (λ n c. (c, tt)) (All_of_any-false (clashes m) db.messages fresh));
    apart = v.apart;
    housed =
        All_imp {P = Housed db.rooms} {Q = Housed (map f db.rooms)} db.writes
          (λ w h.
            any-map f (λ r. r.id == w.room_id) db.rooms (λ r. ground (arith, g.same_id r)) ∙ h)
          v.housed;
  }

pub rooms-IsValid :
    (f : Room → Room) (db : Db)
    → Grows f
    → IsValid db
    → IsValid (record db { rooms = map f db.rooms })
unfolding has_room
rooms-IsValid f db g v = record {
  counted = All_imp db.messages (λ n b. Below-grows f db.rooms n g b) v.counted;
  indexed = v.indexed;
  apart = v.apart;
  housed =
      All_imp {P = Housed db.rooms} {Q = Housed (map f db.rooms)} db.writes
        (λ w h. any-map f (λ r. r.id == w.room_id) db.rooms (λ r. ground (arith, g.same_id r)) ∙ h)
        v.housed;
}

abbrev bump : String → Room → Room
bump room r = if r.id == room then record r { next_message_seq = r.next_message_seq + 1 } else r

bump-Grows : (room : String) → Grows (bump room)
bump-Grows room = record { same_id = λ r. ground arith; no_less = λ r. ground arith }

abbrev pub stamp : String → ℕ → Room → Room
stamp room t r = if r.id == room then record r { last_message_at = max r.last_message_at t } else r

pub stamp-Grows : (room : String) (t : ℕ) → Grows (stamp room t)
stamp-Grows room t = record { same_id = λ r. ground arith; no_less = λ r. ground arith }

pub find_room-bump :
    (room : String) (rooms : List Room) (r : Room)
    → find_room room rooms ≡ some r
    → find_room room (increment room rooms)
      ≡ some (record r { next_message_seq = r.next_message_seq + 1 })
unfolding find_room increment
find_room-bump room [] r h = absurd (cc h)
find_room-bump room (s ∷ rooms) r h = ground (arith, find_room-bump room rooms r)

-- What a row that was created is.
pub record RowCreated (id : String) (now : ℕ) (input : CreateMessageInput) (content : String)
    (db : Db) (db' : Db) (m : Message) : Type 0 where
  pub room : Room
  pub found : find_room input.chat_id db.rooms ≡ some room
  pub fresh : any (clashes m) db.messages ≡ false
  pub requested : m.request_id ≡ truthy input.request_id
  pub sender : m.sender_id ≡ input.sender_id
  pub row_room : m.room_id ≡ input.chat_id
  pub row_number : m.room_sequence ≡ room.next_message_seq
  pub tables :
      record db { rooms = increment input.chat_id db.rooms; messages = db.messages ++ m ∷ [] } ≡ db'

pub create_message_row-RowCreated :
    (id : String) (now : ℕ) (input : CreateMessageInput) (content : String) (db db' : Db)
    (m : Message)
    → create_message_row id now input content db ≡ ok (db', m)
    → RowCreated id now input content db db' m
unfolding create_message_row
create_message_row-RowCreated id now input content db db' m h =
    elim (Option-cases (find_room input.chat_id db.rooms)) [
      | inl missing ↦ absurd (cc (rw (missing, create_message_row) at h))
      | inr (r, found) ↦
          let row : Message = record {
            id = id;
            content = content;
            created_at = now;
            request_id = truthy input.request_id;
            room_sequence = r.next_message_seq;
            sender_id = input.sender_id;
            room_id = input.chat_id;
          } in
          elim (Bool-cases (any (clashes row) db.messages)) [
            | inl taken ↦ absurd (cc (rw (found, taken, create_message_row) at h))
            | inr fresh ↦ elim (Bool-cases (has_user input.sender_id db.users)) [
              | inr nobody ↦ absurd (cc (rw (found, fresh, nobody, create_message_row) at h))
              | inl there ↦
                  subst (λ (x : Db × Message). RowCreated id now input content db x.0 x.1)
                    {y = (db', m)} (ok_inj (rw (found, fresh, there, create_message_row) at h))
                    record {
                      room = r;
                      found = found;
                      fresh = fresh;
                      requested = refl;
                      sender = refl;
                      row_room = refl;
                      row_number = refl;
                      tables = refl;
                    }
            ]
          ]
    ]

pub create_message_row-IsValid :
    (id : String) (now : ℕ) (input : CreateMessageInput) (content : String) (db db' : Db)
    (m : Message)
    → IsValid db
    → create_message_row id now input content db ≡ ok (db', m)
    → IsValid db'
unfolding increment
create_message_row-IsValid id now input content db db' m v h =
    let c = create_message_row-RowCreated id now input content db db' m h in
    subst IsValid c.tables (
      add_message-IsValid (bump input.chat_id) db m (bump-Grows input.chat_id) c.fresh
        (
          record c.room { next_message_seq = c.room.next_message_seq + 1 },
          ap (λ k. find_room k (increment input.chat_id db.rooms)) c.row_room
              ∙ find_room-bump input.chat_id db.rooms c.room c.found,
          ground (arith, c.row_number),
        )
        v)
