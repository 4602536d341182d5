-- ===== src/MessageWrites/Rooms.antt =====
-- What the statements of the transaction do to the rows of "Room".
use backend_sketch.Prelude.{
  find-map, ap, ◌∙◌, Bool-cases, ◌+◌, ◌≡◌, refl, true, String, none, some, List, [], ◌∷◌, arith,
  ◌==◌, string_eq, max, inl, inr,
}
use backend_sketch.Db.{Room, Message, MessageWrite, find_room, has_room}
use backend_sketch.MessageWrites.Persist.{
  count_room, allocate, max_by_room, update_rooms_last_message_at,
}
use backend_sketch.MessageWrites.Persist.Numbering.{Slot, Below}

pub find_room-id : (id : String) (rs : List Room) (r : Room) → find_room id rs ≡ some r → r.id ≡ id
unfolding find_room
find_room-id id [] r h = absurd (cc h)
find_room-id id (s ∷ rs) r h = ground (arith, find_room-id id rs r)

pub find_room_of_has :
    (id : String) (rs : List Room) → has_room id rs ≡ true → (r : Room) × (find_room id rs ≡ some r)
unfolding find_room has_room
find_room_of_has id [] h = absurd (cc h)
find_room_of_has id (s ∷ rs) h = elim (Bool-cases (s.id == id)) [
  | inl t ↦ (s, rw t)
  | inr f ↦ let (r, e) = find_room_of_has id rs (ground arith) in (r, rw f e)
]

pub has_room_of_find :
    (id : String) (rs : List Room) (r : Room) → find_room id rs ≡ some r → has_room id rs ≡ true
unfolding find_room has_room
has_room_of_find id [] r h = absurd (cc h)
has_room_of_find id (s ∷ rs) r h = ground (arith, has_room_of_find id rs r)

find_room-allocate :
    (id : String) (cs : List MessageWrite) (rs : List Room) (r : Room)
    → find_room id rs ≡ some r
    → find_room id (allocate cs rs)
      ≡ some (record r { next_message_seq = r.next_message_seq + count_room r.id cs })
unfolding find_room allocate
find_room-allocate id cs rs r h = find-map _ (λ r. r.id == id) rs r (λ s. refl) h

abbrev touch : List Message → Room → Room
touch ms r = elim (max_by_room r.id none ms) [
  | none ↦ r
  | some t ↦ record r { last_message_at = max r.last_message_at t }
]

touch_keeps :
    (ms : List Message) (r : Room)
    → ((touch ms r).id ≡ r.id) × ((touch ms r).next_message_seq ≡ r.next_message_seq)
touch_keeps ms r = ground arith

-- The second update leaves the counters alone.
find_room-update :
    (id : String) (ms : List Message) (rs : List Room) (r : Room)
    → find_room id rs ≡ some r
    → find_room id (update_rooms_last_message_at ms rs) ≡ some (touch ms r)
unfolding find_room update_rooms_last_message_at
find_room-update id ms rs r h = find-map _ (λ r. r.id == id) rs r (λ s. rw (touch_keeps ms s).0) h

module _ (ms : List Message) (cs : List MessageWrite) (rs : List Room) where
  -- The rooms after the transaction.
  abbrev pub updated : List Room
  updated = update_rooms_last_message_at ms (allocate cs rs)

  find_room-updated :
      (id : String) (r : Room)
      → find_room id rs ≡ some r
      → (r' : Room) × (find_room id updated ≡ some r')
        × (r'.next_message_seq ≡ r.next_message_seq + count_room id cs)
  find_room-updated id r h =
      let a = record r { next_message_seq = r.next_message_seq + count_room r.id cs } in
      (
        touch ms a,
        find_room-update id ms (allocate cs rs) a (find_room-allocate id cs rs r h),
        (touch_keeps ms a).1
            ∙ ap (λ i. r.next_message_seq + count_room i cs) (find_room-id id rs r h),
      )

  pub Below-updated : (m : Message) → Below rs m → Below updated m
  Below-updated m (r, found, lt) =
      let (r', found', next) = find_room-updated m.room_id r found in (r', found', omega arith)

  pub Slot-updated : (m : Message) → Slot rs [] cs m → Below updated m
  unfolding count_room
  Slot-updated m s =
      let (r', found', next) = find_room-updated m.room_id s.room s.found in
      (r', found', ground (arith, s.below, next))

  pub has_room-updated : (id : String) → has_room id rs ≡ true → has_room id updated ≡ true
  has_room-updated id h =
      let (r, found) = find_room_of_has id rs h in
      let (r', found', _) = find_room-updated id r found in has_room_of_find id updated r' found'
