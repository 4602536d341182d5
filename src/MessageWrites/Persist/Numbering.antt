-- ===== src/MessageWrites/Persist/Numbering.antt =====
-- The sequence numbers that one statement gives out: in each room they start at the room's counter,
-- lie below the counter afterwards, and differ from one another.
use backend_sketch.Prelude.{
  ℕ, ◌+◌, ◌≤◌, ◌<◌, ◌≡◌, refl, Bool, false, ◌&&◌, some, List, [], ◌∷◌, All, AllPairs, All_imp,
  All_zip, All_of_any-false, any-false_of_All, ap, arith, Option-cases, inl, inr, ◌==◌, nat_eq,
  string_eq, any,
}
use backend_sketch.Db.{Room, Message, MessageWrite, find_room}
use backend_sketch.MessageWrites.Persist.{
  has_request, has_message, count_room, numbered, clashes, inserted, message_of,
}

-- The message stands in a place that the rows `ws` take up after the rows `before`.
pub record Slot (rooms : List Room) (before ws : List MessageWrite) (m : Message) : Type 0 where
  pub room : Room
  pub found : find_room m.room_id rooms ≡ some room
  pub above : room.next_message_seq + count_room m.room_id before ≤ m.room_sequence
  pub below :
      m.room_sequence
      < room.next_message_seq + count_room m.room_id before + count_room m.room_id ws

Slot-cons :
    (rooms : List Room) (before ws : List MessageWrite) (w : MessageWrite) (m : Message)
    → Slot rooms (w ∷ before) ws m
    → Slot rooms before (w ∷ ws) m
unfolding count_room
Slot-cons rooms before ws w m s = record {
  room = s.room;
  found = s.found;
  above = ground (arith, s.above);
  below = ground (arith, s.below);
}

pub numbered-Slot :
    (rooms : List Room) (before ws : List MessageWrite)
    → All (Slot rooms before ws) (numbered rooms before ws)
unfolding numbered count_room
numbered-Slot rooms before [] = tt
numbered-Slot rooms before (w ∷ ws) =
    let ih =
      All_imp (numbered rooms (w ∷ before) ws) (Slot-cons rooms before ws w)
        (numbered-Slot rooms (w ∷ before) ws) in
    elim (Option-cases (find_room w.room_id rooms)) [
      | inl e ↦ rw (e, numbered) ih
      | inr (r, e) ↦
          rw (e, numbered)
            (record { room = r; found = e; above = ground arith; below = ground arith }, ih)
    ]

-- Two writes that the unique indexes of "MessageWrite" keep apart.
abbrev pub Apart : MessageWrite → MessageWrite → Type 0
Apart v w =
    ((v.id == w.id) ≡ false)
    × (((v.sender_id == w.sender_id) && (v.request_id == w.request_id)) ≡ false)

-- A numbered row is a row of the list, with some number.
pub numbered-All {κ} :
    (P : Message → Type κ) (rooms : List Room) (before ws : List MessageWrite)
    → All (λ w. (n : ℕ) → P (message_of w n)) ws
    → All P (numbered rooms before ws)
unfolding numbered
numbered-All P rooms before [] h = tt
numbered-All P rooms before (w ∷ ws) h =
    let ih = numbered-All P rooms (w ∷ before) ws h.1 in
    elim (Option-cases (find_room w.room_id rooms)) [
      | inl e ↦ rw (e, numbered) ih
      | inr (r, e) ↦ rw (e, numbered) (h.0 _, ih)
    ]

-- The head of the numbering and a later message.
head_no_clash :
    (rooms : List Room) (before ws : List MessageWrite) (w v : MessageWrite) (r : Room) (n : ℕ)
    → find_room w.room_id rooms ≡ some r
    → Apart w v
    → Slot rooms (w ∷ before) ws (message_of v n)
    → clashes (message_of v n) (message_of w (r.next_message_seq + count_room w.room_id before))
      ≡ false
unfolding clashes count_room
head_no_clash rooms before ws w v r n e a slot = ground (arith, slot.found, slot.above)

pub numbered-AllPairs :
    (rooms : List Room) (before ws : List MessageWrite)
    → AllPairs Apart ws
    → AllPairs (λ m n. clashes n m ≡ false) (numbered rooms before ws)
unfolding numbered
numbered-AllPairs rooms before [] h = tt
numbered-AllPairs rooms before (w ∷ ws) h =
    let ih = numbered-AllPairs rooms (w ∷ before) ws h.1 in
    elim (Option-cases (find_room w.room_id rooms)) [
      | inl e ↦ rw (e, numbered) ih
      | inr (r, e) ↦
          rw (e, numbered)
            (
              All_imp (numbered rooms (w ∷ before) ws) (λ n p. p.1 p.0)
                  (All_zip _ _ (numbered rooms (w ∷ before) ws)
                    (numbered-Slot rooms (w ∷ before) ws)
                    (numbered-All
                      (λ n.
                        Slot rooms (w ∷ before) ws n
                        → clashes n
                            (message_of w (r.next_message_seq + count_room w.room_id before))
                          ≡ false)
                      rooms (w ∷ before) ws
                      (All_imp ws (λ v ne n. head_no_clash rooms before ws w v r n e ne) h.0))),
              ih,
            )
    ]

any_cons :
    (p : Message → Bool) (m : Message) (ms : List Message)
    → p m ≡ false
    → any p ms ≡ false
    → any p (m ∷ ms) ≡ false
any_cons p m ms h k = rw h k

inserted_self :
    (table ms : List Message)
    → All (λ m. any (clashes m) table ≡ false) ms
    → AllPairs (λ m n. clashes n m ≡ false) ms
    → inserted table ms ≡ ms
unfolding inserted
inserted_self table [] h k = refl
inserted_self table (m ∷ ms) h k =
    let fresh : All (λ n. any (clashes n) (m ∷ table) ≡ false) ms =
      All_imp ms (λ n p. any_cons (clashes n) m table p.0 p.1) (All_zip _ _ ms k.0 h.1) in
    rw h.0 (ap (◌∷◌ m) (inserted_self (m ∷ table) ms fresh k.1))

-- Each message of the table lies below the counter of its room.
abbrev pub Below : List Room → Message → Type 0
Below rooms m =
    (r : Room) × (find_room m.room_id rooms ≡ some r) × (m.room_sequence < r.next_message_seq)

old_no_clash :
    (rooms : List Room) (ws : List MessageWrite) (w : MessageWrite) (n : ℕ) (t : Message)
    → Below rooms t
    → has_message w t ≡ false
    → Slot rooms [] ws (message_of w n)
    → clashes (message_of w n) t ≡ false
unfolding clashes has_message has_request count_room
old_no_clash rooms ws w n t b h slot = ground (arith, slot.found, slot.above)

pub table_no_clash :
    (rooms : List Room) (ws : List MessageWrite) (table : List Message)
    → All (Below rooms) table
    → All (λ w. any (has_message w) table ≡ false) ws
    → All (λ m. any (clashes m) table ≡ false) (numbered rooms [] ws)
table_no_clash rooms ws table b h =
    All_imp (numbered rooms [] ws) (λ m p. p.1 p.0)
      (All_zip _ _ (numbered rooms [] ws) (numbered-Slot rooms [] ws) (
        numbered-All (λ m. Slot rooms [] ws m → any (clashes m) table ≡ false) rooms [] ws
          (All_imp ws
            (λ w k n slot. any-false_of_All (clashes (message_of w n)) table (
              All_imp table (λ t p. old_no_clash rooms ws w n t p.0 p.1 slot)
                (All_zip _ _ table b (All_of_any-false (has_message w) table k))))
            h)))

-- Under the counters and the indexes no row that the statement numbers is dropped.
pub inserted-numbered :
    (rooms : List Room) (ws : List MessageWrite) (table : List Message)
    → All (Below rooms) table
    → All (λ w. any (has_message w) table ≡ false) ws
    → AllPairs Apart ws
    → inserted table (numbered rooms [] ws) ≡ numbered rooms [] ws
inserted-numbered rooms ws table b h k =
    inserted_self table (numbered rooms [] ws) (table_no_clash rooms ws table b h)
      (numbered-AllPairs rooms [] ws k)
