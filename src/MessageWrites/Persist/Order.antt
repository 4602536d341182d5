-- ===== src/MessageWrites/Persist/Order.antt =====
-- The order in which one statement numbers its rows.
use backend_sketch.Prelude.{
  ℕ, ◌+◌, ◌≤◌, ◌<◌, ◌≡◌, Bool, String, some, List, [], ◌∷◌, All, AllPairs, All_imp, All_zip, arith,
  Bool-cases, Option-cases, inl, inr, nat_eq, string_eq,
}
use backend_sketch.Db.{Room, Message, MessageWrite, find_room}
use backend_sketch.MessageWrites.Persist.{
  count_room, numbered, write_le, insert_ordered, ordered, message_of,
}
use backend_sketch.MessageWrites.Persist.Numbering.{Apart, Slot, numbered-Slot, numbered-All}

abbrev pub Earlier : MessageWrite → MessageWrite → Type 0
Earlier v w = v.accepted_at ≤ w.accepted_at

module _ (collate : String → String → Bool) where
  module _ {κ} (P : MessageWrite → Type κ) where
    insert_ordered-All :
        (w : MessageWrite) (vs : List MessageWrite)
        → P w
        → All P vs
        → All P (insert_ordered collate w vs)
    unfolding insert_ordered
    insert_ordered-All w [] p h = (p, tt)
    insert_ordered-All w (v ∷ vs) p h = elim (Bool-cases (write_le collate w v)) [
      | inl t ↦ rw t (p, h)
      | inr f ↦ rw f (h.0, insert_ordered-All w vs p h.1)
    ]

    pub ordered-All : (ws : List MessageWrite) → All P ws → All P (ordered collate ws)
    unfolding ordered
    ordered-All [] h = tt
    ordered-All (w ∷ ws) h = insert_ordered-All w (ordered collate ws) h.0 (ordered-All ws h.1)

    All_of_insert_ordered :
        (w : MessageWrite) (vs : List MessageWrite)
        → All P (insert_ordered collate w vs)
        → P w × All P vs
    unfolding insert_ordered
    All_of_insert_ordered w [] h = h
    All_of_insert_ordered w (v ∷ vs) h = elim (Bool-cases (write_le collate w v)) [
      | inl t ↦ rw (t, insert_ordered) at h
      | inr f ↦
          let k : All P (v ∷ insert_ordered collate w vs) = rw (f, insert_ordered) at h in
          let r = All_of_insert_ordered w vs k.1 in (r.0, (k.0, r.1))
    ]

    pub All_of_ordered : (ws : List MessageWrite) → All P (ordered collate ws) → All P ws
    unfolding ordered
    All_of_ordered [] h = tt
    All_of_ordered (w ∷ ws) h =
        let r = All_of_insert_ordered w (ordered collate ws) h in (r.0, All_of_ordered ws r.1)

  insert_ordered-Apart :
      (w : MessageWrite) (vs : List MessageWrite)
      → All (Apart w) vs
      → AllPairs Apart vs
      → AllPairs Apart (insert_ordered collate w vs)
  unfolding insert_ordered
  insert_ordered-Apart w [] h k = (tt, tt)
  insert_ordered-Apart w (v ∷ vs) h k = elim (Bool-cases (write_le collate w v)) [
    | inl t ↦ rw t (h, k)
    | inr f ↦ rw f (
      insert_ordered-All (Apart v) w vs (ground (arith, h.0)) k.0,
      insert_ordered-Apart w vs h.1 k.1,
    )
  ]

  pub ordered-Apart :
      (ws : List MessageWrite) → AllPairs Apart ws → AllPairs Apart (ordered collate ws)
  unfolding ordered
  ordered-Apart [] h = tt
  ordered-Apart (w ∷ ws) h =
      insert_ordered-Apart w (ordered collate ws) (ordered-All (Apart w) ws h.0)
        (ordered-Apart ws h.1)

  insert_ordered-Earlier :
      (w : MessageWrite) (vs : List MessageWrite)
      → AllPairs Earlier vs
      → AllPairs Earlier (insert_ordered collate w vs)
  unfolding insert_ordered write_le
  insert_ordered-Earlier w [] k = (tt, tt)
  insert_ordered-Earlier w (v ∷ vs) k = elim (Bool-cases (write_le collate w v)) [
    | inl t ↦ rw t ((ground arith, All_imp vs (λ u (e : Earlier v u). ground arith) k.0), k)
    | inr f ↦
        rw f
          (insert_ordered-All (Earlier v) w vs (ground arith) k.0, insert_ordered-Earlier w vs k.1)
  ]

  pub ordered-Earlier : (ws : List MessageWrite) → AllPairs Earlier (ordered collate ws)
  unfolding ordered
  ordered-Earlier [] = tt
  ordered-Earlier (w ∷ ws) = insert_ordered-Earlier w (ordered collate ws) (ordered-Earlier ws)

-- The first message is as old as the second, and its number in the room is smaller.
abbrev pub InOrder : Message → Message → Type 0
InOrder m n =
    (m.created_at ≤ n.created_at) × (m.room_id ≡ n.room_id → m.room_sequence < n.room_sequence)

head-InOrder :
    (rooms : List Room) (before ws : List MessageWrite) (w v : MessageWrite) (r : Room) (n : ℕ)
    → find_room w.room_id rooms ≡ some r
    → Earlier w v
    → Slot rooms (w ∷ before) ws (message_of v n)
    → InOrder (message_of w (r.next_message_seq + count_room w.room_id before)) (message_of v n)
unfolding count_room
head-InOrder rooms before ws w v r n e a slot = (a, λ s. ground (arith, slot.found, slot.above))

pub numbered-InOrder :
    (rooms : List Room) (before ws : List MessageWrite)
    → AllPairs Earlier ws
    → AllPairs InOrder (numbered rooms before ws)
unfolding numbered
numbered-InOrder rooms before [] h = tt
numbered-InOrder rooms before (w ∷ ws) h =
    let ih = numbered-InOrder rooms (w ∷ before) ws h.1 in
    elim (Option-cases (find_room w.room_id rooms)) [
      | inl e ↦ rw (e, numbered) ih
      | inr (r, e) ↦
          rw (e, numbered)
            (
              All_imp (numbered rooms (w ∷ before) ws) (λ n p. p.1 p.0)
                  (All_zip _ _ (numbered rooms (w ∷ before) ws)
                    (numbered-Slot rooms (w ∷ before) ws)
                    (numbered-All
                      (λ n.
                        Slot rooms (w ∷ before) ws n
                        → InOrder (message_of w (r.next_message_seq + count_room w.room_id before))
                            n)
                      rooms (w ∷ before) ws
                      (All_imp ws (λ v le n. head-InOrder rooms before ws w v r n e le) h.0))),
              ih,
            )
    ]
