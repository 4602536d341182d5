-- ===== src/MessageWrites/Invariant.antt =====
-- What holds of the tables between transactions, and that a batch keeps it.
use mathlib.Core.List.{map}
use backend_sketch.Prelude.{
  ℕ, ◌≡◌, refl, sym, ◌∙◌, subst, Bool, true, false, not, ◌&&◌, String, List, [], ◌∷◌, ◌++◌, All,
  AllPairs, All_imp, All_zip, All-map, AllPairs-map, All-append, AllPairs-append, All_swap,
  AllPairs-keep, AllPairs-imp, All-keep_self, All_of_any-false, arith, ◌==◌, string_eq, any,
  Bool-cases, inl, inr,
}
use backend_sketch.Prelude.Result.{ok, ◌>>=◌, >>=-eq-ok, ok_inj}
use backend_sketch.Db.{User, Room, Message, MessageWrite, MessageOutbox, Db, has_room, has_user}
use backend_sketch.MessageWrites.Insert.{
  InputRow, answers, new_write, insert_write, insert_writes, joined,
}
use backend_sketch.MessageWrites.Persist.{
  has_message, candidates, ordered, numbered, clashes, inserted, mark_persisted, all_messages,
  is_dead, add_outbox, origin_of,
}
use backend_sketch.MessageWrites.Persist.Numbering.{
  Apart, Below, numbered-Slot, numbered-AllPairs, table_no_clash, inserted-numbered,
}
use backend_sketch.MessageWrites.Persist.Order.{ordered-All, ordered-Apart}
use backend_sketch.MessageWrites.Rooms.{updated, Below-updated, Slot-updated, has_room-updated}
use backend_sketch.MessageWrites.Process.{persist}

abbrev pub Housed : List Room → MessageWrite → Type 0
Housed rooms w = has_room w.room_id rooms ≡ true

-- The unique indexes of "Message" and "MessageWrite", the foreign key of a write to its room, and
-- the counter of each room, which lies above the numbers of its messages.
pub record IsValid (db : Db) : Type 0 where
  pub counted : All (Below db.rooms) db.messages
  pub indexed : AllPairs (λ m n. clashes n m ≡ false) db.messages
  pub apart : AllPairs Apart db.writes
  pub housed : All (Housed db.rooms) db.writes

module _ (users : List User) (rooms : List Room) where
  abbrev Kept : List MessageWrite → Type 0
  Kept ws = AllPairs Apart ws × All (Housed rooms) ws

  insert_new :
      (i : InputRow) (ws : List MessageWrite)
      → Kept ws
      → any (λ w. answers w i) ws ≡ false
      → any (λ w. w.id == i.message_id) ws ≡ false
      → (has_user i.sender_id users && has_room i.room_id rooms) ≡ true
      → Kept (ws ++ new_write i ∷ [])
  unfolding answers
  insert_new i ws k fresh free there = (
    AllPairs-append Apart ws (new_write i ∷ []) k.0 (tt, tt)
        (All_imp ws
          (λ w (p : (answers w i ≡ false) × ((w.id == i.message_id) ≡ false)). (ground arith, tt))
          (All_zip _ _ ws (All_of_any-false _ ws fresh) (All_of_any-false _ ws free))),
    All-append (Housed rooms) ws (new_write i ∷ []) k.1 (ground arith, tt),
  )

  insert_write-Kept :
      (i : InputRow) (ws ws' : List MessageWrite)
      → Kept ws
      → insert_write users rooms i ws ≡ ok ws'
      → Kept ws'
  unfolding insert_write
  insert_write-Kept i ws ws' k h = elim (Bool-cases (any (λ w. answers w i) ws)) [
    | inl known ↦ subst Kept (ok_inj (rw (known, insert_write) at h)) k
    | inr fresh ↦ elim (Bool-cases (any (λ w. w.id == i.message_id) ws)) [
      | inl taken ↦ absurd (cc (rw (fresh, taken, insert_write) at h))
      | inr free ↦ elim (Bool-cases (has_user i.sender_id users && has_room i.room_id rooms)) [
        | inl there ↦
            subst Kept (ok_inj (rw (fresh, free, there, insert_write) at h))
              (insert_new i ws k fresh free there)
        | inr missing ↦ absurd (cc (rw (fresh, free, missing, insert_write) at h))
      ]
    ]
  ]

  pub insert_writes-Kept :
      (is : List InputRow) (ws ws' : List MessageWrite)
      → Kept ws
      → insert_writes users rooms is ws ≡ ok ws'
      → Kept ws'
  unfolding insert_writes
  insert_writes-Kept [] ws ws' k h = subst Kept (ok_inj h) k
  insert_writes-Kept (i ∷ is) ws ws' k h =
      let (us, e, f) = >>=-eq-ok (insert_write users rooms i ws) _ h in
      insert_writes-Kept is us ws' (insert_write-Kept i ws us k e) f

-- `mark_persisted` leaves what identifies a write alone.
pub mark_persisted_keeps :
    (all : List Message) (w : MessageWrite)
    → ((mark_persisted all w).id ≡ w.id)
      × ((mark_persisted all w).sender_id ≡ w.sender_id)
      × ((mark_persisted all w).request_id ≡ w.request_id)
      × ((mark_persisted all w).room_id ≡ w.room_id)
      × ((mark_persisted all w).content ≡ w.content)
unfolding mark_persisted
mark_persisted_keeps all w = ground arith

mark_persisted-Apart :
    (all : List Message) (v w : MessageWrite)
    → Apart v w
    → Apart (mark_persisted all v) (mark_persisted all w)
mark_persisted-Apart all v w a =
    ground (arith, mark_persisted_keeps all v, mark_persisted_keeps all w)

module _ (collate : String → String → Bool) (is : List InputRow) (db : Db) where
  abbrev pub batch_rows : List MessageWrite
  batch_rows = joined is db.writes

  -- The candidates in the order of their numbers, and the messages that they become.
  abbrev pub chosen : List MessageWrite
  chosen = ordered collate (candidates db.messages batch_rows)

  abbrev pub created : List Message
  created = numbered db.rooms [] chosen

  abbrev pub persisted : List MessageOutbox → Db
  persisted outbox = record db {
    rooms = updated created chosen db.rooms;
    messages = db.messages ++ created;
    writes = map (mark_persisted (all_messages created db.messages batch_rows)) db.writes;
    outbox = outbox;
  }

  module _ (v : IsValid db) where
    pub batch_rows-Apart : AllPairs Apart batch_rows
    unfolding joined
    batch_rows-Apart = AllPairs-keep Apart _ db.writes v.apart

    pub chosen-Apart : AllPairs Apart chosen
    unfolding candidates
    chosen-Apart = ordered-Apart collate _ (AllPairs-keep Apart _ batch_rows batch_rows-Apart)

    pub chosen-fresh : All (λ w. any (has_message w) db.messages ≡ false) chosen
    unfolding candidates
    chosen-fresh = ordered-All collate _ (candidates db.messages batch_rows) (
        All_imp (candidates db.messages batch_rows)
          (λ w (p : (not (is_dead w.status) && not (any (has_message w) db.messages)) ≡ true).
            ground arith)
          (All-keep_self _ batch_rows))

    -- ON CONFLICT DO NOTHING drops no message.
    pub inserted-created : inserted db.messages created ≡ created
    inserted-created =
        inserted-numbered db.rooms chosen db.messages v.counted chosen-fresh chosen-Apart

    counted_after : All (Below (updated created chosen db.rooms)) (db.messages ++ created)
    counted_after =
        All-append _ db.messages created
          (All_imp db.messages (Below-updated created chosen db.rooms) v.counted)
          (All_imp created (Slot-updated created chosen db.rooms)
            (numbered-Slot db.rooms [] chosen))

    indexed_after : AllPairs (λ m n. clashes n m ≡ false) (db.messages ++ created)
    indexed_after =
        AllPairs-append _ db.messages created v.indexed
          (numbered-AllPairs db.rooms [] chosen chosen-Apart)
          (All_swap (λ m n. clashes n m ≡ false) db.messages created
            (All_imp created (λ n. All_of_any-false (clashes n) db.messages)
              (table_no_clash db.rooms chosen db.messages v.counted chosen-fresh)))

    module _ (all : List Message) where
      Apart-after : AllPairs Apart (map (mark_persisted all) db.writes)
      Apart-after =
          AllPairs-map (mark_persisted all) Apart db.writes
            (AllPairs-imp db.writes (mark_persisted-Apart all) v.apart)

      Housed-after :
          All (Housed (updated created chosen db.rooms)) (map (mark_persisted all) db.writes)
      Housed-after =
          All-map (mark_persisted all) (Housed (updated created chosen db.rooms)) db.writes (
            All_imp db.writes
              (λ w (h : Housed db.rooms w).
                rw (mark_persisted_keeps all w).3
                  (has_room-updated created chosen db.rooms w.room_id h))
              v.housed)

    module _ (md5 : String → String) (now : ℕ) where
      -- The statement, with every numbered row inserted.
      pub persist-eq : persist collate md5 now is db ≡ (do
        outbox ← add_outbox md5 now (origin_of is batch_rows) created db.outbox
        ok (persisted outbox, created))
      unfolding persist
      persist-eq = rw inserted-created

      pub persist-IsValid :
          (r : Db × List Message)
          → persist collate md5 now is db ≡ ok r
          → IsValid r.0 × (r.1 ≡ created)
      persist-IsValid r h =
          let (outbox, _, e) =
            >>=-eq-ok (add_outbox md5 now (origin_of is batch_rows) created db.outbox) _
              (sym persist-eq ∙ h) in
          subst (λ (x : Db × List Message). IsValid x.0 × (x.1 ≡ created))
            {x = (persisted outbox, created)} (ok_inj e)
            (
              record {
                counted = counted_after;
                indexed = indexed_after;
                apart = Apart-after (all_messages created db.messages batch_rows);
                housed = Housed-after (all_messages created db.messages batch_rows);
              },
              refl,
            )
