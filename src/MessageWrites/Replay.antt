-- ===== src/MessageWrites/Replay.antt =====
-- A batch that is delivered again creates nothing: the buffer delivers at least once.
use mathlib.Core.List.{map}
use backend_sketch.Prelude.{
  ◌≡◌, refl, ap, ap₂, ◌∙◌, subst, Bool, true, false, not, ◌&&◌, String, List, [], ◌∷◌, All, All_imp,
  arith, any, Bool-cases, Option-cases, inl, inr, ◌⊎◌, string_eq, any-map, keep-map, any-append,
}
use backend_sketch.Prelude.JsMap.{
  JsMap, map_values, set-map_values, get-map_values-some, get-map_values-none,
}
use backend_sketch.Prelude.JsMap
use backend_sketch.Prelude.Result.{ok, >>=-eq-ok, ok_inj}
use backend_sketch.Nats.{MessageWriteCommand}
use backend_sketch.Db.{User, Room, Message, MessageWrite}
use backend_sketch.MessageWrites.Dedupe.{message_write_key, key_of}
use backend_sketch.MessageWrites.Insert.{
  InputRow, answers, new_write, insert_write, insert_writes, joined, is_write_of, writes_by_key,
  verify,
}
use backend_sketch.MessageWrites.Persist.{
  is_dead, is_final, has_request, has_message, numbered, mark_persisted,
}
use backend_sketch.MessageWrites.Invariant.{Housed, mark_persisted_keeps}
use backend_sketch.MessageWrites.Rooms.{find_room_of_has}

module _ (users : List User) (rooms : List Room) where
  insert_write_grows :
      (p : MessageWrite → Bool) (i : InputRow) (ws ws' : List MessageWrite)
      → insert_write users rooms i ws ≡ ok ws'
      → any p ws ≡ true
      → any p ws' ≡ true
  unfolding insert_write
  insert_write_grows p i ws ws' h k = ground (arith, any-append p ws (new_write i ∷ []))

  insert_writes_grows :
      (p : MessageWrite → Bool) (is : List InputRow) (ws ws' : List MessageWrite)
      → insert_writes users rooms is ws ≡ ok ws'
      → any p ws ≡ true
      → any p ws' ≡ true
  unfolding insert_writes
  insert_writes_grows p [] ws ws' h k = subst (λ us. any p us ≡ true) (ok_inj h) k
  insert_writes_grows p (i ∷ is) ws ws' h k =
      let (us, e, f) = >>=-eq-ok (insert_write users rooms i ws) _ h in
      insert_writes_grows p is us ws' f (insert_write_grows p i ws us e k)

  insert_write_answered :
      (i : InputRow) (ws ws' : List MessageWrite)
      → insert_write users rooms i ws ≡ ok ws'
      → any (λ w. answers w i) ws' ≡ true
  unfolding insert_write answers
  insert_write_answered i ws ws' h =
      ground (arith, any-append (λ w. answers w i) ws (new_write i ∷ []))

  -- After the INSERT every row of the input has its write.
  pub insert_writes_answered :
      (is : List InputRow) (ws ws' : List MessageWrite)
      → insert_writes users rooms is ws ≡ ok ws'
      → All (λ i. any (λ w. answers w i) ws' ≡ true) is
  unfolding insert_writes
  insert_writes_answered [] ws ws' h = tt
  insert_writes_answered (i ∷ is) ws ws' h =
      let (us, e, f) = >>=-eq-ok (insert_write users rooms i ws) _ h in
      (
        insert_writes_grows (λ w. answers w i) is us ws' f (insert_write_answered i ws us e),
        insert_writes_answered is us ws' f,
      )

  -- And a second INSERT does nothing.
  pub insert_writes_known :
      (is : List InputRow) (ws : List MessageWrite)
      → All (λ i. any (λ w. answers w i) ws ≡ true) is
      → insert_writes users rooms is ws ≡ ok ws
  unfolding insert_writes insert_write
  insert_writes_known [] ws h = refl
  insert_writes_known (i ∷ is) ws h = rw h.0 (insert_writes_known is ws h.1)

-- Each candidate has its message among those that are created.
pub numbered-covers :
    (rooms : List Room) (before ws : List MessageWrite)
    → All (Housed rooms) ws
    → All (λ w. any (has_message w) (numbered rooms before ws) ≡ true) ws
unfolding numbered has_message has_request
numbered-covers rooms before [] h = tt
numbered-covers rooms before (w ∷ ws) h =
    let (r, e) = find_room_of_has w.room_id rooms h.0 in
    rw (e, numbered)
      (
        ground arith,
        All_imp ws (λ v k. ground (arith, k)) (numbered-covers rooms (w ∷ before) ws h.1),
      )

-- The writes as they are marked answer to the same rows and commands.
module _ (all : List Message) where
  any-answers_mark :
      (is : List InputRow) (w : MessageWrite)
      → any (answers (mark_persisted all w)) is ≡ any (answers w) is
  unfolding answers
  any-answers_mark [] w = refl
  any-answers_mark (i ∷ is) w = ground (arith, mark_persisted_keeps all w, any-answers_mark is w)

  answers_mark : (w : MessageWrite) (i : InputRow) → answers (mark_persisted all w) i ≡ answers w i
  unfolding answers
  answers_mark w i = ground (arith, mark_persisted_keeps all w)

  pub joined_mark :
      (is : List InputRow) (ws : List MessageWrite)
      → joined is (map (mark_persisted all) ws) ≡ map (mark_persisted all) (joined is ws)
  unfolding joined
  joined_mark is ws = keep-map (mark_persisted all) _ ws (any-answers_mark is)

  pub answered_mark :
      (is : List InputRow) (ws : List MessageWrite)
      → All (λ i. any (λ w. answers w i) ws ≡ true) is
      → All (λ i. any (λ w. answers w i) (map (mark_persisted all) ws) ≡ true) is
  answered_mark is ws h =
      All_imp is
        (λ i (k : any (λ w. answers w i) ws ≡ true).
          any-map (mark_persisted all) (λ w. answers w i) ws (λ w. answers_mark w i) ∙ k)
        h

  pub writes_by_key_mark :
      (m : JsMap String MessageWrite) (ws : List MessageWrite)
      → writes_by_key (map_values (mark_persisted all) m) (map (mark_persisted all) ws)
        ≡ map_values (mark_persisted all) (writes_by_key m ws)
  unfolding writes_by_key
  writes_by_key_mark m [] = refl
  writes_by_key_mark m (w ∷ ws) =
      let f = mark_persisted all in
      let key = message_write_key w.sender_id w.request_id in
      let same : message_write_key (f w).sender_id (f w).request_id ≡ key =
        ap₂ message_write_key (mark_persisted_keeps all w).1 (mark_persisted_keeps all w).2 in
      ap (λ k. writes_by_key (JsMap.set k (f w) (map_values f m)) (map f ws)) same
      ∙ ap (λ x. writes_by_key x (map f ws)) (set-map_values f key w m)
      ∙ writes_by_key_mark (JsMap.set key w m) ws

  is_write_of_mark :
      (c : MessageWriteCommand) (w : MessageWrite)
      → is_write_of c (mark_persisted all w) ≡ is_write_of c w
  unfolding is_write_of
  is_write_of_mark c w = ground (arith, mark_persisted_keeps all w)

  pub verify_mark :
      (m : JsMap String MessageWrite) (cs : List MessageWriteCommand)
      → verify m cs ≡ ok tt
      → verify (map_values (mark_persisted all) m) cs ≡ ok tt
  unfolding verify
  verify_mark m [] h = refl
  verify_mark m (c ∷ cs) h = elim (Option-cases (JsMap.get (key_of c) m)) [
    | inl e ↦ absurd (cc (rw (e, verify) at h))
    | inr (w, e) ↦ elim (Bool-cases (is_write_of c w)) [
      | inl same ↦ ground (
        arith,
        get-map_values-some (mark_persisted all) (key_of c) w m e,
        is_write_of_mark c w,
        same,
        verify_mark m cs (rw (e, same, verify) at h),
      )
      | inr other ↦ absurd (cc (rw (e, other, verify) at h))
    ]
  ]

  dead_mark : (w : MessageWrite) → is_dead w.status ≡ true → mark_persisted all w ≡ w
  unfolding mark_persisted is_dead is_final
  dead_mark w h = ground arith

  any_message_mark :
      (table : List Message) (w : MessageWrite)
      → any (has_message (mark_persisted all w)) table ≡ any (has_message w) table
  unfolding has_message
  any_message_mark [] w = refl
  any_message_mark (m ∷ table) w =
      ground (arith, mark_persisted_keeps all w, any_message_mark table w)

  -- A write that is settled is no candidate.
  pub marked_settled :
      (table : List Message) (w : MessageWrite)
      → (is_dead w.status ≡ true) ⊎ (any (has_message w) table ≡ true)
      → (not (is_dead (mark_persisted all w).status)
          && not (any (has_message (mark_persisted all w)) table))
        ≡ false
  marked_settled table w (inl d) = rw (dead_mark w d, d)
  marked_settled table w (inr k) = rw (any_message_mark table w, k) (ground arith)
