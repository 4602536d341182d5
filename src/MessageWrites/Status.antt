-- ===== src/MessageWrites/Status.antt =====
-- The life of a row of "MessageWrite": PENDING, then PERSISTED or DEAD, and PERSISTED then FANOUTED.
pub mod History
pub mod Steps
use mathlib.Core.List.{map}
use backend_sketch.Prelude.{
  ℕ, ◌≡◌, refl, subst, Bool, true, false, not, ◌&&◌, ◌||◌, String, Option, none, some, List, [],
  ◌∷◌, ◌++◌, All, AllPairs, All_imp, All_zip, All-map, AllPairs-map, AllPairs-imp, All-append,
  AllPairs-append, All_of_any-false, arith, any, find, Bool-cases, Option-cases, inl, inr, ◌⊎◌,
  ◌==◌, string_eq, if◌then◌else◌,
}
use backend_sketch.Prelude.Result.{Result, ok, err, ◌>>=◌, >>=-eq-ok, ok_inj}
use backend_sketch.Nats.{MessageWriteCommand}
use backend_sketch.Db.{User, Room, Message, MessageWrite, WriteStatus, Db, has_user, has_room}
use backend_sketch.MessageWrites.Insert.{InputRow, new_write, insert_write, insert_writes}
use backend_sketch.MessageWrites.Persist.{mark_persisted, is_final}
use backend_sketch.MessageWrites.Persist.Numbering.{Apart}
use backend_sketch.MessageWrites.Dead.{mark_message_write_dead, is_pending}
use backend_sketch.MessageWrites.Outbox.{mark_fanouted, is_persisted}
use backend_sketch.MessageWrites.Invariant.{Housed}

-- The moves that a row may have made; DEAD and FANOUTED are final.
abbrev pub advances : WriteStatus → WriteStatus → Bool
advances WriteStatus.pending t = true
advances WriteStatus.persisted WriteStatus.persisted = true
advances WriteStatus.persisted WriteStatus.fanouted = true
advances WriteStatus.persisted WriteStatus.pending = false
advances WriteStatus.persisted WriteStatus.dead = false
advances WriteStatus.fanouted WriteStatus.fanouted = true
advances WriteStatus.fanouted WriteStatus.pending = false
advances WriteStatus.fanouted WriteStatus.persisted = false
advances WriteStatus.fanouted WriteStatus.dead = false
advances WriteStatus.dead WriteStatus.dead = true
advances WriteStatus.dead WriteStatus.pending = false
advances WriteStatus.dead WriteStatus.persisted = false
advances WriteStatus.dead WriteStatus.fanouted = false

-- The same command, in a status that may follow.
pub record Follows (w w' : MessageWrite) : Type 0 where
  pub id : w'.id ≡ w.id
  pub request_id : w'.request_id ≡ w.request_id
  pub sender_id : w'.sender_id ≡ w.sender_id
  pub room_id : w'.room_id ≡ w.room_id
  pub content : w'.content ≡ w.content
  pub accepted_at : w'.accepted_at ≡ w.accepted_at
  pub status : advances w.status w'.status ≡ true

advances_self : (s : WriteStatus) → advances s s ≡ true
advances_self WriteStatus.pending = refl
advances_self WriteStatus.persisted = refl
advances_self WriteStatus.fanouted = refl
advances_self WriteStatus.dead = refl

advances_trans :
    (s t u : WriteStatus) → advances s t ≡ true → advances t u ≡ true → advances s u ≡ true
advances_trans s t u h k = ground arith

-- No row is lost or changed in what it says; new rows come behind.
abbrev pub Evolves : List MessageWrite → List MessageWrite → Type 0
Evolves [] ws' = Unit
Evolves (w ∷ ws) [] = ⊥
Evolves (w ∷ ws) (w' ∷ ws') = Follows w w' × Evolves ws ws'

Follows-self : (w : MessageWrite) → Follows w w
Follows-self w = ground (arith, advances_self w.status)

pub Evolves-self : (ws : List MessageWrite) → Evolves ws ws
Evolves-self [] = tt
Evolves-self (w ∷ ws) = (Follows-self w, Evolves-self ws)

pub Evolves-append : (ws us : List MessageWrite) → Evolves ws (ws ++ us)
Evolves-append [] us = tt
Evolves-append (w ∷ ws) us = (Follows-self w, Evolves-append ws us)

Follows-trans : (u v w : MessageWrite) → Follows u v → Follows v w → Follows u w
Follows-trans u v w h k = ground (arith, advances_trans u.status v.status w.status)

pub Evolves-trans : (us vs ws : List MessageWrite) → Evolves us vs → Evolves vs ws → Evolves us ws
Evolves-trans [] vs ws h k = tt
Evolves-trans (u ∷ us) [] ws h k = absurd h
Evolves-trans (u ∷ us) (v ∷ vs) [] h k = absurd k
Evolves-trans (u ∷ us) (v ∷ vs) (w ∷ ws) h k =
    (Follows-trans u v w h.0 k.0, Evolves-trans us vs ws h.1 k.1)

-- An update of each row.
module _ (f : MessageWrite → MessageWrite) (follows : (w : MessageWrite) → Follows w (f w)) where
  pub Evolves-map : (ws : List MessageWrite) → Evolves ws (map f ws)
  Evolves-map [] = tt
  Evolves-map (w ∷ ws) = (follows w, Evolves-map ws)

  f-Apart : (v w : MessageWrite) → Apart v w → Apart (f v) (f w)
  f-Apart v w a = ground (arith, follows v, follows w)

  pub map-Apart : (ws : List MessageWrite) → AllPairs Apart ws → AllPairs Apart (map f ws)
  map-Apart ws h = AllPairs-map f Apart ws (AllPairs-imp ws f-Apart h)

  pub map-Housed :
      (rooms : List Room) (ws : List MessageWrite)
      → All (Housed rooms) ws
      → All (Housed rooms) (map f ws)
  map-Housed rooms ws h =
      All-map f (Housed rooms) ws
        (All_imp ws (λ w (k : Housed rooms w). ground (arith, follows w, k)) h)

pub mark_persisted-Follows :
    (all : List Message) (w : MessageWrite) → Follows w (mark_persisted all w)
unfolding mark_persisted is_final
mark_persisted-Follows all w = ground (arith, advances_self w.status)

pub mark_dead-Follows :
    (now : ℕ) (reason id : String) (w : MessageWrite)
    → Follows w (mark_message_write_dead now reason id w)
unfolding mark_message_write_dead is_pending
mark_dead-Follows now reason id w = ground (arith, advances_self w.status)

pub mark_fanouted-Follows : (id : String) (w : MessageWrite) → Follows w (mark_fanouted id w)
unfolding mark_fanouted is_persisted
mark_fanouted-Follows id w = ground (arith, advances_self w.status)

module _ (users : List User) (rooms : List Room) where
  insert_write_cases :
      (i : InputRow) (ws ws' : List MessageWrite)
      → insert_write users rooms i ws ≡ ok ws'
      → (ws ≡ ws') ⊎ (ws ++ new_write i ∷ [] ≡ ws')
  unfolding insert_write
  insert_write_cases i ws ws' h = ground arith

  insert_write-Evolves :
      (i : InputRow) (ws ws' : List MessageWrite)
      → insert_write users rooms i ws ≡ ok ws'
      → Evolves ws ws'
  insert_write-Evolves i ws ws' h = elim (insert_write_cases i ws ws' h) [
    | inl same ↦ subst (Evolves ws) same (Evolves-self ws)
    | inr more ↦ subst (Evolves ws) more (Evolves-append ws (new_write i ∷ []))
  ]

  pub insert_writes-Evolves :
      (is : List InputRow) (ws ws' : List MessageWrite)
      → insert_writes users rooms is ws ≡ ok ws'
      → Evolves ws ws'
  unfolding insert_writes
  insert_writes-Evolves [] ws ws' h = subst (Evolves ws) (ok_inj h) (Evolves-self ws)
  insert_writes-Evolves (i ∷ is) ws ws' h =
      let (us, e, f) = >>=-eq-ok (insert_write users rooms i ws) _ h in
      Evolves-trans ws us ws' (insert_write-Evolves i ws us e) (insert_writes-Evolves is us ws' f)
