-- ===== src/Chats/Pages/Merged.antt =====
-- The map in which a page merges the messages and the waiting writes that are found.
use mathlib.Core.List.{map}
use backend_sketch.Prelude.{
  ℕ, ◌≡◌, ◌≢◌, refl, subst, true, String, Option, none, List, [], ◌∷◌, All, All_imp, All-keep_self,
  AllPairs, arith, Bool-cases, Option-cases, inl, inr, ◌==◌, string_eq, ◌&&◌,
}
use backend_sketch.Prelude.Sort.{sort_desc-All, take-All}
use backend_sketch.Prelude.JsMap.{JsMap, Distinct, set-Distinct, get-set}
use backend_sketch.Prelude.JsMap
use backend_sketch.Api.{MessageDto, to_message_dto}
use backend_sketch.Db.{Db, Message, MessageWrite}
use backend_sketch.MessageWrites.Dead.{is_pending}
use backend_sketch.Chats.Pages.{
  pending_dto, is_before, find_messages, find_pending_message_writes, add_messages, add_pending,
  created_at, accepted_at,
}

-- An entry under its own id, of the room and before the cursor.
abbrev pub Fits : String → Option ℕ → String × MessageDto → Type 0
Fits room before e =
    (e.0 ≡ e.1.id) × (e.1.chat_id ≡ room) × (is_before before e.1.created_at ≡ true)

set-All :
    (P : String × MessageDto → Type 0) (k : String) (v : MessageDto) (m : JsMap String MessageDto)
    → ((j : String) → j ≡ k → P (j, v))
    → All P m
    → All P (JsMap.set k v m)
unfolding JsMap.set
set-All P k v [] p h = (p k refl, tt)
set-All P k v ((j, w) ∷ m) p h = elim (Bool-cases (j == k)) [
  | inl same ↦ rw (same, JsMap.set) (p j (ground arith), h.1)
  | inr other ↦ rw (other, JsMap.set) (h.0, set-All P k v m p h.1)
]

module _ (room : String) (before : Option ℕ) where
  unfoldable pub Good : JsMap String MessageDto → Type 0
  Good m = Distinct m × All (Fits room before) m

  pub add_messages-Good :
      (ms : List Message) (m : JsMap String MessageDto)
      → All (λ x. ((x.room_id == room) && is_before before x.created_at) ≡ true) ms
      → Good m
      → Good (add_messages ms m)
  unfolding Good add_messages to_message_dto
  add_messages-Good [] m h g = g
  add_messages-Good (x ∷ ms) m h g =
      add_messages-Good ms (JsMap.set x.id (to_message_dto x) m) h.1 (
        set-Distinct x.id (to_message_dto x) m g.0,
        set-All (Fits room before) x.id (to_message_dto x) m
            (λ j e. (e, ground arith, ground arith)) g.1,
      )

  pub add_pending-Good :
      (ws : List MessageWrite) (m : JsMap String MessageDto)
      → All
          (λ w.
            ((w.room_id == room) && (is_pending w.status && is_before before w.accepted_at)) ≡ true)
          ws
      → Good m
      → Good (add_pending ws m)
  unfolding Good add_pending pending_dto
  add_pending-Good [] m h g = g
  add_pending-Good (w ∷ ws) m h g = elim (Option-cases (JsMap.get w.id m)) [
    | inr (v, e) ↦ rw (e, add_pending) (add_pending-Good ws m h.1 g)
    | inl e ↦
        rw (e, add_pending)
          (add_pending-Good ws (JsMap.set w.id (pending_dto w) m) h.1 (
            set-Distinct w.id (pending_dto w) m g.0,
            set-All (Fits room before) w.id (pending_dto w) m
                (λ j e. (e, ground arith, ground arith)) g.1,
          ))
  ]

-- In a map without repeated keys whose entries stand under their ids, the ids differ.
get_none-apart :
    (k : String) (m : JsMap String MessageDto)
    → JsMap.get k m ≡ none
    → All (λ e. e.0 ≡ e.1.id) m
    → All (λ x. ◌≢◌ k x.id) (map (λ e. e.1) m)
unfolding JsMap.get
get_none-apart k [] g h = tt
get_none-apart k ((j, d) ∷ m) g h = ground (arith, get_none-apart k m)

pub values-apart :
    (m : JsMap String MessageDto)
    → Distinct m
    → All (λ e. e.0 ≡ e.1.id) m
    → AllPairs (λ x y. ◌≢◌ x.id y.id) (map (λ e. e.1) m)
values-apart [] d h = tt
values-apart ((j, c) ∷ m) d h = (
  subst (λ k. All (λ x. ◌≢◌ k x.id) (map (λ e. e.1) m)) {x = j} h.0 (get_none-apart j m d.0 h.1),
  values-apart m d.1 h.1,
)

-- What the rows that are found satisfy.
pub find_messages-All :
    (room : String) (before : Option ℕ) (n : ℕ) (ms : List Message)
    → All
        (λ x. ((x.room_id == room) && is_before before x.created_at) ≡ true)
        (find_messages room before n ms)
unfolding find_messages
find_messages-All room before n ms = take-All _ n _ (
    sort_desc-All created_at _ _
      (All-keep_self (λ x. (x.room_id == room) && is_before before x.created_at) ms))

pub find_pending-All :
    (room : String) (before : Option ℕ) (n : ℕ) (ws : List MessageWrite)
    → All
        (λ w.
          ((w.room_id == room) && (is_pending w.status && is_before before w.accepted_at)) ≡ true)
        (find_pending_message_writes room before n ws)
unfolding find_pending_message_writes
find_pending-All room before n ws = take-All _ n _ (
    sort_desc-All accepted_at _ _ (
      All-keep_self
        (λ w. (w.room_id == room) && (is_pending w.status && is_before before w.accepted_at)) ws))

pub merged-owned :
    (room : String) (before : Option ℕ) (size : ℕ) (db : Db)
    → All
        (λ e. e.0 ≡ e.1.id)
        (add_pending
          (find_pending_message_writes room before size db.writes)
          (add_messages (find_messages room before size db.messages) []))
unfolding Good
merged-owned room before size db =
    let ms = find_messages room before size db.messages in
    let ws = find_pending_message_writes room before size db.writes in
    let good : Good room before (add_pending ws (add_messages ms [])) =
      add_pending-Good room before ws (add_messages ms [])
        (find_pending-All room before size db.writes)
        (add_messages-Good room before ms [] (find_messages-All room before size db.messages)
          (tt, tt)) in
    All_imp {P = Fits room before} {Q = λ e. e.0 ≡ e.1.id} (add_pending ws (add_messages ms []))
      (λ e f. f.0) good.1
