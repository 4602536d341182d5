-- ===== src/Chats/Listing/Laws.antt =====
-- What a user sees of the chats.
use mathlib.Core.List.{map}
use backend_sketch.Prelude.{
  ℕ, ◌≡◌, ◌≤◌, refl, sym, ap, subst, ◌∙◌, Bool, true, false, String, Option, none, some, List, [],
  ◌∷◌, All, All_imp, All-map, All-keep_self, All_of_keep, All_zip, All_any_self, test_self,
  test_of_eq, AllPairs, any, keep, leb, ltb, arith, Bool-cases, Option-cases, inl, inr, ◌==◌,
  string_eq, ◌&&◌, ◌⊎◌,
}
use backend_sketch.Prelude.Sort.{
  sort_desc, Descends, sort_desc-All, sort_desc-Descends, All_of_sort_desc,
}
use backend_sketch.Prelude.JsMap.{JsMap, get-set}
use backend_sketch.Prelude.JsMap
use backend_sketch.Api.{MessageDto, to_message_dto}
use backend_sketch.Db.{Db, Room, Message, MessageWrite, is_member}
use backend_sketch.MessageWrites.Dead.{is_pending}
use backend_sketch.Chats.Rooms.{Chat, newest}
use backend_sketch.Chats.Pages.{accepted_at, pending_dto}
use backend_sketch.Chats.Listing.{
  rooms_of, to_chat_dto, pending_writes_for_rooms, pending_by_room, newest_message, chat_time,
  with_pending, attach_pending_latest_messages, list_chats, last_message_at,
}

-- There is a message, and it is no older than the time.
abbrev Reaches : Option Message → ℕ → Type 0
Reaches o t = (m : Message) × (o ≡ some m) × (t ≤ m.created_at)

abbrev pub Shows : Option MessageDto → ℕ → Type 0
Shows o t = (m : MessageDto) × (o ≡ some m) × (t ≤ m.created_at)

newest_keeps :
    (b : Message) (ms : List Message) (t : ℕ) → t ≤ b.created_at → Reaches (newest (some b) ms) t
unfolding newest
newest_keeps b [] t h = (b, refl, h)
newest_keeps b (m ∷ ms) t h = elim (Bool-cases (ltb b.created_at m.created_at)) [
  | inl newer ↦ rw (newer, newest) (newest_keeps m ms t (ground arith))
  | inr older ↦ rw (older, newest) (newest_keeps b ms t h)
]

newest_newer :
    (b m : Message) (ms : List Message)
    → ltb b.created_at m.created_at ≡ true
    → newest (some m) ms ≡ newest (some b) (m ∷ ms)
unfolding newest
newest_newer b m ms e = rw (e, newest) refl

newest_older :
    (b m : Message) (ms : List Message)
    → ltb b.created_at m.created_at ≡ false
    → newest (some b) ms ≡ newest (some b) (m ∷ ms)
unfolding newest
newest_older b m ms e = rw (e, newest) refl

newest-Reaches :
    (best : Option Message) (ms : List Message)
    → All (λ m. Reaches (newest best ms) m.created_at) ms
unfolding newest
newest-Reaches best [] = tt
newest-Reaches none (m ∷ ms) =
    (newest_keeps m ms m.created_at (omega arith), newest-Reaches (some m) ms)
newest-Reaches (some b) (m ∷ ms) = elim (Bool-cases (ltb b.created_at m.created_at)) [
  | inl newer ↦
      subst (λ o. All (λ x. Reaches o x.created_at) (m ∷ ms)) (newest_newer b m ms newer)
        (newest_keeps m ms m.created_at (omega arith), newest-Reaches (some m) ms)
  | inr older ↦
      subst (λ o. All (λ x. Reaches o x.created_at) (m ∷ ms)) (newest_older b m ms older)
        (newest_keeps b ms m.created_at (ground arith), newest-Reaches (some b) ms)
]

-- The loop over the pending writes keeps what it has.
pending_keeps :
    (ws : List MessageWrite) (m : JsMap String MessageDto) (r : String) (d : MessageDto)
    → JsMap.get r m ≡ some d
    → JsMap.get r (pending_by_room ws m) ≡ some d
unfolding pending_by_room
pending_keeps [] m r d h = h
pending_keeps (w ∷ ws) m r d h = elim (Option-cases (JsMap.get w.room_id m)) [
  | inr (x, e) ↦ rw (e, pending_by_room) (pending_keeps ws m r d h)
  | inl e ↦
      rw (e, pending_by_room)
        (pending_keeps ws (JsMap.set w.room_id (pending_dto w) m) r d
          (ground (arith, get-set w.room_id r (pending_dto w) m)))
]

-- What it has for the room is no older than the writes to come.
abbrev Ahead : String → JsMap String MessageDto → List MessageWrite → Type 0
Ahead r m ws =
    (d : MessageDto) → JsMap.get r m ≡ some d → All (λ w. w.accepted_at ≤ d.created_at) ws

pending_known :
    (w : MessageWrite) (ws : List MessageWrite) (m : JsMap String MessageDto) (d : MessageDto)
    → JsMap.get w.room_id m ≡ some d
    → pending_by_room ws m ≡ pending_by_room (w ∷ ws) m
unfolding pending_by_room
pending_known w ws m d e = rw (e, pending_by_room) refl

pending_new :
    (w : MessageWrite) (ws : List MessageWrite) (m : JsMap String MessageDto)
    → JsMap.get w.room_id m ≡ none
    → pending_by_room ws (JsMap.set w.room_id (pending_dto w) m) ≡ pending_by_room (w ∷ ws) m
unfolding pending_by_room
pending_new w ws m e = rw (e, pending_by_room) refl

abbrev ShowsAll : String → JsMap String MessageDto → List MessageWrite → Type 0
ShowsAll r m ws = All (λ w. w.room_id ≡ r → Shows (JsMap.get r m) w.accepted_at) ws

pending_shows :
    (r : String) (ws : List MessageWrite) (m : JsMap String MessageDto)
    → AllPairs (Descends accepted_at) ws
    → Ahead r m ws
    → ShowsAll r (pending_by_room ws m) ws
unfolding pending_dto
pending_shows r [] m s a = tt
pending_shows r (w ∷ ws) m s a = elim (Option-cases (JsMap.get w.room_id m)) [
  | inr (x, e) ↦
      subst (λ p. ShowsAll r p (w ∷ ws)) (pending_known w ws m x e)
        (
          (λ same.
              let g : JsMap.get r m ≡ some x = ap (λ k. JsMap.get k m) (sym same) ∙ e in
              (x, pending_keeps ws m r x g, (a x g).0)),
          pending_shows r ws m s.1 (λ d g. (a d g).1),
        )
  | inl e ↦
      let m' = JsMap.set w.room_id (pending_dto w) m in
      subst (λ p. ShowsAll r p (w ∷ ws)) (pending_new w ws m e)
        (
          (λ same. (
            pending_dto w,
            pending_keeps ws m' r (pending_dto w)
                (ground (arith, get-set w.room_id r (pending_dto w) m)),
            omega arith,
          )),
          pending_shows r ws m' s.1 (λ d g. elim (Bool-cases (w.room_id == r)) [
            | inl same ↦
                All_imp {P = Descends accepted_at w} {Q = λ v. v.accepted_at ≤ d.created_at} ws
                  (λ v le. ground (arith, get-set w.room_id r (pending_dto w) m, g)) s.0
            | inr other ↦ (a d (ground (arith, get-set w.room_id r (pending_dto w) m, g))).1
          ]),
        )
]

-- Either message is no newer than the one that is shown.
newest_message_shows :
    (l r : Option MessageDto) (t : ℕ) → Shows l t ⊎ Shows r t → Shows (newest_message l r) t
unfolding newest_message
newest_message_shows none r t (inl (m, e, h)) = absurd (cc e)
newest_message_shows none r t (inr s) = s
newest_message_shows (some l) none t (inl s) = s
newest_message_shows (some l) none t (inr (m, e, h)) = absurd (cc e)
newest_message_shows (some l) (some r) t s = elim (Bool-cases (leb r.created_at l.created_at)) [
  | inl later ↦ rw (later, newest_message) (l, refl, ground (arith, s))
  | inr earlier ↦ rw (earlier, newest_message) (r, refl, ground (arith, s))
]

nothing-Ahead : (r : String) (ws : List MessageWrite) → Ahead r [] ws
unfolding JsMap.get
nothing-Ahead r ws d g = absurd (cc g)

not_listed :
    (ids : List String) (w : MessageWrite) (r : String)
    → any (λ i. i == r) ids ≡ true
    → (any (λ i. i == w.room_id) ids && is_pending w.status) ≡ false
    → w.room_id ≡ r
    → is_pending w.status ≡ true
    → ⊥
not_listed ids w r listed f same pending =
    let l = subst (λ k. any (λ i. i == k) ids ≡ true) (sym same) listed in ground (arith, l)

any-map_of {ℓ κ} :
    {A : Type ℓ} {B : Type κ} (f : A → B) (p : B → Bool) (xs : List A)
    → any p (map f xs) ≡ any (λ x. p (f x)) xs
any-map_of f p [] = refl
any-map_of f p (x ∷ xs) = rw (any-map_of f p xs) refl

-- The pending message of a room is no older than any pending write to it.
module _ (db : Db) (ids : List String) where
  abbrev latest : JsMap String MessageDto
  latest = pending_by_room (pending_writes_for_rooms ids db.writes) []

  latest_shows :
      (r : String)
      → any (λ i. i == r) ids ≡ true
      → All
          (λ w.
            w.room_id ≡ r → is_pending w.status ≡ true → Shows (JsMap.get r latest) w.accepted_at)
          db.writes
  unfolding pending_writes_for_rooms
  latest_shows r listed =
      let q : MessageWrite → Bool = λ w. any (λ i. i == w.room_id) ids && is_pending w.status in
      let found = keep q db.writes in
      All_of_keep
        (λ w. w.room_id ≡ r → is_pending w.status ≡ true → Shows (JsMap.get r latest) w.accepted_at)
        q db.writes (λ w f same pending. absurd (not_listed ids w r listed f same pending))
        (All_imp {P = λ w. w.room_id ≡ r → Shows (JsMap.get r latest) w.accepted_at}
          {Q = λ w.
            w.room_id ≡ r → is_pending w.status ≡ true → Shows (JsMap.get r latest) w.accepted_at}
          found (λ w h same pending. h same)
          (All_of_sort_desc accepted_at _ found (
            pending_shows r (sort_desc accepted_at found) [] (sort_desc-Descends accepted_at found)
              (nothing-Ahead r (sort_desc accepted_at found)))))

-- What a chat shows: its last message is no older than any message or pending write of its room.
pub record IsCurrent (user : String) (db : Db) (c : Chat) : Type 0 where
  pub readable : is_member user c.id db.members ≡ true
  pub messages : All (λ m. m.room_id ≡ c.id → Shows c.last_message m.created_at) db.messages
  pub pending :
      All
        (λ w. w.room_id ≡ c.id → is_pending w.status ≡ true → Shows c.last_message w.accepted_at)
        db.writes

last_shows :
    (o : Option Message) (t : ℕ)
    → Reaches o t
    → Shows (elim o [ none ↦ none | some m ↦ some (to_message_dto m) ]) t
unfolding to_message_dto
last_shows none t (m, e, h) = absurd (cc e)
last_shows (some n) t (m, e, h) = (to_message_dto n, refl, ground arith)

module _ (user : String) (db : Db) where
  -- A room that is listed becomes a chat that is current.
  chat_of : List String → Room → Chat
  chat_of ids r = with_pending (latest db ids) (to_chat_dto db user r)

  chat_of-IsCurrent :
      (ids : List String) (r : Room)
      → is_member user r.id db.members ≡ true
      → any (λ i. i == r.id) ids ≡ true
      → IsCurrent user db (chat_of ids r)
  unfolding chat_of with_pending to_chat_dto
  chat_of-IsCurrent ids r member listed = record {
    readable = member;
    messages =
        All_of_keep (λ m. m.room_id ≡ r.id → Shows (chat_of ids r).last_message m.created_at)
          (λ m. m.room_id == r.id) db.messages
          (λ m f same. absurd (cc (sym f ∙ test_of_eq m.room_id r.id same)))
          (All_imp
            {P = λ m.
              Reaches (newest none (keep (λ m. m.room_id == r.id) db.messages)) m.created_at}
            (keep (λ m. m.room_id == r.id) db.messages)
            (λ m h same.
              newest_message_shows _ (JsMap.get r.id (latest db ids)) m.created_at
                (inl (last_shows _ m.created_at h)))
            (newest-Reaches none (keep (λ m. m.room_id == r.id) db.messages)));
    pending =
        All_imp
          {P = λ w.
            w.room_id ≡ r.id
            → is_pending w.status ≡ true
            → Shows (JsMap.get r.id (latest db ids)) w.accepted_at}
          db.writes
          (λ w h same pending.
            newest_message_shows _ (JsMap.get r.id (latest db ids)) w.accepted_at
              (inr (h same pending)))
          (latest_shows db ids r.id listed);
  }

  abbrev ids_of : List Room → List String
  ids_of rs = map (λ c. c.id) (map (to_chat_dto db user) rs)

  listed_all : (rs : List Room) → All (λ r. any (λ i. i == r.id) (ids_of rs) ≡ true) rs
  unfolding to_chat_dto
  listed_all rs =
      All_imp {P = λ r. any (λ q. q.id == r.id) rs ≡ true} rs
        (λ r h.
          any-map_of (λ c. c.id) (λ i. i == r.id) (map (to_chat_dto db user) rs)
          ∙ any-map_of (to_chat_dto db user) (λ c. c.id == r.id) rs
          ∙ h)
        (All_any_self (λ q r. q.id == r.id) rs [] (λ r. test_self r.id))

  rooms_of-All : All (λ r. is_member user r.id db.members ≡ true) (rooms_of user db)
  unfolding rooms_of
  rooms_of-All =
      sort_desc-All last_message_at _ _
        (All-keep_self (λ r. is_member user r.id db.members) db.rooms)

  -- A user's list has only chats of which they are a member; each shows a last message no older than
  -- any message, written or pending, of its room; and the chats with the newest come first.
  pub list_chats-IsCurrent :
      All (IsCurrent user db) (list_chats user db)
      × AllPairs (Descends chat_time) (list_chats user db)
  unfolding list_chats attach_pending_latest_messages chat_of
  list_chats-IsCurrent =
      let rs = rooms_of user db in
      (
        sort_desc-All chat_time (IsCurrent user db) _ (
            All-map _ (IsCurrent user db) (map (to_chat_dto db user) rs) (
              All-map _ (λ c. IsCurrent user db (with_pending (latest db (ids_of rs)) c)) rs
                (All_imp
                  {P = λ r.
                    (is_member user r.id db.members ≡ true)
                    × (any (λ i. i == r.id) (ids_of rs) ≡ true)}
                  rs (λ r h. chat_of-IsCurrent (ids_of rs) r h.0 h.1)
                  (All_zip _ _ rs rooms_of-All (listed_all rs))))),
        sort_desc-Descends chat_time _,
      )
