-- ===== src/Chats/Pages.antt =====
-- The messages of a chat, a page at a time: `getMessages`, with the rows that it finds.
pub mod Laws
pub mod Merged
pub mod Whole
use mathlib.Core.List.{map}
use backend_sketch.Prelude.{
  ℕ, min, Bool, true, false, String, Option, none, some, List, [], ◌∷◌, any, keep, find, take, ltb,
  ◌==◌, string_eq, nat_eq, if◌then◌else◌, ◌&&◌,
}
use backend_sketch.Prelude.Sort.{sort_desc}
use backend_sketch.Prelude.JsMap.{JsMap}
use backend_sketch.Prelude.JsMap
use backend_sketch.Prelude.Result.{Result, ok, err}
use backend_sketch.Api.{MessageDto, AppError, DeliveryStatus, sent, text, to_message_dto}
use backend_sketch.Db.{Db, Message, MessageWrite, is_member}
use backend_sketch.MessageWrites.Dead.{is_pending}
use backend_sketch.Chats.Send.{not_a_member}

-- `toPendingMessageDto`, of a row.
unfoldable pub pending_dto : MessageWrite → MessageDto
pending_dto w = record {
  id = w.id;
  chat_id = w.room_id;
  sender_id = w.sender_id;
  type = text;
  body = w.content;
  created_at = w.accepted_at;
  delivery_status = some sent;
}

-- `limit` is the query's number, none for what is not one. A negative number is left out.
pub record PageInput : Type 0 where
  pub user_id : String
  pub chat_id : String
  pub before_message_id : Option String
  pub limit : Option ℕ

-- `Math.min(Number(limit ?? '50') || 50, 100)`
unfoldable pub page_size : Option ℕ → ℕ
page_size none = 50
page_size (some n) = if n == 0 then 50 else min n 100

-- `findMessageCursor`, and `findWriteCursor` where that finds none.
unfoldable pub find_cursor : String → Db → Option ℕ
find_cursor id db = elim (find (λ m. m.id == id) db.messages) [
  | some m ↦ some m.created_at
  | none ↦ elim (find (λ w. w.id == id) db.writes) [ none ↦ none | some w ↦ some w.accepted_at ]
]

unfoldable pub cursor_of : Option String → Db → Option ℕ
unfolding find_cursor
cursor_of none db = none
cursor_of (some id) db = if id == "" then none else find_cursor id db

-- `{ lt: before }`, where there is a cursor.
unfoldable pub is_before : Option ℕ → ℕ → Bool
is_before none t = true
is_before (some c) t = ltb t c

abbrev pub created_at : Message → ℕ
created_at m = m.created_at

abbrev pub accepted_at : MessageWrite → ℕ
accepted_at w = w.accepted_at

abbrev pub sent_at : MessageDto → ℕ
sent_at m = m.created_at

unfoldable pub find_messages : String → Option ℕ → ℕ → List Message → List Message
unfolding is_before
find_messages room before limit ms =
    take limit
      (sort_desc created_at (keep (λ m. (m.room_id == room) && is_before before m.created_at) ms))

unfoldable pub find_pending_message_writes :
    String → Option ℕ → ℕ → List MessageWrite → List MessageWrite
unfolding is_before
find_pending_message_writes room before limit ws = take limit (
    sort_desc accepted_at (
      keep (λ w. (w.room_id == room) && (is_pending w.status && is_before before w.accepted_at))
        ws))

-- The two loops that fill `merged`.
unfoldable pub add_messages : List Message → JsMap String MessageDto → JsMap String MessageDto
add_messages [] merged = merged
add_messages (m ∷ ms) merged = add_messages ms (JsMap.set m.id (to_message_dto m) merged)

unfoldable pub add_pending : List MessageWrite → JsMap String MessageDto → JsMap String MessageDto
unfolding pending_dto
add_pending [] merged = merged
add_pending (w ∷ ws) merged = add_pending ws (elim (JsMap.get w.id merged) [
  | none ↦ JsMap.set w.id (pending_dto w) merged
  | some _ ↦ merged
])

unfoldable pub page : String → Option ℕ → ℕ → Db → List MessageDto
unfolding add_messages add_pending find_messages find_pending_message_writes
page room before size db = take size (
    sort_desc sent_at (
      map (λ e. e.1)
        (add_pending (find_pending_message_writes room before size db.writes)
          (add_messages (find_messages room before size db.messages) []))))

unfoldable pub get_messages : PageInput → Db → Result AppError (List MessageDto)
unfolding page page_size cursor_of
get_messages input db =
    if is_member input.user_id input.chat_id db.members
    then ok (page input.chat_id (cursor_of input.before_message_id db) (page_size input.limit) db)
    else err not_a_member
