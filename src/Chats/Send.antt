-- ===== src/Chats/Send.antt =====
-- Sending a message through the chat service: `createMessage`, and the rows that it writes.
pub mod Tables
pub mod Again
use Prim.Native.String
use Prim.Native.Char.{Char, code}
use mathlib.Core.List.{map}
use backend_sketch.Prelude.{
  ℕ, max, Bool, true, false, not, String, Option, none, some, List, [], ◌∷◌, ◌++◌, any, find, ◌==◌,
  string_eq, nat_eq, if◌then◌else◌, ◌&&◌, ◌||◌, ◌+◌, leb,
}
use backend_sketch.Prelude.Result.{Result, ok, err}
use backend_sketch.Api.{MessageDto, AppError, validation_failed, forbidden, to_message_dto}
use backend_sketch.Db.{Db, Room, Message, find_room, has_user, is_member}
use backend_sketch.RoomEvents.{truthy}
use backend_sketch.MessageWrites.Persist.{clashes, has_request}

-- The white space and line ends that `trim` removes.
unfoldable pub is_space : Char → Bool
is_space c =
    let n = code c in
    (leb 9 n && leb n 13)
    || ((n == 32)
        || ((n == 160)
            || ((n == 5760)
                || ((leb 8192 n && leb n 8202)
                    || ((n == 8232)
                        || ((n == 8233)
                            || ((n == 8239)
                                || ((n == 8287) || ((n == 12288) || (n == 65279))))))))))

unfoldable pub trim_start : String → String
trim_start String.[] = ""
trim_start (String.◌∷◌ c s) = let rest = trim_start s in if is_space c then rest else String.◌∷◌ c s

unfoldable pub trim_end : String → String
trim_end String.[] = ""
trim_end (String.◌∷◌ c s) =
    let rest = trim_end s in if is_space c && (rest == "") then "" else String.◌∷◌ c rest

unfoldable pub trim : String → String
unfolding trim_start trim_end
trim s = trim_end (trim_start s)

-- `!body || … || !body.trim()` of a text.
unfoldable pub is_blank : String → Bool
unfolding trim
is_blank body = (body == "") || (trim body == "")

pub record CreateMessageInput : Type 0 where
  pub sender_id : String
  pub chat_id : String
  pub body : String
  pub request_id : Option String

abbrev pub body_is_required : AppError
body_is_required = record {
  status_code = 400;
  code = validation_failed;
  message = "body is required";
}

abbrev pub not_a_member : AppError
not_a_member = record { status_code = 403; code = forbidden; message = "Not a member of this chat" }

-- What `createMessageRow` throws: its own error, or the database's.
pub data RowError : Type 0 where
  room_not_found unique_request_id missing_user : RowError

-- The room's counter, incremented.
unfoldable pub increment : String → List Room → List Room
increment room =
    map {A = Room}
      λ r. if r.id == room then record r { next_message_seq = r.next_message_seq + 1 } else r

-- The transaction of `createMessageRow`; `id` and `now` are the defaults of the row.
unfoldable pub create_message_row :
    String → ℕ → CreateMessageInput → String → Db → Result RowError (Db × Message)
unfolding increment truthy
create_message_row id now input content db = elim (find_room input.chat_id db.rooms) [
  | none ↦ err room_not_found
  | some r ↦
      let m : Message = record {
        id = id;
        content = content;
        created_at = now;
        request_id = truthy input.request_id;
        room_sequence = r.next_message_seq;
        sender_id = input.sender_id;
        room_id = input.chat_id;
      } in
      if any (clashes m) db.messages
      then err unique_request_id
      else if has_user input.sender_id db.users
      then ok (
        record db { rooms = increment input.chat_id db.rooms; messages = db.messages ++ m ∷ [] },
        m,
      )
      else err missing_user
]

-- `findMessageByRequestId`
unfoldable pub find_message_by_request_id : String → String → List Message → Option Message
find_message_by_request_id sender request =
    find (λ m. (m.sender_id == sender) && has_request m request)

-- `updateLastMessageAt`
unfoldable pub update_last_message_at : String → ℕ → List Room → List Room
update_last_message_at room t =
    map {A = Room}
      λ r. if r.id == room then record r { last_message_at = max r.last_message_at t } else r

-- What the service throws.
pub data SendError : Type 0 where
  app_error : AppError → SendError
  row_error : RowError → SendError
  no_such_message : SendError

-- What `createMessage` leaves: the tables, the message that goes to the cache under the request, and
-- whether the room is told of it.
pub record Sent : Type 0 where
  pub db : Db
  pub message : MessageDto
  pub cached : Bool
  pub published : Bool

unfoldable pub recover_duplicate : CreateMessageInput → RowError → Db → Result SendError Sent
unfolding find_message_by_request_id
recover_duplicate input unique_request_id db = elim (truthy input.request_id) [
  | none ↦ err (row_error unique_request_id)
  | some request ↦ elim (find_message_by_request_id input.sender_id request db.messages) [
    | none ↦ err no_such_message
    | some m ↦ ok (record { db = db; message = to_message_dto m; cached = true; published = false })
  ]
]
recover_duplicate input e db = err (row_error e)

-- `cached` is what `getCachedMessage` answers for the sender and request: none without a cache or
-- a request, and when the cache fails.
unfoldable pub create_message :
    Option MessageDto → String → ℕ → CreateMessageInput → Db → Result SendError Sent
unfolding is_blank recover_duplicate update_last_message_at create_message_row
create_message cached id now input db =
    if is_blank input.body
    then err (app_error body_is_required)
    else if is_member input.sender_id input.chat_id db.members
    then elim cached [
      | some dto ↦ ok (record { db = db; message = dto; cached = false; published = false })
      | none ↦ elim (create_message_row id now input (trim input.body) db) [
        | err e ↦ recover_duplicate input e db
        | ok (db', m) ↦ ok (record {
          db = record db' { rooms = update_last_message_at input.chat_id m.created_at db'.rooms };
          message = to_message_dto m;
          cached = true;
          published = true;
        })
      ]
    ]
    else err (app_error not_a_member)
