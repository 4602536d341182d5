-- ===== src/Chats/Listing.antt =====
-- The chats of a user: `listChats`, `getChat`, `getChatMembers` and `sendTyping`.
pub mod Laws
use mathlib.Core.List.{map}
use backend_sketch.Prelude.{
  ℕ, Bool, true, false, not, String, Option, none, some, List, [], ◌∷◌, any, keep, find, leb, ◌==◌,
  string_eq, if◌then◌else◌, ◌&&◌,
}
use backend_sketch.Prelude.Sort.{sort_desc}
use backend_sketch.Prelude.JsMap.{JsMap}
use backend_sketch.Prelude.JsMap
use backend_sketch.Prelude.Result.{Result, ok, err}
use backend_sketch.Api.{MessageDto, AppError, not_found, UserDto, to_user_dto, to_message_dto}
use backend_sketch.Db.{Db, User, Room, RoomMember, MessageWrite, find_room, is_member}
use backend_sketch.MessageWrites.Dead.{is_pending}
use backend_sketch.Chats.Send.{not_a_member}
use backend_sketch.Chats.Rooms.{Chat, ChatType, direct, group, members_of, newest}
use backend_sketch.Chats.Pages.{accepted_at, pending_dto}

-- `member.user` of a row: the foreign key gives a user to each.
unfoldable pub user_of : RoomMember → List User → Option User
user_of m = find (λ u. u.id == m.user_id)

unfoldable pub chat_name : Room → String → List RoomMember → List User → String
unfolding user_of
chat_name r current members users =
    if r.is_group
    then elim r.name [ none ↦ "Group Chat" | some n ↦ n ]
    else elim (find (λ m. not (m.user_id == current)) members) [
      | none ↦ "Unknown"
      | some m ↦ elim (user_of m users) [ none ↦ "Unknown" | some u ↦ u.display_name ]
    ]

-- `toChatDto`, of a room with its members and its newest message.
unfoldable pub to_chat_dto : Db → String → Room → Chat
unfolding chat_name members_of newest
to_chat_dto db current r = record {
  id = r.id;
  type = if r.is_group then group else direct;
  name = chat_name r current (members_of r.id db.members) db.users;
  member_ids = map (λ m. m.user_id) (members_of r.id db.members);
  last_message = elim (newest none (keep (λ m. m.room_id == r.id) db.messages)) [
    | none ↦ none
    | some m ↦ some (to_message_dto m)
  ];
  unread_count = 0;
  created_at = r.created_at;
}

-- `findMembershipsForUser`, by the rooms: the newest room first.
abbrev pub last_message_at : Room → ℕ
last_message_at r = r.last_message_at

unfoldable pub rooms_of : String → Db → List Room
rooms_of user db = sort_desc last_message_at (keep (λ r. is_member user r.id db.members) db.rooms)

-- `findPendingMessageWritesForRooms`
unfoldable pub pending_writes_for_rooms : List String → List MessageWrite → List MessageWrite
pending_writes_for_rooms rooms ws =
    sort_desc accepted_at (keep (λ w. any (λ r. r == w.room_id) rooms && is_pending w.status) ws)

-- The loop over the pending writes: the first of a room stays.
unfoldable pub pending_by_room :
    List MessageWrite → JsMap String MessageDto → JsMap String MessageDto
unfolding pending_dto
pending_by_room [] m = m
pending_by_room (w ∷ ws) m =
    pending_by_room ws
      (elim (JsMap.get w.room_id m) [ none ↦ JsMap.set w.room_id (pending_dto w) m | some _ ↦ m ])

unfoldable pub newest_message : Option MessageDto → Option MessageDto → Option MessageDto
newest_message none right = right
newest_message (some l) none = some l
newest_message (some l) (some r) = if leb r.created_at l.created_at then some l else some r

-- The time that a chat is ordered by.
unfoldable pub chat_time : Chat → ℕ
chat_time c = elim c.last_message [ none ↦ c.created_at | some m ↦ m.created_at ]

unfoldable pub with_pending : JsMap String MessageDto → Chat → Chat
unfolding newest_message
with_pending pending c = record c {
  last_message = newest_message c.last_message (JsMap.get c.id pending);
}

unfoldable pub attach_pending_latest_messages : Db → List Chat → List Chat
unfolding pending_writes_for_rooms pending_by_room with_pending
attach_pending_latest_messages db chats =
    let pending = pending_by_room (pending_writes_for_rooms (map (λ c. c.id) chats) db.writes) [] in
    sort_desc chat_time (map (with_pending pending) chats)

unfoldable pub list_chats : String → Db → List Chat
unfolding attach_pending_latest_messages rooms_of to_chat_dto
list_chats user db =
    attach_pending_latest_messages db (map (to_chat_dto db user) (rooms_of user db))

abbrev pub chat_not_found : AppError
chat_not_found = record { status_code = 404; code = not_found; message = "Chat not found" }

-- `findRoomForUser` and `findRoomMembersForUser`
unfoldable pub find_room_for_user : String → String → Db → Option Room
find_room_for_user user room db =
    if is_member user room db.members then find_room room db.rooms else none

-- The head of the sorted list of one chat.
unfoldable pub get_chat : String → String → Db → Result AppError Chat
unfolding find_room_for_user to_chat_dto attach_pending_latest_messages
get_chat user room db = elim (find_room_for_user user room db) [
  | none ↦ err chat_not_found
  | some r ↦ elim (attach_pending_latest_messages db (to_chat_dto db user r ∷ [])) [
    | [] ↦ err chat_not_found
    | c ∷ _ ↦ ok c
  ]
]

unfoldable pub users_of : List RoomMember → List User → List UserDto
unfolding user_of to_user_dto
users_of [] users = []
users_of (m ∷ ms) users =
    let rest = users_of ms users in
    elim (user_of m users) [ none ↦ rest | some u ↦ to_user_dto u ∷ rest ]

unfoldable pub get_chat_members : String → String → Db → Result AppError (List UserDto)
unfolding find_room_for_user users_of
get_chat_members user room db = elim (find_room_for_user user room db) [
  | none ↦ err chat_not_found
  | some r ↦ ok (users_of (members_of r.id db.members) db.users)
]

unfoldable pub send_typing : String → String → Db → Result AppError (Unit {0})
send_typing user room db = if is_member user room db.members then ok tt else err not_a_member
