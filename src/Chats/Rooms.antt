-- ===== src/Chats/Rooms.antt =====
-- Making a chat: `createChat`, and the rooms and members that it finds and writes.
pub mod Members
use Prim.Native.String
use mathlib.Core.List.{map}
use backend_sketch.Prelude.{
  ℕ, zero, suc, Bool, true, false, String, Option, none, some, List, [], ◌∷◌, ◌++◌, any, keep, find,
  length, ◌==◌, string_eq, nat_eq, if◌then◌else◌, ◌&&◌, ◌||◌, ltb,
}
use backend_sketch.Prelude.Result.{Result, ok, err}
use backend_sketch.Api.{MessageDto, AppError, ErrorCode, validation_failed, to_message_dto}
use backend_sketch.Db.{Db, User, Room, RoomMember, Message, is_member}

pub record CreateChatRequest : Type 0 where
  pub type : String
  pub name : Option String
  pub member_ids : Option (List String)

pub data ChatType : Type 0 where
  direct group : ChatType

pub record Chat : Type 0 where
  pub id : String
  pub type : ChatType
  pub name : String
  pub member_ids : List String
  pub last_message : Option MessageDto
  pub unread_count : ℕ
  pub created_at : ℕ

-- The status and body of the response, with the tables.
pub record ChatCreated : Type 0 where
  pub status : ℕ
  pub body : Chat
  pub db : Db

-- `findUserForChatMember`: by identifier or name.
unfoldable pub find_user_for_chat_member : String → List User → Option User
find_user_for_chat_member identifier =
    find (λ u. (u.id == identifier) || (u.username == identifier))

-- The members of a room, as the relation of the schema.
unfoldable pub members_of : String → List RoomMember → List RoomMember
members_of room = keep (λ m. m.room_id == room)

-- `orderBy: { createdAt: 'desc' }, take: 1`
unfoldable pub newest : Option Message → List Message → Option Message
newest best [] = best
newest none (m ∷ ms) = newest (some m) ms
newest (some b) (m ∷ ms) = newest (if ltb b.created_at m.created_at then some m else some b) ms

-- `findDirectRoomCandidates`
unfoldable pub find_direct_room_candidates : String → String → Db → List Room
find_direct_room_candidates user target db =
    keep
      (λ r.
        (if r.is_group then false else true)
        && (is_member user r.id db.members && is_member target r.id db.members))
      db.rooms

-- The room and its members, as `createDirectRoom` and `createGroupRoom` write them. The members are
-- users that were found, and the one that asks, so the foreign keys hold.
unfoldable pub create_room : String → ℕ → (is_group : Bool) → Option String → List String → Db → Db
create_room id now is_group name users db = record db {
  rooms =
      db.rooms
      ++ record {
        id = id;
        name = name;
        is_group = is_group;
        created_at = now;
        last_message_at = now;
        next_message_seq = 1;
      }
        ∷ [];
  members = db.members ++ map (λ u. record { user_id = u; room_id = id }) users;
}

abbrev pub invalid : ℕ → String → AppError
invalid status message = record {
  status_code = status;
  code = validation_failed;
  message = message;
}

-- `member_ids[i]: user "…" not found`, with the index as text.
unfoldable pub not_found_message : String → String → String
not_found_message index raw =
    String.◌++◌ "member_ids["
      (String.◌++◌ index (String.◌++◌ "]: user \"" (String.◌++◌ raw "\" not found")))

-- `[...new Set(ids)]`, with the ids passed.
unfoldable pub unique : List String → List String → List String
unique seen [] = []
unique seen (x ∷ xs) =
    let skipped = unique seen xs in
    let taken = x ∷ unique (x ∷ seen) xs in if any (λ s. s == x) seen then skipped else taken

-- The members by their rows, or the first that has none, with its index.
unfoldable pub resolve_members : ℕ → List String → List User → Result (ℕ × String) (List String)
unfolding find_user_for_chat_member
resolve_members n [] users = ok []
resolve_members n (raw ∷ rest) users = elim (find_user_for_chat_member raw users) [
  | none ↦ err (n, raw)
  | some u ↦ elim (resolve_members (suc n) rest users) [ err e ↦ err e | ok ids ↦ ok (u.id ∷ ids) ]
]

-- `id` and `now` are the defaults of a new room; `decimal` writes an index.
module _ (decimal : ℕ → String) (id : String) (now : ℕ) (user_id : String) (db : Db) where
  -- The direct chat with a user that was found.
  unfoldable pub open_direct_chat : User → Result AppError ChatCreated
  unfolding find_direct_room_candidates members_of newest create_room
  open_direct_chat target =
      if target.id == user_id
      then err (invalid 400 "cannot create a direct chat with yourself")
      else elim (find (λ r. length (members_of r.id db.members) == 2)
          (find_direct_room_candidates user_id target.id db)) [
            | some r ↦ ok (record {
              status = 200;
              body = record {
                id = r.id;
                type = direct;
                name = target.display_name;
                member_ids = map (λ m. m.user_id) (members_of r.id db.members);
                last_message = elim (newest none (keep (λ m. m.room_id == r.id) db.messages)) [
                  | none ↦ none
                  | some m ↦ some (to_message_dto m)
                ];
                unread_count = 0;
                created_at = r.created_at;
              };
              db = db;
            })
            | none ↦ ok (record {
              status = 201;
              body = record {
                id = id;
                type = direct;
                name = target.display_name;
                member_ids = user_id ∷ target.id ∷ [];
                last_message = none;
                unread_count = 0;
                created_at = now;
              };
              db = create_room id now false none (user_id ∷ target.id ∷ []) db;
            })
          ]

  unfoldable pub create_direct_chat : List String → Result AppError ChatCreated
  unfolding open_direct_chat not_found_message
  create_direct_chat (raw ∷ []) = elim (find_user_for_chat_member raw db.users) [
    | none ↦ err (invalid 422 (not_found_message "0" raw))
    | some target ↦ open_direct_chat target
  ]
  create_direct_chat [] = err (invalid 400 "direct chat requires exactly 1 member_id")
  create_direct_chat (a ∷ b ∷ rest) = err (invalid 400 "direct chat requires exactly 1 member_id")

  -- The chat of members that were found.
  unfoldable pub open_group_chat : String → List String → ChatCreated
  unfolding unique create_room
  open_group_chat name ids =
      let all_ids = unique [] (user_id ∷ ids) in
      record {
        status = 201;
        body = record {
          id = id;
          type = group;
          name = name;
          member_ids = all_ids;
          last_message = none;
          unread_count = 0;
          created_at = now;
        };
        db = create_room id now true (some name) all_ids db;
      }

  unfoldable pub create_group_chat : Option String → List String → Result AppError ChatCreated
  unfolding open_group_chat not_found_message resolve_members
  create_group_chat none member_ids = err (invalid 400 "group chat requires a name")
  create_group_chat (some name) member_ids =
      if name == ""
      then err (invalid 400 "group chat requires a name")
      else if ltb 0 (length member_ids)
      then elim (resolve_members 0 member_ids db.users) [
        | err (n, raw) ↦ err (invalid 422 (not_found_message (decimal n) raw))
        | ok ids ↦ ok (open_group_chat name ids)
      ]
      else err (invalid 400 "group chat requires at least 1 member_id")

  unfoldable pub create_chat : CreateChatRequest → Result AppError ChatCreated
  unfolding create_direct_chat create_group_chat
  create_chat request = elim request.member_ids [
    | none ↦ err (invalid 400 "type and member_ids are required")
    | some member_ids ↦
        if request.type == ""
        then err (invalid 400 "type and member_ids are required")
        else if request.type == "direct"
        then create_direct_chat member_ids
        else if request.type == "group"
        then create_group_chat request.name member_ids
        else err (invalid 400 "type must be \"direct\" or \"group\"")
  ]
