-- ===== src/Db.antt =====
-- The tables that the services share (backend/prisma/schema.prisma), each as the list of its rows in
-- insertion order, and the rows that one statement finds in them. A `DateTime` is its number of
-- milliseconds, so `toISOString` and `new Date(…)` are the identity. The generated identifiers and
-- the clock are arguments of the operations that use them.
use backend_sketch.Prelude.{ℕ, Bool, String, Option, List, find, any, ◌==◌, string_eq, ◌&&◌}

pub record User : Type 0 where
  pub id : String
  pub username : String
  pub display_name : String
  pub email : String
  pub password : String
  pub created_at : ℕ

pub record Room : Type 0 where
  pub id : String
  pub name : Option String
  pub is_group : Bool
  pub created_at : ℕ
  pub last_message_at : ℕ
  pub next_message_seq : ℕ

pub record RoomMember : Type 0 where
  pub user_id : String
  pub room_id : String

pub record Message : Type 0 where
  pub id : String
  pub content : String
  pub created_at : ℕ
  pub request_id : Option String
  pub room_sequence : ℕ
  pub sender_id : String
  pub room_id : String

pub data WriteStatus : Type 0 where
  pending persisted fanouted dead : WriteStatus

pub data OutboxStatus : Type 0 where
  pending publishing published failed : OutboxStatus

pub record MessageWrite : Type 0 where
  pub id : String
  pub request_id : String
  pub sender_id : String
  pub room_id : String
  pub content : String
  pub status : WriteStatus
  pub accepted_at : ℕ
  pub persisted_at : Option ℕ
  pub failed_at : Option ℕ
  pub failure_reason : Option String

pub record MessageOutbox : Type 0 where
  pub id : String
  pub event_type : String
  pub message_id : String
  pub status : OutboxStatus
  pub attempts : ℕ
  pub next_attempt_at : Option ℕ
  pub locked_at : Option ℕ
  pub published_at : Option ℕ
  pub failure_reason : Option String
  pub origin_connection_id : Option String
  pub created_at : ℕ

pub record Db : Type 0 where
  pub users : List User
  pub rooms : List Room
  pub members : List RoomMember
  pub messages : List Message
  pub writes : List MessageWrite
  pub outbox : List MessageOutbox

-- Rows by their primary key.
unfoldable pub find_room : String → List Room → Option Room
find_room id = find (λ r. r.id == id)

unfoldable pub has_user : String → List User → Bool
has_user id = any (λ u. u.id == id)

unfoldable pub has_room : String → List Room → Bool
has_room id = any (λ r. r.id == id)

unfoldable pub is_member : String → String → List RoomMember → Bool
is_member user room = any (λ m. (m.user_id == user) && (m.room_id == room))
