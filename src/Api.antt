-- ===== src/Api.antt =====
-- The wire types (backend/packages/shared-types/src/api-types.ts) and the rows turned into them.
use backend_sketch.Prelude.{ℕ, String, Option, none}
use backend_sketch.Db.{Message, User}

pub data MessageType : Type 0 where
  text image file system : MessageType

pub data DeliveryStatus : Type 0 where
  sending sent failed : DeliveryStatus

pub record MessageDto : Type 0 where
  pub id : String
  pub chat_id : String
  pub sender_id : String
  pub type : MessageType
  pub body : String
  pub created_at : ℕ
  pub delivery_status : Option DeliveryStatus

pub data ErrorCode : Type 0 where
  validation_failed auth_required forbidden not_found conflict rate_limited internal : ErrorCode

-- An `AppError`.
pub record AppError : Type 0 where
  pub status_code : ℕ
  pub code : ErrorCode
  pub message : String

pub data WsErrorReason : Type 0 where
  unknown_op rate_limited buffer_unavailable forbidden validation_failed auth_expired :
      WsErrorReason

-- `toMessageDto`
unfoldable pub to_message_dto : Message → MessageDto
to_message_dto m = record {
  id = m.id;
  chat_id = m.room_id;
  sender_id = m.sender_id;
  type = text;
  body = m.content;
  created_at = m.created_at;
  delivery_status = none;
}

-- A user as the services answer it.
pub record UserDto : Type 0 where
  pub id : String
  pub username : String
  pub email : String
  pub display_name : String
  pub created_at : ℕ

-- `toUserDto`
unfoldable pub to_user_dto : User → UserDto
to_user_dto u = record {
  id = u.id;
  username = u.username;
  email = u.email;
  display_name = u.display_name;
  created_at = u.created_at;
}
