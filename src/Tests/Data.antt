-- ===== src/Tests/Data.antt =====
-- The tables and commands that the tests share.
use backend_sketch.Prelude.{ℕ, Bool, true, String, none, some, List, [], ◌∷◌}
use backend_sketch.Prelude.Result.{Result, ok, err}
use backend_sketch.Nats.{MessageWriteCommand}
use backend_sketch.Db.{User, Room, Db}
use backend_sketch.Api.{MessageDto}
use backend_sketch.MessageWrites.Dedupe.{WriteError}
use backend_sketch.MessageWrites.Process.{process_message_write_commands}
use backend_sketch.MessageWrites.Invariant.{IsValid}

abbrev pub alice : User
alice = record {
  id = "alice";
  username = "alice";
  display_name = "Alice";
  email = "alice@example.com";
  password = "hash";
  created_at = 1;
}

abbrev pub lobby : Room
lobby = record {
  id = "lobby";
  name = some "Lobby";
  is_group = true;
  created_at = 1;
  last_message_at = 1;
  next_message_seq = 4;
}

-- One user in one room that numbers its next message 4.
abbrev pub one_room : Db
one_room = record {
  users = alice ∷ [];
  rooms = lobby ∷ [];
  members = record { user_id = "alice"; room_id = "lobby" } ∷ [];
  messages = [];
  writes = [];
  outbox = [];
}

pub one_room-IsValid : IsValid one_room
one_room-IsValid = record { counted = tt; indexed = tt; apart = tt; housed = tt }

abbrev pub command : String → ℕ → MessageWriteCommand
command request at = record {
  message_id = request;
  request_id = request;
  sender_id = "alice";
  room_id = "lobby";
  body = "hello";
  accepted_at = at;
  origin_connection_id = none;
}

-- The second command is the older one.
abbrev pub two_commands : List MessageWriteCommand
two_commands = command "r1" 20 ∷ command "r2" 10 ∷ []

abbrev pub any_order : String → String → Bool
any_order a b = true

abbrev pub same_text : String → String
same_text s = s

abbrev pub run : List MessageWriteCommand → Db → Result WriteError (Db × List MessageDto)
run cs db = process_message_write_commands any_order same_text 30 none cs db

abbrev pub tables_of : Result WriteError (Db × List MessageDto) → Db
tables_of (ok r) = r.0
tables_of (err e) = one_room

abbrev pub answers_of : Result WriteError (Db × List MessageDto) → List MessageDto
answers_of (ok r) = r.1
answers_of (err e) = []

-- What the two commands leave, and how they are answered.
abbrev pub written : Db
written = tables_of (run two_commands one_room)

abbrev pub answered : List MessageDto
answered = answers_of (run two_commands one_room)
