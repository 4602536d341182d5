-- ===== src/MessageWrites/Dedupe.antt =====
-- `dedupeMessageWriteCommands`: one command for each sender and request.
pub mod Laws
use Prim.Native.String
use mathlib.Core.List.{map}
use backend_sketch.Prelude.{
  Bool, String, none, some, List, [], ◌∷◌, ◌&&◌, ◌==◌, string_eq, if◌then◌else◌,
}
use backend_sketch.Prelude.JsMap.{JsMap}
use backend_sketch.Prelude.JsMap
use backend_sketch.Prelude.Result.{Result, ok, err, ◌>>=◌}
use backend_sketch.Nats.{MessageWriteCommand}

-- What the processor throws, or the database for it.
pub data WriteError : Type 0 where
  conflicting_commands command_mismatch unique_violation foreign_key_violation : WriteError

-- `${senderId}:${requestId}`
unfoldable pub message_write_key : String → String → String
message_write_key sender_id request_id = String.◌++◌ sender_id (String.◌++◌ ":" request_id)

abbrev pub key_of : MessageWriteCommand → String
key_of c = message_write_key c.sender_id c.request_id

-- Not one of the three tests for a conflict.
unfoldable pub agrees : MessageWriteCommand → MessageWriteCommand → Bool
agrees existing c =
    (existing.message_id == c.message_id)
    && ((existing.room_id == c.room_id) && (existing.body == c.body))

-- The loop, over the map of the commands seen.
unfoldable pub dedupe_from :
    JsMap String MessageWriteCommand
    → List MessageWriteCommand
    → Result WriteError (JsMap String MessageWriteCommand)
dedupe_from seen [] = ok seen
dedupe_from seen (c ∷ cs) = elim (JsMap.get (key_of c) seen) [
  | none ↦ dedupe_from (JsMap.set (key_of c) c seen) cs
  | some existing ↦
      let rest = dedupe_from seen cs in if agrees existing c then rest else err conflicting_commands
]

abbrev pub values : JsMap String MessageWriteCommand → List MessageWriteCommand
values = map (λ e. e.1)

unfoldable pub dedupe : List MessageWriteCommand → Result WriteError (List MessageWriteCommand)
unfolding dedupe_from
dedupe commands = do seen ← dedupe_from [] commands; ok (values seen)
