-- ===== src/Tests/Batches.antt =====
-- The theorems on the writer at concrete inputs.
use mathlib.Core.List.{map}
use native.Mathlib.Decide.{ℕ_discrete}
use backend_sketch.Prelude.{
  true, none, some, List, [], ◌∷◌, ◌++◌, leb, ◌≡◌, ◌≢◌, refl, All, AllPairs, any, ◌==◌, test_of_eq,
  string_eq, str_discrete, ◌&&◌,
}
use backend_sketch.Prelude.Result.{Result, ok, err}
use backend_sketch.Nats.{MessageWriteCommand, at_least_one}
use backend_sketch.Db.{has_user, has_room, find_room, Message, Db}
use backend_sketch.Api.{MessageDto, to_message_dto}
use backend_sketch.MessageWrites.Dedupe.{
  WriteError, command_mismatch, message_write_key, dedupe_from, dedupe, key_of, agrees,
}
use backend_sketch.MessageWrites.Dedupe.Laws.{Agreeing, dedupe_sound, dedupe_accepts}
use backend_sketch.Prelude.JsMap
use backend_sketch.MessageWrites.Process.{
  transact, persist, process_message_write_commands, process_message_write_command,
}
use backend_sketch.MessageWrites.Insert.{
  message_write_batch, answers, insert_write, insert_writes, joined, writes_by_key, is_write_of,
  verify,
}
use backend_sketch.MessageWrites.Persist.{
  candidates, is_dead, is_final, has_request, has_message, write_le, insert_ordered, ordered,
  count_room, numbered, allocate, clashes, inserted, outbox_id, origin_of, new_outbox, add_outbox,
  all_messages, mark_persisted, max_by_room, update_rooms_last_message_at,
}
use backend_sketch.MessageWrites.Persist.Order.{InOrder}
use backend_sketch.MessageWrites.Invariant.{IsValid}
use backend_sketch.MessageWrites.Batch.{process_message_write_commands-IsValid}
use backend_sketch.MessageWrites.Created.{process_creates}
use backend_sketch.MessageWrites.GivenUp.{GivenUp, process_last_delivery}
use backend_sketch.MessageWrites.Redelivery.{process_again}
use backend_sketch.MessageWrites.Status.History.{Forward}
use backend_sketch.MessageWrites.Status.Steps.{batch, here, next, Reach-Forward}
use backend_sketch.Tests.Data.{
  one_room, one_room-IsValid, command, two_commands, any_order, same_text, run, written, answered,
}

-- The run of the two commands.
run_two : run two_commands one_room ≡ ok (written, answered)
unfolding process_message_write_commands transact persist dedupe dedupe_from message_write_key
    agrees JsMap.get JsMap.set message_write_batch answers insert_write insert_writes joined
    writes_by_key is_write_of verify has_user has_room find_room candidates is_dead is_final
    has_request has_message write_le insert_ordered ordered count_room numbered allocate clashes
    inserted outbox_id origin_of new_outbox add_outbox all_messages mark_persisted max_by_room
    update_rooms_last_message_at to_message_dto str_discrete ℕ_discrete
run_two = refl

process_message_write_commands-IsValid_example : IsValid written
process_message_write_commands-IsValid_example =
    process_message_write_commands-IsValid any_order same_text 30 none two_commands one_room written
      answered one_room-IsValid run_two

process_creates_example :
    (new : List Message) × (written.messages ≡ one_room.messages ++ new)
    × (answered ≡ map to_message_dto new)
    × AllPairs InOrder new
process_creates_example =
    process_creates any_order same_text 30 none (command "r1" 20) (command "r2" 10 ∷ []) one_room
      written answered one_room-IsValid run_two

process_again_example :
    (db'' : Db) × (process_message_write_commands any_order same_text 90 none two_commands written
      ≡ ok (db'', []))
    × (db''.messages ≡ written.messages)
    × (db''.outbox ≡ written.outbox)
process_again_example =
    process_again any_order same_text 30 none (command "r1" 20) (command "r2" 10 ∷ []) one_room
      written answered 90 one_room-IsValid run_two

Reach-Forward_example : Forward one_room written
Reach-Forward_example =
    Reach-Forward any_order same_text one_room-IsValid
      (next here (batch 30 none two_commands answered run_two))

-- The first command again, under the same request with another text.
abbrev altered : MessageWriteCommand
altered = record (command "r1" 20) { body = "other" }

abbrev run_altered : Result WriteError (Db × List MessageDto)
run_altered = process_message_write_commands any_order same_text 95 none (altered ∷ []) written

altered_throws : run_altered ≡ err command_mismatch
unfolding process_message_write_commands transact persist dedupe dedupe_from message_write_key
    agrees JsMap.get JsMap.set message_write_batch answers insert_write insert_writes joined
    writes_by_key is_write_of verify has_user has_room find_room str_discrete ℕ_discrete key_of
    add_outbox inserted numbered ordered candidates is_dead clashes count_room outbox_id
    mark_persisted all_messages is_final
altered_throws = refl

last_delivery : leb (at_least_one 5 none) (at_least_one 1 (some 5)) ≡ true
unfolding at_least_one
last_delivery = refl

process_last_delivery_example :
    (db' : Db) × (process_message_write_command any_order same_text true true
        (λ e. "failed")
        95
        none
        (some 5)
        none
        altered
        written
      ≡ ok (db', none))
    × (db'.messages ≡ written.messages)
    × GivenUp true true altered written db'
process_last_delivery_example =
    process_last_delivery any_order same_text (λ e. "failed") true true 95 none (some 5) none
      altered written command_mismatch last_delivery altered_throws

-- A batch that repeats its first command.
abbrev repeated : List MessageWriteCommand
repeated = command "r1" 20 ∷ command "r2" 10 ∷ command "r1" 20 ∷ []

dedupe-repeated : dedupe repeated ≡ ok two_commands
unfolding dedupe dedupe_from str_discrete JsMap.get JsMap.set message_write_key agrees
dedupe-repeated = refl

dedupe_sound_example :
    AllPairs (λ c d. ◌≢◌ (key_of c) (key_of d)) two_commands
    × All (λ c. any (λ d. (key_of d == key_of c) && agrees d c) two_commands ≡ true) repeated
dedupe_sound_example = dedupe_sound repeated two_commands dedupe-repeated

repeated_agree : AllPairs Agreeing repeated
unfolding agrees message_write_key str_discrete
repeated_agree = (
  ((λ e. test_of_eq "alice:r1" "alice:r2" e), ((λ e. refl), tt)),
  (((λ e. test_of_eq "alice:r2" "alice:r1" e), tt), (tt, tt)),
)

dedupe_accepts_example : (ds : List MessageWriteCommand) × (dedupe repeated ≡ ok ds)
dedupe_accepts_example = dedupe_accepts repeated repeated_agree
