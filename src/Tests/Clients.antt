-- ===== src/Tests/Clients.antt =====
-- The theorems on the services and the writer's loop at concrete inputs.
use mathlib.Core.List.{map}
use native.Mathlib.Decide.{ℕ_discrete}
use backend_sketch.Prelude.{
  ℕ, true, false, String, none, some, List, [], ◌∷◌, ◌++◌, ◌≡◌, refl, All, string_eq, str_discrete,
  ◌||◌, ◌≤◌, ◌<◌, ◌+◌, ◌⊎◌, length, arith,
}
use backend_sketch.Prelude.Result.{Result, ok, err}
use backend_sketch.Prelude.JsMap
use backend_sketch.Nats.{
  MessageWriteCommand, at_least_one, publish_message_write, publish_message_write_with_retry,
  try_from,
}
use backend_sketch.Nats.Retry.{Tried, publish_message_write_with_retry-Tried}
use backend_sketch.Db.{is_member, find_room, has_user}
use backend_sketch.Api.{MessageDto}
use backend_sketch.RateLimit.{RateLimitOptions}
use backend_sketch.RateLimit.Local.{create, check, window_key, window_ms, entries_bound}
use backend_sketch.RateLimit.Local.Window.{Check, allowed_of, Within, allowed_of-le-limit, live_at}
use backend_sketch.RateLimit.Local.Memory.{Live, check-bounded}
use backend_sketch.MessageWrites.Outbox.{delivered, drain_message_outbox, retry_delay_ms}
use backend_sketch.MessageWrites.Outbox.Claims.{retry_delay_ms_bounds}
use backend_sketch.MessageWrites.Outbox.Delivery.{Recorded, Genuine, drain_message_outbox_sound}
use backend_sketch.Writer.Handle.{
  QueuedMessageWrite, Processor, Writer, message_of, handle_message_batch,
}
use backend_sketch.Writer.Handle.Answers.{handle_message_batch_answers}
use backend_sketch.Writer.Queue.{
  WriterOptions, empty_queue, receive, received, started, after, has_room_for_more,
}
use backend_sketch.Writer.Queue.Bounds.{IsBounded, Reach-IsBounded}
use backend_sketch.Writer.Queue.Order.{messages, receive-messages}
use backend_sketch.MessageWrites.Invariant.{IsValid}
use backend_sketch.Chats.Send.{
  CreateMessageInput, Sent, SendError, create_message, create_message_row, is_blank, trim,
  trim_start, trim_end, is_space, increment, update_last_message_at,
}
use backend_sketch.Chats.Send.Again.{create_message-IsValid, create_message_again}
use backend_sketch.Chats.Buffered.{
  BufferedInput, create_buffered_message, create_buffered_message_accepted, command_of, TookCommand,
}
use backend_sketch.RoomEvents.{truthy}
use backend_sketch.MessageWrites.Persist.{clashes}
use backend_sketch.Chats.Buffered.{stable_message_id, to_pending_message_dto}
use backend_sketch.MessageWrites.Dead.{slice_text}
use backend_sketch.Tests.Data.{one_room, one_room-IsValid, command, any_order, written}

drain_message_outbox_sound_example :
    let d = drain_message_outbox any_order true none none 40 (λ o. delivered) (λ o. 41) written in
    All (Recorded written.outbox d.events) d.outbox
    × All (Genuine written.messages) d.events
    × (d.published ≤ length d.events)
drain_message_outbox_sound_example =
    drain_message_outbox_sound any_order true none none 40 (λ o. delivered) (λ o. 41) written

retry_delay_ms_bounds_example :
    (1000 ≤ retry_delay_ms 2)
    × (retry_delay_ms 2 ≤ retry_delay_ms 3)
    × (retry_delay_ms 3 ≤ 60000)
    × ((2 < 8) ⊎ (retry_delay_ms 2 ≡ 60000))
retry_delay_ms_bounds_example = retry_delay_ms_bounds 2 3 (omega arith)

-- A processor that refuses every batch and every command.
abbrev refusing : Processor ℕ String
refusing = record {
  process_commands = λ cs s. (s, err "refused");
  process_command = λ origin attempt most c s. (s, err "refused");
  drain = λ limit s. (s, ok tt);
}

abbrev entry : ℕ → QueuedMessageWrite
entry n = record {
  msg = record { sequence = n; payload = ""; delivery_count = none };
  command = command "r1" n;
  delivery_attempt = 1;
}

abbrev idle_writer : Writer ℕ
idle_writer = record {
  tables = 0;
  responses = [];
  counters = record {
    batch_success = 0;
    batch_failure = 0;
    batch_split = 0;
    batch_split_commands = 0;
    commands_persisted = 0;
    messages_created = 0;
    dead_commands = 0;
  };
}

handle_message_batch_answers_example :
    (w' : Writer ℕ) × (handle_message_batch refusing 5 false
        (entry 1 ∷ entry 2 ∷ entry 3 ∷ [])
        idle_writer
      ≡ some w')
    × (map message_of w'.responses
        ≡ map message_of idle_writer.responses
          ++ map (λ q. q.msg) (entry 1 ∷ entry 2 ∷ entry 3 ∷ []))
handle_message_batch_answers_example =
    handle_message_batch_answers refusing 5 false (entry 1 ∷ entry 2 ∷ entry 3 ∷ []) idle_writer

abbrev pairs : WriterOptions
pairs = record { batch_size = 2; batch_flush_ms = 50; batch_concurrency = 1 }

has_room_at_start : has_room_for_more pairs empty_queue ≡ true
unfolding has_room_for_more
has_room_at_start = refl

Reach-IsBounded_example : IsBounded pairs (receive pairs (entry 1) empty_queue)
Reach-IsBounded_example =
    Reach-IsBounded pairs (receive pairs (entry 1) empty_queue)
      (after started (received (entry 1) has_room_at_start))

receive-messages_example :
    messages (receive pairs (entry 2) (receive pairs (entry 1) empty_queue))
    ≡ messages (receive pairs (entry 1) empty_queue) ++ entry 2 ∷ []
receive-messages_example = receive-messages pairs (entry 2) (receive pairs (entry 1) empty_queue)

-- A publisher that keeps the command, and never fails.
abbrev keeping :
    MessageWriteCommand
    → List MessageWriteCommand
    → List MessageWriteCommand × Result String (Unit {0})
keeping = publish_message_write (λ c. ok tt)

publish_message_write_with_retry-Tried_example :
    Tried keeping
      (command "r1" 20)
      (at_least_one 3 (some 2))
      []
      (publish_message_write_with_retry keeping (command "r1" 20) (some 2) [])
publish_message_write_with_retry-Tried_example =
    publish_message_write_with_retry-Tried keeping (command "r1" 20) (some 2) []

abbrev three_a_second : RateLimitOptions
three_a_second = record { key_prefix = "ws:send"; limit = 3; window_seconds = 1 }

abbrev at : ℕ → Check
at t = record { time = t; key = "alice"; options = three_a_second }

all-Within :
    All
      (Within (window_key three_a_second "alice") (5 + window_ms three_a_second) 3)
      (at 6 ∷ at 7 ∷ at 8 ∷ [])
unfolding window_ms
all-Within = (
  (omega arith, λ e. omega arith),
  ((omega arith, λ e. omega arith), ((omega arith, λ e. omega arith), tt)),
)

none_live : live_at 5 (JsMap.get (window_key three_a_second "alice") create.windows) ≡ none
unfolding live_at JsMap.get
none_live = refl

allowed_of-le-limit_example :
    allowed_of none (window_key three_a_second "alice") (at 5 ∷ at 6 ∷ at 7 ∷ at 8 ∷ []) create ≤ 3
allowed_of-le-limit_example =
    allowed_of-le-limit none (at 5) (at 6 ∷ at 7 ∷ at 8 ∷ []) create tt none_live all-Within

check-bounded_example :
    (length (check (some 2) 5 "alice" three_a_second create).0.windows ≤ entries_bound (some 2))
    ⊎ All (Live 5) (check (some 2) 5 "alice" three_a_second create).0.windows
check-bounded_example = check-bounded (some 2) 5 "alice" three_a_second create

abbrev hello : CreateMessageInput
hello = record { sender_id = "alice"; chat_id = "lobby"; body = " hello "; request_id = some "r9" }

abbrev sent_of : Result SendError Sent → Sent
sent_of (ok s) = s
sent_of (err e) = record {
  db = one_room;
  message = record {
    id = "";
    chat_id = "";
    sender_id = "";
    type = backend_sketch.Api.text;
    body = "";
    created_at = 0;
    delivery_status = none;
  };
  cached = false;
  published = false;
}

abbrev first_send : Sent
first_send = sent_of (create_message none "m9" 50 hello one_room)

first_run : create_message none "m9" 50 hello one_room ≡ ok first_send
unfolding create_message create_message_row is_blank trim trim_start trim_end is_space increment
    update_last_message_at is_member find_room has_user clashes truthy str_discrete ℕ_discrete
first_run = refl

first_told : first_send.published ≡ true
unfolding create_message create_message_row is_blank trim trim_start trim_end is_space increment
    update_last_message_at is_member find_room has_user clashes truthy str_discrete ℕ_discrete
first_told = refl

hello_request : truthy hello.request_id ≡ some "r9"
unfolding truthy str_discrete
hello_request = refl

create_message-IsValid_example : IsValid first_send.db
create_message-IsValid_example =
    create_message-IsValid none "m9" 50 hello one_room first_send one_room-IsValid first_run

create_message_again_example :
    (s' : Sent) × (create_message none "m10" 60 hello first_send.db ≡ ok s')
    × (s'.message ≡ first_send.message)
    × (s'.db ≡ first_send.db)
    × (s'.published ≡ false)
create_message_again_example =
    create_message_again hello "r9" hello_request none "m9" "m10" 50 60 one_room first_send
      first_run first_told

abbrev buffered : BufferedInput
buffered = record { sender_id = "alice"; chat_id = "lobby"; body = " hello "; request_id = "r9" }

abbrev the_command : MessageWriteCommand
the_command = command_of (λ t. t) keeping (some 2) none false 50 buffered

accepted_run :
    create_buffered_message (λ t. t) keeping (some 2) none false 50 buffered one_room.members []
    ≡ (the_command ∷ [], ok (to_pending_message_dto the_command))
unfolding create_buffered_message command_of to_pending_message_dto is_blank trim trim_start
    trim_end is_space is_member publish_message_write publish_message_write_with_retry try_from
    at_least_one truthy stable_message_id slice_text str_discrete ℕ_discrete
accepted_run = refl

create_buffered_message_accepted_example :
    (is_blank buffered.body ≡ false)
    × ((false || is_member "alice" "lobby" one_room.members) ≡ true)
    × (to_pending_message_dto the_command ≡ to_pending_message_dto the_command)
    × TookCommand (λ t. t) keeping (some 2) none false 50 the_command [] (the_command ∷ [])
create_buffered_message_accepted_example =
    create_buffered_message_accepted (λ t. t) keeping (some 2) none false 50 buffered
      one_room.members [] (the_command ∷ []) (to_pending_message_dto the_command) accepted_run
