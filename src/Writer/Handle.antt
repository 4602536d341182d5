-- ===== src/Writer/Handle.antt =====
-- `decodeQueuedMessageWrite`, `handleMessageBatch` and `handleSingleMessageWrite`: what the writer
-- answers to the buffer for each message that it took.
pub mod Answers
use backend_sketch.Prelude.{
  ℕ, zero, suc, max, Bool, true, false, String, Option, none, some, List, [], ◌∷◌, ◌++◌, length,
  take, drop, leb, if◌then◌else◌, ◌+◌,
}
use backend_sketch.Prelude.Result.{Result, ok, err}
use backend_sketch.Nats.{MessageWriteCommand}
use backend_sketch.Api.{MessageDto}
use backend_sketch.Nats.{at_least_one}

-- A message of the stream, by its sequence there, with what the client reads of it: the bytes and
-- the count of deliveries.
pub record JsMsg : Type 0 where
  pub sequence : ℕ
  pub payload : String
  pub delivery_count : Option ℕ

pub record QueuedMessageWrite : Type 0 where
  pub msg : JsMsg
  pub command : MessageWriteCommand
  pub delivery_attempt : ℕ

pub data Response : Type 0 where
  ack nak : JsMsg → Response

abbrev pub message_of : Response → JsMsg
message_of (ack m) = m
message_of (nak m) = m

-- `Math.max(1, Number(info.deliveryCount ?? 1))`
unfoldable pub read_delivery_attempt : JsMsg → ℕ
unfolding at_least_one
read_delivery_attempt m = at_least_one 1 m.delivery_count

-- What decoding leaves: an entry for the queue, or an answer.
pub data Decoded : Type 0 where
  queued : QueuedMessageWrite → Decoded
  answered : Response → Decoded

-- `decode` is the codec of the client, which throws on other bytes.
unfoldable pub decode_queued_message_write :
    (String → Option MessageWriteCommand) → ℕ → JsMsg → Decoded
unfolding read_delivery_attempt
decode_queued_message_write decode max_delivery_attempts m = elim (decode m.payload) [
  | some c ↦ queued (record { msg = m; command = c; delivery_attempt = read_delivery_attempt m })
  | none ↦
      if leb max_delivery_attempts (read_delivery_attempt m)
      then answered (ack m)
      else answered (nak m)
]

-- The processor as the writer calls it, on the tables `S`; each call may throw, with the tables as it
-- then leaves them.
pub record Processor {ℓ} (S : Type ℓ) (E : Type 0) : Type ℓ where
  pub process_commands : List MessageWriteCommand → S → S × Result E (List MessageDto)
  pub process_command :
      Option String
      → (attempt most : ℕ) → MessageWriteCommand
      → S
      → S × Result E (Option MessageDto)
  pub drain : ℕ → S → S × Result E (Unit {0})

pub record Counters : Type 0 where
  pub batch_success : ℕ
  pub batch_failure : ℕ
  pub batch_split : ℕ
  pub batch_split_commands : ℕ
  pub commands_persisted : ℕ
  pub messages_created : ℕ
  pub dead_commands : ℕ

unfoldable pub record_batch_success : ℕ → ℕ → Counters → Counters
record_batch_success commands created_messages k = record k {
  batch_success = k.batch_success + 1;
  commands_persisted = k.commands_persisted + commands;
  messages_created = k.messages_created + created_messages;
}

unfoldable pub record_batch_failure : Counters → Counters
record_batch_failure k = record k { batch_failure = k.batch_failure + 1 }

unfoldable pub record_batch_split : ℕ → Counters → Counters
record_batch_split commands k = record k {
  batch_split = k.batch_split + 1;
  batch_split_commands = k.batch_split_commands + commands;
}

unfoldable pub record_dead_command : Counters → Counters
record_dead_command k = record k { dead_commands = k.dead_commands + 1 }

pub record Writer {ℓ} (S : Type ℓ) : Type ℓ where
  pub tables : S
  pub responses : List Response
  pub counters : Counters

-- `Math.ceil(n / 2)`
unfoldable pub half : ℕ → ℕ
half zero = zero
half (suc zero) = 1
half (suc (suc n)) = suc (half n)

abbrev pub commands : List QueuedMessageWrite → List MessageWriteCommand
commands [] = []
commands (q ∷ qs) = q.command ∷ commands qs

abbrev pub ack_all : List QueuedMessageWrite → List Response
ack_all [] = []
ack_all (q ∷ qs) = ack q.msg ∷ ack_all qs

module _ {ℓ} {S : Type ℓ} {E : Type 0} (processor : Processor S E) (max_delivery_attempts : ℕ)
    (disable_fanout : Bool) where
  -- The drain that follows a write, unless the fan-out is off.
  unfoldable pub fanout : ℕ → S → S × Result E (Unit {0})
  fanout limit s = if disable_fanout then (s, ok tt) else processor.drain limit s

  -- A message was handled: `ack`, and the counters.
  unfoldable pub single_done : QueuedMessageWrite → Option MessageDto → S → Writer S → Writer S
  unfolding record_batch_success record_dead_command
  single_done q message s w =
      let k : Counters = elim message [
        | some _ ↦ w.counters
        | none ↦
            if leb max_delivery_attempts q.delivery_attempt
            then record_dead_command w.counters
            else w.counters
      ] in
      record {
        tables = s;
        responses = w.responses ++ ack q.msg ∷ [];
        counters = record_batch_success 1 (elim message [ none ↦ 0 | some _ ↦ 1 ]) k;
      }

  -- The handler's `catch`.
  unfoldable pub single_failed : QueuedMessageWrite → S → Writer S → Writer S
  unfolding record_batch_failure
  single_failed q s w = record {
    tables = s;
    responses = w.responses ++ nak q.msg ∷ [];
    counters = record_batch_failure w.counters;
  }

  unfoldable pub handle_single_message_write : QueuedMessageWrite → Writer S → Writer S
  unfolding fanout single_done single_failed
  handle_single_message_write q w =
      let step =
        processor.process_command q.command.origin_connection_id q.delivery_attempt
          max_delivery_attempts q.command w.tables in
      elim step.1 [
        | err _ ↦ single_failed q step.0 w
        | ok message ↦
            let drained = fanout 100 step.0 in
            elim drained.1 [
              | err _ ↦ single_failed q drained.0 w
              | ok _ ↦ single_done q message drained.0 w
            ]
      ]

  -- The `try` of `handleMessageBatch`: the tables, and the messages if nothing threw.
  unfoldable pub try_batch : List QueuedMessageWrite → S → S × Result E (List MessageDto)
  unfolding fanout
  try_batch batch s =
      let step = processor.process_commands (commands batch) s in
      elim step.1 [
        | err e ↦ (step.0, err e)
        | ok messages ↦
            let drained = fanout (max (length batch) 100) step.0 in
            elim drained.1 [ err e ↦ (drained.0, err e) | ok _ ↦ (drained.0, ok messages) ]
      ]

  -- After a throw at a batch of one or none. `batch[0]` of an empty batch is undefined, so that the
  -- single handler fails and has nothing to answer.
  unfoldable pub handle_alone : List QueuedMessageWrite → Writer S → Writer S
  unfolding handle_single_message_write record_batch_failure
  handle_alone [] w = record w { counters = record_batch_failure w.counters }
  handle_alone (q ∷ qs) w = handle_single_message_write q w

  -- On fuel; `none` when it runs out.
  unfoldable pub handle_within : ℕ → List QueuedMessageWrite → Writer S → Option (Writer S)
  unfolding try_batch handle_alone half record_batch_success record_batch_split
  handle_within zero batch w = none
  handle_within (suc n) batch w =
      let step = try_batch batch w.tables in
      elim step.1 [
        | ok messages ↦ some (record {
          tables = step.0;
          responses = w.responses ++ ack_all batch;
          counters = record_batch_success (length batch) (length messages) w.counters;
        })
        | err _ ↦ elim (leb 2 (length batch)) [
          | true ↦
              elim (handle_within n (take (half (length batch)) batch) (record w {
                tables = step.0;
                counters = record_batch_split (length batch) w.counters;
              })) [ none ↦ none | some w' ↦ handle_within n (drop (half (length batch)) batch) w' ]
          | false ↦ some (handle_alone batch (record w { tables = step.0 }))
        ]
      ]

  unfoldable pub handle_message_batch : List QueuedMessageWrite → Writer S → Option (Writer S)
  unfolding handle_within
  handle_message_batch batch w = handle_within (suc (length batch)) batch w
