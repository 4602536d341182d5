-- ===== src/Writer/Queue.antt =====
-- The queue of `startMessageWriter`: the batch that is filled, the batches that wait, and those that
-- are handled. A callback runs to its end before the next, so each is one step.
pub mod Bounds
pub mod Order
use backend_sketch.Prelude.{
  ℕ, zero, suc, max, ◌≡◌, Bool, true, false, List, [], ◌∷◌, ◌++◌, length, leb, ltb, if◌then◌else◌,
  ◌+◌, ◌*◌, ◌<◌, ◌&&◌, not,
}
use backend_sketch.Writer.Handle.{QueuedMessageWrite}

abbrev pub Batch : Type 0
Batch = List QueuedMessageWrite

pub record WriterOptions : Type 0 where
  pub batch_size : ℕ
  pub batch_flush_ms : ℕ
  pub batch_concurrency : ℕ

abbrev pub max_batch_size : WriterOptions → ℕ
max_batch_size o = max 1 o.batch_size

abbrev pub max_batch_concurrency : WriterOptions → ℕ
max_batch_concurrency o = max 1 o.batch_concurrency

-- `flush_timer` says whether the timer is set.
pub record Queue : Type 0 where
  pub current_batch : Batch
  pub pending_batches : List Batch
  pub in_flight : List Batch
  pub flush_timer : Bool

abbrev pub empty_queue : Queue
empty_queue = record {
  current_batch = [];
  pending_batches = [];
  in_flight = [];
  flush_timer = false;
}

-- The loop of `pump`: what is in flight, and what still waits.
unfoldable pub pump_from : ℕ → List Batch → List Batch → List Batch × List Batch
pump_from most running [] = (running, [])
pump_from most running (b ∷ bs) =
    let started = pump_from most (running ++ b ∷ []) bs in
    if ltb (length running) most then started else (running, b ∷ bs)

-- `inFlight` as the loop of `receive` sees it: room for another message.
unfoldable pub has_room_for_more : WriterOptions → Queue → Bool
has_room_for_more o q =
    not (leb (max_batch_concurrency o * 2) (length q.pending_batches) && ltb 0 (length q.in_flight))

-- A batch that is done leaves `inFlight`; `n` is its place there.
unfoldable pub remove_at : ℕ → List Batch → List Batch
remove_at n [] = []
remove_at zero (b ∷ bs) = bs
remove_at (suc n) (b ∷ bs) = b ∷ remove_at n bs

module _ (o : WriterOptions) where
  unfoldable pub pump : Queue → Queue
  unfolding pump_from
  pump q =
      let started = pump_from (max_batch_concurrency o) q.in_flight q.pending_batches in
      record q { in_flight = started.0; pending_batches = started.1 }

  unfoldable pub flush_current_batch : Queue → Queue
  unfolding pump
  flush_current_batch q =
      if ltb 0 (length q.current_batch)
      then pump (record q {
        current_batch = [];
        pending_batches = q.pending_batches ++ q.current_batch ∷ [];
        flush_timer = false;
      })
      else record q { flush_timer = false }

  unfoldable pub schedule_flush : Queue → Queue
  unfolding flush_current_batch
  schedule_flush q =
      if leb o.batch_flush_ms 0 then flush_current_batch q else record q { flush_timer = true }

  -- The rest of the loop's body, once a message is decoded.
  unfoldable pub receive : QueuedMessageWrite → Queue → Queue
  unfolding flush_current_batch schedule_flush
  receive x q =
      let q' : Queue = record q { current_batch = q.current_batch ++ x ∷ [] } in
      if leb (max_batch_size o) (length q'.current_batch)
      then flush_current_batch q'
      else schedule_flush q'

  -- `finally`
  unfoldable pub finish : ℕ → Queue → Queue
  unfolding pump remove_at
  finish n q = pump (record q { in_flight = remove_at n q.in_flight })

  -- What can happen: a message arrives where the loop waits for none, the timer fires or the writer
  -- closes, and a batch ends.
  pub data Step : Queue → Queue → Type 0 where
    received :
        {q : Queue} (x : QueuedMessageWrite) → has_room_for_more o q ≡ true → Step q (receive x q)
    flushed : {q : Queue} → Step q (flush_current_batch q)
    finished : {q : Queue} (n : ℕ) → n < length q.in_flight → Step q (finish n q)

  pub data Reach : Queue → Type 0 where
    started : Reach empty_queue
    after : {q q' : Queue} → Reach q → Step q q' → Reach q'
