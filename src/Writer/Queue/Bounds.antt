-- ===== src/Writer/Queue/Bounds.antt =====
-- The bounds on what the queue holds, and that nothing waits without a reason.
use backend_sketch.Prelude.{
  ℕ, zero, suc, ◌≡◌, refl, true, false, List, [], ◌∷◌, ◌++◌, length, All, All-append, arith,
  Bool-cases, leb, ltb, ◌+◌, ◌*◌, ◌≤◌, ◌<◌, ◌⊎◌, inl, inr,
}
use backend_sketch.Writer.Handle.{QueuedMessageWrite}
use backend_sketch.Writer.Queue.{
  Batch, WriterOptions, max_batch_size, max_batch_concurrency, Queue, pump_from, pump,
  has_room_for_more, remove_at, flush_current_batch, schedule_flush, receive, finish, Step,
  received, flushed, finished, Reach, started, after,
}

abbrev Sized : ℕ → Batch → Type 0
Sized most b = (0 < length b) × (length b ≤ most)

pub record IsBounded (o : WriterOptions) (q : Queue) : Type 0 where
  pub concurrent : length q.in_flight ≤ max_batch_concurrency o
  pub busy : (length q.pending_batches ≡ 0) ⊎ (length q.in_flight ≡ max_batch_concurrency o)
  pub pressed : length q.pending_batches ≤ max_batch_concurrency o * 2
  pub full : (length q.pending_batches < max_batch_concurrency o * 2) ⊎ (length q.current_batch ≡ 0)
  pub unfilled : length q.current_batch < max_batch_size o
  pub timed : (length q.current_batch ≡ 0) ⊎ (q.flush_timer ≡ true)
  pub pending_sized : All (Sized (max_batch_size o)) q.pending_batches
  pub running_sized : All (Sized (max_batch_size o)) q.in_flight

length-append_one : {A : Type 0} (xs : List A) (x : A) → length (xs ++ x ∷ []) ≡ length xs + 1
length-append_one [] x = refl
length-append_one (y ∷ xs) x = ground (arith, length-append_one xs x)

-- What the loop of `pump` leaves.
record Pumped (most size : ℕ) (running pending running' pending' : List Batch) : Type 0 where
  within : length running' ≤ most
  at_work : (length pending' ≡ 0) ⊎ (length running' ≡ most)
  fewer : length pending' ≤ length pending
  waits : All (Sized size) pending'
  runs : All (Sized size) running'

pump_from-Pumped :
    (most size : ℕ) (running pending : List Batch)
    → length running ≤ most
    → All (Sized size) running
    → All (Sized size) pending
    → Pumped most size running pending
        (pump_from most running pending).0
        (pump_from most running pending).1
unfolding pump_from
pump_from-Pumped most size running [] h r p = record {
  within = h;
  at_work = inl refl;
  fewer = omega arith;
  waits = tt;
  runs = r;
}
pump_from-Pumped most size running (b ∷ bs) h r p = elim (Bool-cases (ltb (length running) most)) [
  | inr stop ↦
      rw (stop, pump_from)
        record {
          within = h;
          at_work = inr (ground arith);
          fewer = omega arith;
          waits = p;
          runs = r;
        }
  | inl go ↦
      let ih =
        pump_from-Pumped most size (running ++ b ∷ []) bs
          (ground (arith, length-append_one running b))
          (All-append (Sized size) running (b ∷ []) r (p.0, tt)) p.1 in
      rw (go, pump_from)
        record {
          within = ih.within;
          at_work = ih.at_work;
          fewer = ground (arith, ih.fewer);
          waits = ih.waits;
          runs = ih.runs;
        }
]

module _ (o : WriterOptions) where
  pump-IsBounded :
      (q : Queue)
      → length q.in_flight ≤ max_batch_concurrency o
      → length q.pending_batches ≤ max_batch_concurrency o * 2
      → (length q.pending_batches < max_batch_concurrency o * 2) ⊎ (length q.current_batch ≡ 0)
      → length q.current_batch < max_batch_size o
      → (length q.current_batch ≡ 0) ⊎ (q.flush_timer ≡ true)
      → All (Sized (max_batch_size o)) q.pending_batches
      → All (Sized (max_batch_size o)) q.in_flight
      → IsBounded o (pump o q)
  unfolding pump
  pump-IsBounded q within pressed full unfilled timed waits runs =
      let p =
        pump_from-Pumped (max_batch_concurrency o) (max_batch_size o) q.in_flight q.pending_batches
          within runs waits in
      record {
        concurrent = p.within;
        busy = p.at_work;
        pressed = ground (arith, p.fewer);
        full = ground (arith, p.fewer, full);
        unfilled = unfilled;
        timed = timed;
        pending_sized = p.waits;
        running_sized = p.runs;
      }

  -- A batch that is filled up to its size is flushed.
  flush-IsBounded :
      (q : Queue)
      → length q.in_flight ≤ max_batch_concurrency o
      → (length q.pending_batches ≡ 0) ⊎ (length q.in_flight ≡ max_batch_concurrency o)
      → length q.pending_batches ≤ max_batch_concurrency o * 2
      → (length q.pending_batches < max_batch_concurrency o * 2) ⊎ (length q.current_batch ≡ 0)
      → length q.current_batch ≤ max_batch_size o
      → All (Sized (max_batch_size o)) q.pending_batches
      → All (Sized (max_batch_size o)) q.in_flight
      → IsBounded o (flush_current_batch o q)
  unfolding flush_current_batch
  flush-IsBounded q within busy pressed full fits waits runs =
      elim (Bool-cases (ltb 0 (length q.current_batch))) [
        | inr none_there ↦
            rw (none_there, flush_current_batch)
              record {
                concurrent = within;
                busy = busy;
                pressed = pressed;
                full = full;
                unfilled = ground arith;
                timed = inl (ground arith);
                pending_sized = waits;
                running_sized = runs;
              }
        | inl there ↦
            rw (there, flush_current_batch)
              (pump-IsBounded
                (record q {
                  current_batch = [];
                  pending_batches = q.pending_batches ++ q.current_batch ∷ [];
                  flush_timer = false;
                })
                within (ground (arith, length-append_one q.pending_batches q.current_batch, full))
                (inr refl) (omega arith) (inl refl)
                (All-append (Sized (max_batch_size o)) q.pending_batches (q.current_batch ∷ [])
                  waits ((ground arith, fits), tt))
                runs)
      ]

  -- Where the loop goes on, fewer batches wait than may.
  room_free :
      (q : Queue)
      → has_room_for_more o q ≡ true
      → IsBounded o q
      → length q.pending_batches < max_batch_concurrency o * 2
  unfolding has_room_for_more
  room_free q room b = ground (arith, b.busy)

  receive-IsBounded :
      (q : Queue) (x : QueuedMessageWrite)
      → has_room_for_more o q ≡ true
      → IsBounded o q
      → IsBounded o (receive o x q)
  unfolding receive schedule_flush
  receive-IsBounded q x room b =
      let filled : Queue = record q { current_batch = q.current_batch ++ x ∷ [] } in
      let more = length-append_one q.current_batch x in
      let free = room_free q room b in
      let flush_it = λ (fits : length filled.current_batch ≤ max_batch_size o).
        flush-IsBounded filled b.concurrent b.busy b.pressed (inl free) fits b.pending_sized
          b.running_sized in
      elim (Bool-cases (leb (max_batch_size o) (length filled.current_batch))) [
        | inl reached ↦ rw (reached, receive) (flush_it (ground (arith, more, b.unfilled)))
        | inr below ↦ elim (Bool-cases (leb o.batch_flush_ms 0)) [
          | inl at_once ↦
              rw (below, at_once, receive, schedule_flush)
                (flush_it (ground (arith, more, b.unfilled)))
          | inr later ↦
              rw (below, later, receive, schedule_flush)
                record {
                  concurrent = b.concurrent;
                  busy = b.busy;
                  pressed = b.pressed;
                  full = inl free;
                  unfilled = ground arith;
                  timed = inr refl;
                  pending_sized = b.pending_sized;
                  running_sized = b.running_sized;
                }
        ]
      ]

  remove_at-All {κ} :
      (P : Batch → Type κ) (n : ℕ) (bs : List Batch) → All P bs → All P (remove_at n bs)
  unfolding remove_at
  remove_at-All P n [] h = tt
  remove_at-All P zero (b ∷ bs) h = h.1
  remove_at-All P (suc n) (b ∷ bs) h = (h.0, remove_at-All P n bs h.1)

  length-remove_at_le : (n : ℕ) (bs : List Batch) → length (remove_at n bs) ≤ length bs
  unfolding remove_at
  length-remove_at_le n [] = omega arith
  length-remove_at_le zero (b ∷ bs) = omega arith
  length-remove_at_le (suc n) (b ∷ bs) = ground (arith, length-remove_at_le n bs)

  Step-IsBounded : (q q' : Queue) → Step o q q' → IsBounded o q → IsBounded o q'
  unfolding finish
  Step-IsBounded q q' (received x room) b = receive-IsBounded q x room b
  Step-IsBounded q q' flushed b =
      flush-IsBounded q b.concurrent b.busy b.pressed b.full (omega arith) b.pending_sized
        b.running_sized
  Step-IsBounded q q' (finished n h) b =
      pump-IsBounded (record q { in_flight = remove_at n q.in_flight })
        (ground (arith, length-remove_at_le n q.in_flight, b.concurrent)) b.pressed b.full
        b.unfilled b.timed b.pending_sized
        (remove_at-All (Sized (max_batch_size o)) n q.in_flight b.running_sized)

  -- In every state that the writer reaches: no more batches run than the concurrency allows, and a
  -- batch waits only when as many run; at most twice as many wait; a batch holds at least one
  -- message and no more than its size, and a message that is not yet in a batch has a timer that
  -- will flush it.
  pub Reach-IsBounded : (q : Queue) → Reach o q → IsBounded o q
  Reach-IsBounded q started = record {
    concurrent = omega arith;
    busy = inl refl;
    pressed = omega arith;
    full = inr refl;
    unfilled = omega arith;
    timed = inl refl;
    pending_sized = tt;
    running_sized = tt;
  }
  Reach-IsBounded q (after r s) = Step-IsBounded _ q s (Reach-IsBounded _ r)
