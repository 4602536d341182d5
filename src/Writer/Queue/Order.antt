-- ===== src/Writer/Queue/Order.antt =====
-- The queue loses no message and keeps their order.
use backend_sketch.Prelude.{
  ℕ, ◌≡◌, refl, sym, ap, ◌∙◌, false, List, [], ◌∷◌, ◌++◌, length, Bool-cases, leb, ltb, inl, inr,
}
use backend_sketch.Prelude.Append.{append_assoc, append_nil}
use backend_sketch.Writer.Handle.{QueuedMessageWrite}
use backend_sketch.Writer.Queue.{
  Batch, WriterOptions, max_batch_size, max_batch_concurrency, Queue, pump_from, pump,
  flush_current_batch, schedule_flush, receive,
}

abbrev pub concat : List Batch → Batch
concat [] = []
concat (b ∷ bs) = b ++ concat bs

-- The messages that the queue holds, in the order in which their batches start.
abbrev pub messages : Queue → Batch
messages q = concat q.in_flight ++ (concat q.pending_batches ++ q.current_batch)

concat-append : (xs ys : List Batch) → concat (xs ++ ys) ≡ concat xs ++ concat ys
concat-append [] ys = refl
concat-append (b ∷ xs) ys =
    ap (λ zs. b ++ zs) (concat-append xs ys) ∙ sym (append_assoc b (concat xs) (concat ys))

pump_from-messages :
    (most : ℕ) (running pending : List Batch)
    → concat (pump_from most running pending).0 ++ concat (pump_from most running pending).1
      ≡ concat running ++ concat pending
unfolding pump_from
pump_from-messages most running [] = refl
pump_from-messages most running (b ∷ bs) = elim (Bool-cases (ltb (length running) most)) [
  | inr stop ↦ rw (stop, pump_from) refl
  | inl go ↦
      rw (go, pump_from)
        (pump_from-messages most (running ++ b ∷ []) bs
          ∙ ap (λ xs. xs ++ concat bs)
              (concat-append running (b ∷ []) ∙ ap (λ xs. concat running ++ xs) (append_nil b))
          ∙ append_assoc (concat running) b (concat bs))
]

module _ (o : WriterOptions) where
  pump-messages : (q : Queue) → messages (pump o q) ≡ messages q
  unfolding pump
  pump-messages q =
      let started = pump_from (max_batch_concurrency o) q.in_flight q.pending_batches in
      sym (append_assoc (concat started.0) (concat started.1) q.current_batch)
      ∙ ap (λ xs. xs ++ q.current_batch)
          (pump_from-messages (max_batch_concurrency o) q.in_flight q.pending_batches)
      ∙ append_assoc (concat q.in_flight) (concat q.pending_batches) q.current_batch

  -- A flush moves messages, and neither loses one nor changes their order.
  flush-messages : (q : Queue) → messages (flush_current_batch o q) ≡ messages q
  unfolding flush_current_batch
  flush-messages q = elim (Bool-cases (ltb 0 (length q.current_batch))) [
    | inr nothing ↦ rw (nothing, flush_current_batch) refl
    | inl there ↦
        rw (there, flush_current_batch)
          (pump-messages (record q {
            current_batch = [];
            pending_batches = q.pending_batches ++ q.current_batch ∷ [];
            flush_timer = false;
          })
            ∙ ap (λ xs. concat q.in_flight ++ xs)
                (append_nil (concat (q.pending_batches ++ q.current_batch ∷ []))
                  ∙ concat-append q.pending_batches (q.current_batch ∷ [])
                  ∙ ap (λ xs. concat q.pending_batches ++ xs) (append_nil q.current_batch)))
  ]

  -- A message that the loop takes is the last that the queue holds, and none before it is lost or
  -- overtaken.
  pub receive-messages :
      (x : QueuedMessageWrite) (q : Queue) → messages (receive o x q) ≡ messages q ++ x ∷ []
  unfolding receive schedule_flush
  receive-messages x q =
      let filled : Queue = record q { current_batch = q.current_batch ++ x ∷ [] } in
      let added : messages filled ≡ messages q ++ x ∷ [] =
        ap (λ xs. concat q.in_flight ++ xs)
          (sym (append_assoc (concat q.pending_batches) q.current_batch (x ∷ [])))
        ∙ sym (
            append_assoc (concat q.in_flight) (concat q.pending_batches ++ q.current_batch)
              (x ∷ [])) in
      elim (Bool-cases (leb (max_batch_size o) (length filled.current_batch))) [
        | inl reached ↦ rw (reached, receive) (flush-messages filled ∙ added)
        | inr below ↦ elim (Bool-cases (leb o.batch_flush_ms 0)) [
          | inl at_once ↦
              rw (below, at_once, receive, schedule_flush) (flush-messages filled ∙ added)
          | inr later ↦ rw (below, later, receive, schedule_flush) added
        ]
      ]
