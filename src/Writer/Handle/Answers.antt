-- ===== src/Writer/Handle/Answers.antt =====
-- The writer answers each message of a batch, and each once.
use mathlib.Core.List.{map}
use backend_sketch.Prelude.{
  ℕ, zero, suc, ◌≡◌, refl, sym, ap, ◌∙◌, Bool, true, false, some, List, [], ◌∷◌, ◌++◌, length, take,
  drop, leb, arith, Bool-cases, inl, inr, ◌<◌, ◌≤◌, ◌+◌,
}
use backend_sketch.Prelude.Result.{err, Result-cases}
use backend_sketch.Prelude.Append.{
  append_assoc, append_nil, map-append, take-drop, length-take_le, length-drop,
}
use backend_sketch.Api.{MessageDto}
use backend_sketch.Writer.Handle.{
  JsMsg, QueuedMessageWrite, message_of, Processor, Writer, half, ack_all, single_done,
  single_failed, handle_single_message_write, try_batch, handle_alone, handle_within,
  handle_message_batch, fanout, record_batch_split, record_batch_success,
}

abbrev messages_of : List QueuedMessageWrite → List JsMsg
messages_of = map (λ q. q.msg)

half_bounds : (n : ℕ) → (n ≤ half n + half n) × (half n + half n ≤ n + 1)
unfolding half
half_bounds zero = omega arith
half_bounds (suc zero) = omega arith
half_bounds (suc (suc n)) = ground (arith, half_bounds n)

-- The responses of `w'` are those of `w` and one for each message of the batch, in order.
abbrev AnsweredAfter {ℓ} : {S : Type ℓ} → Writer S → List QueuedMessageWrite → Writer S → Type 0
AnsweredAfter w batch w' =
    map message_of w'.responses ≡ map message_of w.responses ++ messages_of batch

ack_all_messages :
    (batch : List QueuedMessageWrite) → map message_of (ack_all batch) ≡ messages_of batch
ack_all_messages [] = refl
ack_all_messages (q ∷ qs) = ap (λ ms. q.msg ∷ ms) (ack_all_messages qs)

module _ {ℓ} {S : Type ℓ} {E : Type 0} (processor : Processor S E) (most : ℕ) (disable : Bool) where
  handle_single_answers :
      (q : QueuedMessageWrite) (w : Writer S)
      → AnsweredAfter w (q ∷ []) (handle_single_message_write processor most disable q w)
  unfolding handle_single_message_write single_done single_failed
  handle_single_answers q w =
      let step =
        processor.process_command q.command.origin_connection_id q.delivery_attempt most q.command
          w.tables in
      elim (Result-cases step.1) [
        | inl (e, h) ↦ rw (h, handle_single_message_write) (map-append message_of w.responses _)
        | inr (m, h) ↦ elim (Result-cases (fanout processor most disable 100 step.0).1) [
          | inl (e, k) ↦
              rw (h, k, handle_single_message_write) (map-append message_of w.responses _)
          | inr (u, k) ↦
              rw (h, k, handle_single_message_write) (map-append message_of w.responses _)
        ]
      ]

  handle_alone_answers :
      (batch : List QueuedMessageWrite) (w : Writer S)
      → leb 2 (length batch) ≡ false
      → AnsweredAfter w batch (handle_alone processor most disable batch w)
  unfolding handle_alone
  handle_alone_answers [] w h = sym (append_nil _)
  handle_alone_answers (q ∷ []) w h = handle_single_answers q w
  handle_alone_answers (q ∷ p ∷ qs) w h = absurd (ground arith)

  AnsweredAll : ℕ → List QueuedMessageWrite → Writer S → Type ℓ
  AnsweredAll n batch w =
      (w' : Writer S) × (handle_within processor most disable n batch w ≡ some w')
      × AnsweredAfter w batch w'

  AnsweredAfter-trans :
      (xs ys batch : List QueuedMessageWrite) (u v w : Writer S)
      → xs ++ ys ≡ batch
      → AnsweredAfter u xs v
      → AnsweredAfter v ys w
      → AnsweredAfter u batch w
  AnsweredAfter-trans xs ys batch u v w e f g =
      g
      ∙ ap (λ ms. ms ++ messages_of ys) f
      ∙ append_assoc (map message_of u.responses) (messages_of xs) (messages_of ys)
      ∙ ap (λ ms. map message_of u.responses ++ ms) (sym (map-append (λ q. q.msg) xs ys))
      ∙ ap (λ b. map message_of u.responses ++ messages_of b) e

  -- The states that the handler goes through.
  abbrev succeeded : List QueuedMessageWrite → List MessageDto → Writer S → Writer S
  succeeded batch ms w = record {
    tables = (try_batch processor most disable batch w.tables).0;
    responses = w.responses ++ ack_all batch;
    counters = record_batch_success (length batch) (length ms) w.counters;
  }

  abbrev split : List QueuedMessageWrite → Writer S → Writer S
  split batch w = record w {
    tables = (try_batch processor most disable batch w.tables).0;
    counters = record_batch_split (length batch) w.counters;
  }

  handle_within-split :
      (n : ℕ) (batch : List QueuedMessageWrite) (w : Writer S) (e : E)
      → (try_batch processor most disable batch w.tables).1 ≡ err e
      → leb 2 (length batch) ≡ true
      → ((v : Writer S) → AnsweredAll n (drop (half (length batch)) batch) v)
      → AnsweredAll n (take (half (length batch)) batch) (split batch w)
      → AnsweredAll (suc n) batch w
  unfolding AnsweredAll handle_within
  handle_within-split n batch w e t large later (v, h, f) =
      let (w', k, g) = later v in
      (
        w',
        rw (t, large, handle_within) (rw h k),
        AnsweredAfter-trans (take (half (length batch)) batch) (drop (half (length batch)) batch)
            batch (split batch w) v w' (take-drop (half (length batch)) batch) f g,
      )

  handle_within_answers :
      (n : ℕ) (batch : List QueuedMessageWrite) (w : Writer S)
      → length batch < n
      → AnsweredAll n batch w
  unfolding AnsweredAll handle_within
  handle_within_answers zero batch w h = absurd (omega arith)
  handle_within_answers (suc n) batch w h =
      let step = try_batch processor most disable batch w.tables in
      elim (Result-cases step.1) [
        | inr (ms, t) ↦ (
          succeeded batch ms w,
          rw (t, handle_within) refl,
          map-append message_of w.responses (ack_all batch)
              ∙ ap (λ ms. map message_of w.responses ++ ms) (ack_all_messages batch),
        )
        | inl (e, t) ↦ elim (Bool-cases (leb 2 (length batch))) [
          | inr small ↦ (
            handle_alone processor most disable batch (record w { tables = step.0 }),
            rw (t, small, handle_within) refl,
            handle_alone_answers batch (record w { tables = step.0 }) small,
          )
          | inl large ↦
              let first_half = take (half (length batch)) batch in
              let rest = drop (half (length batch)) batch in
              handle_within-split n batch w e t large
                (λ v. handle_within_answers n rest v (
                  ground
                    (arith, length-drop (half (length batch)) batch, half_bounds (length batch))))
                (handle_within_answers n first_half (split batch w) (
                  ground (
                    arith,
                    length-take_le (half (length batch)) batch,
                    half_bounds (length batch),
                  )))
        ]
      ]

  -- A batch is handled to its end, however the processor fails: each message is answered once, in
  -- the order of the batch, and no other message is.
  pub handle_message_batch_answers :
      (batch : List QueuedMessageWrite) (w : Writer S)
      → (w' : Writer S) × (handle_message_batch processor most disable batch w ≡ some w')
        × (map message_of w'.responses ≡ map message_of w.responses ++ map (λ q. q.msg) batch)
  unfolding handle_message_batch AnsweredAll
  handle_message_batch_answers batch w =
      handle_within_answers (suc (length batch)) batch w (omega arith)
