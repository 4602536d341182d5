-- ===== src/MessageWrites/Outbox/Claims.antt =====
-- Which rows a drain takes, and when a failed row is due again.
use backend_sketch.Prelude.{
  ℕ, ◌≤◌, ◌<◌, ◌≡◌, ◌+◌, Bool, true, false, String, none, some, List, All, arith, Bool-cases, inl,
  inr, ◌⊎◌, ◌==◌, any, ltb, string_eq,
}
use backend_sketch.Db.{MessageOutbox, OutboxStatus}
use backend_sketch.MessageWrites.Outbox.{retry_delay_ms}

-- A row that a drain may take: waiting or failed with no later time set, or under a lock older than
-- `stale`.
pub data IsDue (now stale : ℕ) (o : MessageOutbox) : Type 0 where
  waits :
      (o.status ≡ OutboxStatus.pending) ⊎ (o.status ≡ OutboxStatus.failed)
      → (o.next_attempt_at ≡ none) ⊎ ((t : ℕ) × (o.next_attempt_at ≡ some t) × (t ≤ now))
      → IsDue now stale o
  stalled :
      (t : ℕ)
      → o.status ≡ OutboxStatus.publishing
      → o.locked_at ≡ some t
      → t + stale < now
      → IsDue now stale o

-- A row of the id is in the list.
abbrev pub has_row : String → List MessageOutbox → Bool
has_row id = any (λ c. c.id == id)

-- Every row of the test is in the list.
abbrev Kept : (MessageOutbox → Bool) → List MessageOutbox → List MessageOutbox → Type 0
Kept p ks = All (λ o. (p o ≡ false) ⊎ (has_row o.id ks ≡ true))

Earlier : MessageOutbox → MessageOutbox → Type 0
Earlier a b = a.created_at ≤ b.created_at

full_delay : (a : ℕ) → 8 ≤ a → retry_delay_ms a ≡ 60000
unfolding retry_delay_ms
full_delay a h = grind arith

-- The delay before a retry lies between one second and one minute and does not fall with the number
-- of attempts; it is a full minute from the eighth attempt on.
pub retry_delay_ms_bounds :
    (a b : ℕ)
    → a ≤ b
    → (1000 ≤ retry_delay_ms a)
      × (retry_delay_ms a ≤ retry_delay_ms b)
      × (retry_delay_ms b ≤ 60000)
      × ((a < 8) ⊎ (retry_delay_ms a ≡ 60000))
unfolding retry_delay_ms
retry_delay_ms_bounds a b h = (
  omega arith,
  grind arith,
  omega arith,
  elim (Bool-cases (ltb a 8)) [
    | inl few ↦ inl (ground arith)
    | inr many ↦ inr (full_delay a (ground arith))
  ],
)
