-- ===== src/Nats/Retry.antt =====
-- What the retries of a publication do.
use backend_sketch.Prelude.{
  ℕ, zero, suc, ◌≡◌, refl, ap, subst, Option, none, some, arith, ◌<◌, ◌+◌, ◌-◌, inl, inr, ◌⊎◌,
}
use backend_sketch.Prelude.Result.{Result, ok, err, Result-cases}
use backend_sketch.Nats.{
  MessageWriteCommand, at_least_one, try_from, publish_message_write_with_retry,
}

suc-at_least_one : (n : Option ℕ) → suc (at_least_one 3 n - 1) ≡ at_least_one 3 n
unfolding at_least_one
suc-at_least_one none = omega arith
suc-at_least_one (some n) = omega arith

module _ {ℓ} {S : Type ℓ} {E : Type 0} (publish : MessageWriteCommand → S → S × Result E (Unit {0}))
    (command : MessageWriteCommand) where
  -- The state after `n` calls.
  abbrev pub after_calls : ℕ → S → S
  after_calls zero s = s
  after_calls (suc n) s = after_calls n (publish command s).0

  abbrev pub FailsAt : S → ℕ → Type 0
  FailsAt s n = (e : E) × ((publish command (after_calls n s)).1 ≡ err e)

  -- `n` calls failed, the call after them gave the result `r`, and it succeeded or was the last one
  -- of `most`.
  pub record Tried (most : ℕ) (s : S) (r : S × Result E (Unit {0})) : Type ℓ where
    pub calls : ℕ
    pub within : calls < most
    pub failed : (k : ℕ) → k < calls → FailsAt s k
    pub result : publish command (after_calls calls s) ≡ r
    pub succeeded_or_last : (r.1 ≡ ok tt) ⊎ (calls + 1 ≡ most)

  fails_first :
      (s : S) (e : E)
      → (publish command s).1 ≡ err e
      → (n : ℕ) → ((k : ℕ) → k < n → FailsAt (publish command s).0 k)
      → (k : ℕ) → k < suc n
      → FailsAt s k
  fails_first s e h n later zero l = (e, h)
  fails_first s e h n later (suc k) l = later k (omega arith)

  try_from-Tried : (n : ℕ) (s : S) → Tried (suc n) s (try_from publish command n s)
  unfolding try_from
  try_from-Tried zero s = record {
    calls = 0;
    within = omega arith;
    failed = λ k h. absurd (omega arith);
    result = refl;
    succeeded_or_last = inr refl;
  }
  try_from-Tried (suc n) s = elim (Result-cases (publish command s).1) [
    | inr (u, h) ↦
        rw (h, try_from)
          record {
            calls = 0;
            within = omega arith;
            failed = λ k h. absurd (omega arith);
            result = ap (λ r. ((publish command s).0, r)) h;
            succeeded_or_last = inl refl;
          }
    | inl (e, h) ↦
        let ih = try_from-Tried n (publish command s).0 in
        rw (h, try_from)
          record {
            calls = suc ih.calls;
            within = ground (arith, ih.within);
            failed = fails_first s e h ih.calls ih.failed;
            result = ih.result;
            succeeded_or_last = ground (arith, ih.succeeded_or_last);
          }
  ]

  -- A publication is tried again after each failure, and no oftener than `attempts` says, which is
  -- taken as at least one: the calls before the last one failed, its result is the result of all,
  -- and it failed only if no attempt was left.
  pub publish_message_write_with_retry-Tried :
      (attempts : Option ℕ) (s : S)
      → Tried
          (at_least_one 3 attempts)
          s
          (publish_message_write_with_retry publish command attempts s)
  unfolding publish_message_write_with_retry
  publish_message_write_with_retry-Tried attempts s =
      subst (λ n. Tried n s (try_from publish command (at_least_one 3 attempts - 1) s))
        (suc-at_least_one attempts) (try_from-Tried (at_least_one 3 attempts - 1) s)
