-- ===== src/Redis/Counter.antt =====
-- The limiter of rate-limit.ts on the in-memory Redis: a counter of each window.
use backend_sketch.Prelude.{
  ℕ, ◌≡◌, ◌<◌, ◌+◌, ◌*◌, refl, ap, ◌∙◌, Bool, true, false, String, Option, none, some, ◌==◌, nat_eq,
  string_eq, arith, test_of_eq,
}
use backend_sketch.Prelude.JsMap.{JsMap, get-set, get-delete}
use backend_sketch.Prelude.JsMap
use backend_sketch.Prelude.Result.{Result, ok, err}
use backend_sketch.RateLimit.{RateLimitOptions, RateLimitResult}
use backend_sketch.RateLimit.Shared.{
  RedisCounters, redis_key, let_through, held_against, check_rate_limit,
}
use backend_sketch.Redis.{
  Entry, Store, text, get_entry, get, text_of, write_count, current_of, postpone, incr, expire,
  kept_deadline,
}
use backend_sketch.Redis.Numerals.{show, number-show}
use backend_sketch.Redis.Entries.{
  Live, get_entry-Live, get_entry_nothing, get_entry_absent, get-set_same, has_expired-later,
  has_expired-never,
}

-- The count of a window and its end.
unfoldable pub counter : ℕ → ℕ → Entry
counter k d = record { value = text (show k); expires_at = some d }

abbrev fresh : Entry
fresh = record { value = text (show 1); expires_at = none }

module _ (other : String → Option ℕ) (now : ℕ) (key : String) where
  incr_after :
      (s s' : Store) (x : Option Entry) (t : Option String)
      → get_entry now key s ≡ (s', x)
      → get_entry now key s' ≡ (s', x)
      → text_of (s', x) ≡ (s', t)
      → incr other now key s ≡ write_count key (s', x) (current_of other t)
  unfolding incr get
  incr_after s s' x t h again said =
      ap (λ r. write_count key (get_entry now key r.0) (current_of other r.1)) (ap text_of h ∙ said)
      ∙ ap (λ r. write_count key r (current_of other t)) again

  incr_first :
      (s : Store)
      → (get_entry now key s).1 ≡ none
      → (s' : Store) × (incr other now key s ≡ (s', some 1)) × (JsMap.get key s' ≡ some fresh)
  unfolding write_count current_of text_of kept_deadline
  incr_first s h =
      let a = get_entry_absent now key s h in
      (
        JsMap.set key fresh a.0,
        incr_after s a.0 none none a.1 (get_entry_nothing now key a.0 a.2) refl,
        get-set_same key fresh a.0,
      )

  incr_next :
      (k d : ℕ) (s : Store)
      → JsMap.get key s ≡ some (counter k d)
      → now < d
      → incr other now key s ≡ (JsMap.set key (counter (k + 1) d) s, some (k + 1))
  unfolding counter text_of write_count current_of kept_deadline
  incr_next k d s h later =
      let live =
        get_entry-Live now key (counter k d) s
          (h, has_expired-later now d (counter k d) refl later) in
      let full : (d == 0) ≡ false = ground arith in
      incr_after s s (some (counter k d)) (some (show k)) live live refl
      ∙ rw (number-show other k, full, write_count) refl

  expire-Live :
      (seconds : ℕ) (e : Entry) (s : Store)
      → Live now key e s
      → expire now key seconds s
        ≡ (JsMap.set key (record e { expires_at = some (now + seconds * 1000) }) s, true)
  unfolding expire postpone
  expire-Live seconds e s live =
      ap (λ r. postpone now key seconds r) (get_entry-Live now key e s live)

-- The client answers as the in-memory one does, where that answers a number.
abbrev pub AnswersAsFake :
    {E : Type 0} → RedisCounters Store E → (other : String → Option ℕ) → ℕ → Type 0
AnswersAsFake {E} redis other now =
    ((key : String) (s s' : Store) (n : ℕ)
      → incr other now key s ≡ (s', some n)
      → redis.incr key s ≡ (s', ok n))
    × ((key : String) (seconds : ℕ) (s s' : Store) (there : Bool)
        → expire now key seconds s ≡ (s', there)
        → redis.expire key seconds s ≡ (s', ok tt))

module _ {E : Type 0} (redis : RedisCounters Store E) (other : String → Option ℕ) (now : ℕ)
    (key : String) (o : RateLimitOptions) (s : Store) where
  abbrev held : String
  held = redis_key o key

  -- The answer to a call of `incr`.
  unfoldable answer : Store × Result E ℕ → Store × RateLimitResult
  answer call = elim call.1 [
    | err _ ↦ (call.0, let_through)
    | ok count ↦
        let set = redis.expire held o.window_seconds call.0 in
        elim (count == 1) [
          | false ↦ (call.0, held_against o count)
          | true ↦ (set.0, elim set.1 [ err _ ↦ let_through | ok _ ↦ held_against o count ])
        ]
  ]

  check_answers :
      (call : Store × Result E ℕ)
      → redis.incr held s ≡ call
      → check_rate_limit (some redis) key o s ≡ answer call
  unfolding check_rate_limit answer
  check_answers call h = ap answer h

  answer_later :
      (s' : Store) (n : ℕ) → (n == 1) ≡ false → answer (s', ok n) ≡ (s', held_against o n)
  unfolding answer
  answer_later s' n more = rw (more, answer) refl

  answer_first :
      (s' s'' : Store)
      → redis.expire held o.window_seconds s' ≡ (s'', ok tt)
      → answer (s', ok 1) ≡ (s'', held_against o 1)
  unfolding answer
  answer_first s' s'' h =
      let one : (◌==◌ {A = ℕ} 1 1) ≡ true = test_of_eq {A = ℕ} 1 1 refl in
      rw (one, answer)
        (ap
          (λ (set : Store × Result E (Unit {0})). (
            set.0,
            elim set.1 as (λ _. RateLimitResult) [ err _ ↦ let_through | ok _ ↦ held_against o 1 ],
          ))
          h)

  unfoldable Answers : ℕ → ℕ → Type 0
  Answers n d =
      ((check_rate_limit (some redis) key o s).1 ≡ held_against o n)
      × (JsMap.get held (check_rate_limit (some redis) key o s).0 ≡ some (counter n d))

  check_rate_limit-Answers :
      (s' : Store) (n d : ℕ)
      → check_rate_limit (some redis) key o s ≡ (s', held_against o n)
      → JsMap.get held s' ≡ some (counter n d)
      → Answers n d
  unfolding Answers
  check_rate_limit-Answers s' n d h g = (ap (λ r. r.1) h, ap (λ r. JsMap.get held r.0) h ∙ g)

  -- Over a client that answers as the in-memory one: the first check of a window opens it with the count
  -- one, and each later one before its end counts one more in it. The answer is the count, and whether
  -- it is within the limit, and the window ends when it did.
  pub check_rate_limit_counts :
      AnswersAsFake redis other now
      → (((get_entry now held s).1 ≡ none)
          → ((check_rate_limit (some redis) key o s).1 ≡ held_against o 1)
            × (JsMap.get held (check_rate_limit (some redis) key o s).0
                ≡ some (counter 1 (now + o.window_seconds * 1000))))
        × ((k d : ℕ)
            → JsMap.get held s ≡ some (counter k d)
            → 0 < k
            → now < d
            → ((check_rate_limit (some redis) key o s).1 ≡ held_against o (k + 1))
              × (JsMap.get held (check_rate_limit (some redis) key o s).0
                  ≡ some (counter (k + 1) d)))
  unfolding counter Answers
  check_rate_limit_counts fake = (
    λ h.
        let i = incr_first other now held s h in
        let opened = record fresh { expires_at = some (now + o.window_seconds * 1000) } in
        let e = fake.1 held o.window_seconds i.0 (JsMap.set held opened i.0) true (
          expire-Live other now held o.window_seconds fresh i.0
            (i.2, has_expired-never now fresh refl)) in
        check_rate_limit-Answers (JsMap.set held opened i.0) 1 (now + o.window_seconds * 1000)
          (check_answers (i.0, ok 1) (fake.0 held s i.0 1 i.1)
            ∙ answer_first i.0 (JsMap.set held opened i.0) e)
          (get-set_same held opened i.0),
    λ k d h some_counted later.
        let s' = JsMap.set held (counter (k + 1) d) s in
        let more : (k + 1 == 1) ≡ false = ground arith in
        check_rate_limit-Answers s' (k + 1) d
          (check_answers (s', ok (k + 1))
              (fake.0 held s s' (k + 1) (incr_next other now held k d s h later))
            ∙ answer_later s' (k + 1) more)
          (get-set_same held (counter (k + 1) d) s),
  )
