-- ===== src/RateLimit/Shared.antt =====
-- The limiter on Redis, `checkRateLimit` of rate-limit.ts, and the choice between it and the
-- in-process one in realtime-rate-limit.ts.
use Prim.Native.String
use backend_sketch.Prelude.{
  ℕ, ◌≡◌, refl, ◌<◌, true, false, String, Option, none, some, ◌==◌, nat_eq, string_eq, leb,
  if◌then◌else◌, arith, Bool-cases, inl, inr,
}
use backend_sketch.Prelude.Result.{Result, ok, err, Result-cases}
use backend_sketch.RateLimit.{RateLimitOptions, RateLimitResult}
use backend_sketch.RateLimit.Local.{LocalLimiter, check}

-- The calls of the client that the limiter makes, on the server's state `S`; each may throw.
pub record RedisCounters {ℓ} (S : Type ℓ) (E : Type 0) : Type ℓ where
  pub incr : String → S → S × Result E ℕ
  pub expire : String → ℕ → S → S × Result E (Unit {0})

abbrev pub let_through : RateLimitResult
let_through = record { allowed = true; count = 0 }

-- `rate:${keyPrefix}:${key}`
unfoldable pub redis_key : RateLimitOptions → String → String
redis_key o key = String.◌++◌ "rate:" (String.◌++◌ o.key_prefix (String.◌++◌ ":" key))

abbrev pub held_against : RateLimitOptions → ℕ → RateLimitResult
held_against o count = record { allowed = leb count o.limit; count = count }

unfoldable pub check_rate_limit {ℓ} :
    {S : Type ℓ} {E : Type 0}
    → Option (RedisCounters S E)
    → String
    → RateLimitOptions
    → S
    → S × RateLimitResult
unfolding redis_key
check_rate_limit none key o s = (s, let_through)
check_rate_limit (some redis) key o s =
    let call = redis.incr (redis_key o key) s in
    elim call.1 [
      | err _ ↦ (call.0, let_through)
      | ok count ↦
          let set = redis.expire (redis_key o key) o.window_seconds call.0 in
          elim (count == 1) [
            | false ↦ (call.0, held_against o count)
            | true ↦ (set.0, elim set.1 [ err _ ↦ let_through | ok _ ↦ held_against o count ])
          ]
    ]

pub data RealtimeRateLimitMode : Type 0 where
  local redis off : RealtimeRateLimitMode

unfoldable pub parse_realtime_rate_limit_mode : Option String → RealtimeRateLimitMode
parse_realtime_rate_limit_mode none = local
parse_realtime_rate_limit_mode (some value) =
    if value == "redis" then redis else if value == "off" then off else local

-- `check` of the limiter that `createRealtimeRateLimiter` makes for a mode, with the state of both.
unfoldable pub realtime_check {ℓ} :
    {S : Type ℓ} {E : Type 0}
    → RealtimeRateLimitMode
    → Option (RedisCounters S E)
    → (max_entries : Option ℕ) → (now : ℕ) → String
    → RateLimitOptions
    → LocalLimiter × S
    → (LocalLimiter × S) × RateLimitResult
unfolding check_rate_limit
realtime_check redis server max_entries now key o (windows, s) =
    let r = check_rate_limit server key o s in ((windows, r.0), r.1)
realtime_check off server max_entries now key o st = (st, let_through)
realtime_check local server max_entries now key o (windows, s) =
    let r = check max_entries now key o windows in ((r.0, s), r.1)

-- The count that the server gave for the key.
abbrev pub Counted {ℓ} :
    {S : Type ℓ} {E : Type 0} → Option (RedisCounters S E) → String → S → ℕ → Type 0
Counted none k s n = ⊥
Counted {E = E} (some r) k s n = ◌≡◌ {A = Result E ℕ} (r.incr k s).1 (ok n)

over_limit : (o : RateLimitOptions) (n : ℕ) → (held_against o n).allowed ≡ false → o.limit < n
over_limit o n h = ground arith

-- A client is refused only when the server counted its key above the limit: without a server, or
-- when a call of it fails, everyone is let through.
pub check_rate_limit_refuses {ℓ} :
    {S : Type ℓ} {E : Type 0} (redis : Option (RedisCounters S E)) (key : String)
    (o : RateLimitOptions) (s : S)
    → (check_rate_limit redis key o s).1.allowed ≡ false
    → (n : ℕ) × (o.limit < n)
      × Counted redis (redis_key o key) s n
      × ((check_rate_limit redis key o s).1.count ≡ n)
unfolding check_rate_limit
check_rate_limit_refuses none key o s h = absurd (cc h)
check_rate_limit_refuses (some r) key o s h = elim (Result-cases (r.incr (redis_key o key) s).1) [
  | inl (e, failed) ↦ absurd (cc (rw (failed, check_rate_limit) at h))
  | inr (n, counted) ↦ elim (Bool-cases (n == 1)) [
    | inr later ↦
        let refused = rw (counted, later, check_rate_limit) at h in
        (n, over_limit o n refused, counted, rw (counted, later, check_rate_limit) refl)
    | inl first_one ↦
        let set = (r.expire (redis_key o key) o.window_seconds (r.incr (redis_key o key) s).0).1 in
        elim (Result-cases set) [
          | inl (e, failed) ↦ absurd (cc (rw (counted, first_one, failed, check_rate_limit) at h))
          | inr (u, done) ↦
              let refused = rw (counted, first_one, done, check_rate_limit) at h in
              (
                n,
                over_limit o n refused,
                counted,
                rw (counted, first_one, done, check_rate_limit) refl,
              )
        ]
  ]
]
