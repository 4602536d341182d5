-- ===== src/Redis/Cache.antt =====
-- The messages that are kept for a repeated request, for five minutes:
-- backend/packages/shared-redis/src/idempotency.ts on the in-memory Redis. `write` and `parse` are
-- the texts of `JSON.stringify` and `JSON.parse`.
use Prim.Native.String
use native.Mathlib.Decide.{ℕ_discrete}
use backend_sketch.Prelude.{ℕ, ◌+◌, ◌<◌, ◌≡◌, refl, ap, ◌∙◌, String, Option, none, some, string_eq}
use backend_sketch.Prelude.JsMap.{JsMap}
use backend_sketch.Prelude.JsMap
use backend_sketch.Api.{MessageDto}
use backend_sketch.RoomEvents.{truthy}
use backend_sketch.Redis.{Entry, Store, text, text_of, get, put, deadline}
use backend_sketch.Redis.Entries.{get_entry-Live, get-set_same, has_expired-later}

abbrev pub ttl_seconds : ℕ
ttl_seconds = 300

-- `messageIdempotencyKey`
unfoldable pub message_idempotency_key : String → String → String
message_idempotency_key sender request =
    String.◌++◌ "idempotency:message:" (String.◌++◌ sender (String.◌++◌ ":" request))

module _ (write : MessageDto → String) (parse : String → Option MessageDto) where
  -- `cached ? JSON.parse(cached) : null`, none too where the parse throws.
  unfoldable pub parse_cached : Option String → Option MessageDto
  unfolding truthy
  parse_cached cached = elim (truthy cached) [ none ↦ none | some t ↦ parse t ]

  -- `getCachedMessage`; the store is none without a Redis.
  unfoldable pub get_cached_message :
      ℕ → String → Option String → Option Store → Option Store × Option MessageDto
  unfolding truthy get message_idempotency_key parse_cached
  get_cached_message now sender request none = (none, none)
  get_cached_message now sender request (some s) = elim (truthy request) [
    | none ↦ (some s, none)
    | some r ↦
        let read = get now (message_idempotency_key sender r) s in
        (some read.0, parse_cached read.1)
  ]

  -- `cacheMessage`
  unfoldable pub cache_message :
      ℕ → String → Option String → MessageDto → Option Store → Option Store
  unfolding truthy put message_idempotency_key
  cache_message now sender request m none = none
  cache_message now sender request m (some s) = elim (truthy request) [
    | none ↦ some s
    | some r ↦ some (put now (message_idempotency_key sender r) (write m) (some ttl_seconds) s)
  ]

  deadline_of_ttl : (now : ℕ) → deadline now (some ttl_seconds) ≡ some (now + 300000)
  unfolding deadline ℕ_discrete
  deadline_of_ttl now = refl

  read_of_put :
      (now later : ℕ) (key t : String) (s : Store)
      → later < now + 300000
      → (get later key (put now key t (some ttl_seconds) s)).1 ≡ some t
  unfolding get put text_of
  read_of_put now later key t s soon =
      let e : Entry = record { value = text t; expires_at = deadline now (some ttl_seconds) } in
      ap (λ r. (text_of r).1)
        (get_entry-Live later key e (JsMap.set key e s) (
          get-set_same key e s,
          has_expired-later later (now + 300000) e (deadline_of_ttl now) soon,
        ))

  kept :
      (now : ℕ) (sender request : String) (m : MessageDto) (s : Store)
      → truthy (some request) ≡ some request
      → cache_message now sender (some request) m (some s)
        ≡ some (put now (message_idempotency_key sender request) (write m) (some ttl_seconds) s)
  unfolding cache_message
  kept now sender request m s named = rw (named, cache_message) refl

  found :
      (now : ℕ) (sender request : String) (s : Store)
      → truthy (some request) ≡ some request
      → (get_cached_message now sender (some request) (some s)).1
        ≡ parse_cached (get now (message_idempotency_key sender request) s).1
  unfolding get_cached_message
  found now sender request s named = rw (named, get_cached_message) refl

  -- A message that was kept, with a text that is not empty and parses to it, for a request that is not
  -- empty, is what a repeated request finds as long as five minutes are not over.
  pub get_cached_message-cache_message :
      (now later : ℕ) (sender request : String) (m : MessageDto) (s : Store)
      → truthy (some (write m)) ≡ some (write m)
      → parse (write m) ≡ some m
      → truthy (some request) ≡ some request
      → later < now + 300000
      → (get_cached_message later sender
          (some request)
          (cache_message now sender (some request) m (some s))).1
        ≡ some m
  unfolding parse_cached
  get_cached_message-cache_message now later sender request m s full json named soon =
      let key = message_idempotency_key sender request in
      let st = put now key (write m) (some ttl_seconds) s in
      ap (λ (x : Option Store). (get_cached_message later sender (some request) x).1)
        (kept now sender request m s named)
      ∙ (found later sender request st named
          ∙ (ap parse_cached (read_of_put now later key (write m) s soon)
              ∙ rw (full, parse_cached) json))
