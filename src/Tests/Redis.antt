-- ===== src/Tests/Redis.antt =====
-- The theorems on the in-memory Redis and what stands on it at concrete inputs.
use native.Mathlib.Decide.{ℕ_discrete}
use backend_sketch.Prelude.{
  ℕ, ◌+◌, ◌*◌, ◌<◌, true, false, not, String, Option, none, some, [], any, ◌==◌, string_eq, nat_eq,
  ◌≡◌, refl, All, str_discrete, arith, ◌&&◌,
}
use backend_sketch.Prelude.JsMap
use backend_sketch.Prelude.Result.{ok, err}
use backend_sketch.Api.{MessageDto}
use backend_sketch.Api
use backend_sketch.RateLimit.{RateLimitOptions}
use backend_sketch.RateLimit.Shared.{RedisCounters, redis_key, held_against, check_rate_limit}
use backend_sketch.RoomEvents.{RoomEvent, truthy}
use backend_sketch.Redis.{Store, Call, get_entry, get_set, incr, expire}
use backend_sketch.Redis.Counter.{counter, AnswersAsFake, check_rate_limit_counts}
use backend_sketch.Redis.Presence.{
  user_connections_key, is_user_online, register_presence, unregister_presence,
}
use backend_sketch.Redis.Presence.Alive.{alive}
use backend_sketch.Redis.Presence.Laws.{register_presence-online, unregister_presence_lem}
use backend_sketch.Redis.Cache.{get_cached_message, cache_message, get_cached_message-cache_message}
use backend_sketch.Redis.Events.{
  RawRoomEvent, room_event_pattern, room_event, publish_room_message, parse_room_event,
}
use backend_sketch.Redis.Events.Laws.{raw_of, one_line, calls, publish_room_message_reaches}
use backend_sketch.Redis.{p_subscribe, is_line_end}

-- The in-memory client at a time; a text that is no number makes its call fail.
abbrev fake : ℕ → RedisCounters Store String
fake now = record {
  incr = λ key s. (
    (incr (λ t. none) now key s).0,
    elim (incr (λ t. none) now key s).1 [ none ↦ err "NaN" | some n ↦ ok n ],
  );
  expire = λ key seconds s. ((expire now key seconds s).0, ok tt);
}

fake-AnswersAsFake : AnswersAsFake (fake 5) (λ t. none) 5
fake-AnswersAsFake = (λ key s s' n h. rw h refl, λ key seconds s s' there h. rw h refl)

abbrev ten_a_second : RateLimitOptions
ten_a_second = record { key_prefix = "ws:send"; limit = 10; window_seconds = 1 }

check_rate_limit_counts_example :
    (((get_entry 5 (redis_key ten_a_second "alice") []).1 ≡ none)
      → ((check_rate_limit (some (fake 5)) "alice" ten_a_second []).1 ≡ held_against ten_a_second 1)
        × (JsMap.get
              (redis_key ten_a_second "alice")
              (check_rate_limit (some (fake 5)) "alice" ten_a_second []).0
            ≡ some (counter 1 (5 + 1 * 1000))))
    × ((k d : ℕ)
        → JsMap.get (redis_key ten_a_second "alice") [] ≡ some (counter k d)
        → 0 < k
        → 5 < d
        → ((check_rate_limit (some (fake 5)) "alice" ten_a_second []).1
            ≡ held_against ten_a_second (k + 1))
          × (JsMap.get
                (redis_key ten_a_second "alice")
                (check_rate_limit (some (fake 5)) "alice" ten_a_second []).0
              ≡ some (counter (k + 1) d)))
check_rate_limit_counts_example =
    check_rate_limit_counts (fake 5) (λ t. none) 5 "alice" ten_a_second [] fake-AnswersAsFake

alice_has_a_name : (◌==◌ {A = String} "alice" "") ≡ false
unfolding str_discrete
alice_has_a_name = refl

register_presence-online_example :
    (is_user_online 20 "alice" (register_presence 10 "alice" "c1" []).0).1 ≡ true
register_presence-online_example =
    register_presence-online 10 20 "alice" "c1" [] alice_has_a_name (omega arith)

abbrev one_online : Store
one_online = (register_presence 10 "alice" "c1" []).0

unregister_presence_lem_example :
    (unregister_presence 20 "alice" "c1" one_online).1
    ≡ not (
        any
          (λ d. not (d == "c1") && alive 20 d one_online)
          (get_set 20 (user_connections_key "alice") one_online).1)
unregister_presence_lem_example = unregister_presence_lem 20 "alice" "c1" one_online

abbrev message : MessageDto
message = record {
  id = "m1";
  chat_id = "lobby";
  sender_id = "alice";
  type = Api.text;
  body = "hello";
  created_at = 5;
  delivery_status = none;
}

abbrev write_one : MessageDto → String
write_one m = "m"

abbrev read_one : String → Option MessageDto
read_one t = some message

m_is_full : truthy (some "m") ≡ some "m"
unfolding truthy str_discrete
m_is_full = refl

r_is_full : truthy (some "r1") ≡ some "r1"
unfolding truthy str_discrete
r_is_full = refl

get_cached_message-cache_message_example :
    (get_cached_message write_one read_one 20 "alice"
      (some "r1")
      (cache_message write_one read_one 10 "alice" (some "r1") message (some []))).1
    ≡ some message
get_cached_message-cache_message_example =
    get_cached_message-cache_message write_one read_one 10 20 "alice" "r1" message [] m_is_full refl
      r_is_full (omega arith)

abbrev write_event : RoomEvent → String
write_event e = "event"

abbrev read_event : String → Option RawRoomEvent
read_event t = some (raw_of (room_event message none))

lobby_is_flat : one_line "lobby" ≡ true
unfolding one_line is_line_end ℕ_discrete
lobby_is_flat = refl

publish_room_message_reaches_example :
    (calls 3 (publish_room_message write_event message none (p_subscribe room_event_pattern 3 []))
      ≡ true)
    × All
        (λ (c : Call). parse_room_event read_event c.message ≡ some (room_event message none))
        (publish_room_message write_event message none (p_subscribe room_event_pattern 3 []))
publish_room_message_reaches_example =
    publish_room_message_reaches write_event read_event message none 3 [] refl lobby_is_flat
