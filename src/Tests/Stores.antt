-- ===== src/Tests/Stores.antt =====
-- The theorems on sockets and new chats at concrete inputs.
use backend_sketch.Prelude.{
  any, ◌==◌, string_eq, ℕ, ◌<◌, ◌≡◌, ◌≢◌, refl, true, false, String, some, List, [], ◌∷◌, All,
  AllPairs, string_eq, nat_eq,
}
use native.Mathlib.Decide.{ℕ_discrete}
use backend_sketch.Db.{is_member}
use backend_sketch.Chats.Rooms.{open_group_chat}
use backend_sketch.Chats.Rooms.Members.{open_group_chat_members}
use backend_sketch.Prelude.Result.{ok}
use backend_sketch.RateLimit.{RateLimitOptions}
use backend_sketch.RateLimit.Shared.{
  RedisCounters, redis_key, check_rate_limit, Counted, check_rate_limit_refuses,
}
use backend_sketch.Tests.Data.{one_room}

abbrev ones : ℕ → String
ones n = "1"

open_group_chat_members_example :
    let c = open_group_chat ones "g1" 70 "alice" one_room "Team" ("bob" ∷ "alice" ∷ "bob" ∷ []) in
    AllPairs ◌≢◌ c.body.member_ids
    × All (λ u. is_member u "g1" c.db.members ≡ true) c.body.member_ids
    × ((rest : List String) × (c.body.member_ids ≡ "alice" ∷ rest))
    × ((u : String)
        → any (λ x. x == u) c.body.member_ids
          ≡ any (λ x. x == u) ("alice" ∷ "bob" ∷ "alice" ∷ "bob" ∷ []))
open_group_chat_members_example =
    open_group_chat_members ones "g1" 70 "alice" one_room "Team" ("bob" ∷ "alice" ∷ "bob" ∷ [])

-- A server that counts each key as the fourth.
abbrev fourth : RedisCounters ℕ String
fourth = record { incr = λ k s. (s, ok 4); expire = λ k n s. (s, ok tt) }

abbrev three_a_second : RateLimitOptions
three_a_second = record { key_prefix = "ws:send"; limit = 3; window_seconds = 1 }

refused : (check_rate_limit (some fourth) "alice" three_a_second 0).1.allowed ≡ false
unfolding check_rate_limit ℕ_discrete
refused = refl

check_rate_limit_refuses_example :
    (n : ℕ) × (3 < n)
    × Counted (some fourth) (redis_key three_a_second "alice") 0 n
    × ((check_rate_limit (some fourth) "alice" three_a_second 0).1.count ≡ n)
check_rate_limit_refuses_example =
    check_rate_limit_refuses (some fourth) "alice" three_a_second 0 refused
