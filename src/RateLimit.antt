-- ===== src/RateLimit.antt =====
-- The limits that the HTTP and WebSocket services put on a client
-- (backend/packages/shared-redis/src/rate-limit.ts and
-- backend/services/realtime-service/src/modules/realtime/realtime-rate-limit.ts).
pub mod Local
pub mod Shared
use backend_sketch.Prelude.{ℕ, Bool, String}

pub record RateLimitOptions : Type 0 where
  pub key_prefix : String
  pub limit : ℕ
  pub window_seconds : ℕ

pub record RateLimitResult : Type 0 where
  pub allowed : Bool
  pub count : ℕ
