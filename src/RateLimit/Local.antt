-- ===== src/RateLimit/Local.antt =====
-- The in-process limiter of realtime-rate-limit.ts: one counter for each window key, and a sweep of
-- the expired ones. The clock `nowMs` is an argument of each call.
pub mod Window
pub mod Memory
use Prim.Native.String
use backend_sketch.Prelude.{
  ℕ, zero, suc, ◌+◌, ◌*◌, ◌%◌, max, Bool, true, false, not, ◌&&◌, ◌||◌, String, Option, none, some,
  List, [], ◌∷◌, length, ltb, leb, ◌==◌, nat_eq, string_eq, if◌then◌else◌,
}
use backend_sketch.Prelude.JsMap.{JsMap}
use backend_sketch.Prelude.JsMap
use backend_sketch.RateLimit.{RateLimitOptions, RateLimitResult}

pub record LocalWindow : Type 0 where
  pub count : ℕ
  pub expires_at_ms : ℕ

-- The variables that the closure of `createLocalRealtimeRateLimiter` holds.
pub record LocalLimiter : Type 0 where
  pub windows : JsMap String LocalWindow
  pub checks_since_cleanup : ℕ

-- The state at creation.
abbrev pub create : LocalLimiter
create = record { windows = []; checks_since_cleanup = 0 }

-- `${keyPrefix}:${key}`
unfoldable pub window_key : RateLimitOptions → String → String
window_key o key = String.◌++◌ o.key_prefix (String.◌++◌ ":" key)

unfoldable pub window_ms : RateLimitOptions → ℕ
window_ms o = max 1 (o.window_seconds * 1000)

-- The loop of `cleanupExpiredWindows`.
unfoldable pub sweep : ℕ → JsMap String LocalWindow → JsMap String LocalWindow
sweep now [] = []
sweep now ((k, w) ∷ m) =
    let rest = sweep now m in if leb w.expires_at_ms now then rest else (k, w) ∷ rest

unfoldable pub cleanup_expired_windows :
    JsMap String LocalWindow → ℕ → ℕ → ℕ → JsMap String LocalWindow
cleanup_expired_windows windows now max_entries checks =
    if leb (length windows) max_entries && not (checks % 1000 == 0)
    then windows
    else sweep now windows

-- The window that a check counts in: the current one while it lasts, else a new one.
unfoldable pub current_window : Option LocalWindow → ℕ → ℕ → LocalWindow
current_window none now ms = record { count = 0; expires_at_ms = now + ms }
current_window (some w) now ms =
    if ltb now w.expires_at_ms then w else record { count = 0; expires_at_ms = now + ms }

unfoldable pub count_in : LocalWindow → LocalWindow
count_in w = record w { count = w.count + 1 }

-- `Math.max(1, options.maxEntries ?? 50_000)`
unfoldable pub entries_bound : Option ℕ → ℕ
entries_bound none = 50000
entries_bound (some n) = max 1 n

-- `check`, at the time `now`.
unfoldable pub check :
    Option ℕ → ℕ → String → RateLimitOptions → LocalLimiter → LocalLimiter × RateLimitResult
unfolding current_window count_in
check max_entries now key o s =
    let k = window_key o key in
    let w = count_in (current_window (JsMap.get k s.windows) now (window_ms o)) in
    let checks = s.checks_since_cleanup + 1 in
    (
      record {
        windows =
            cleanup_expired_windows (JsMap.set k w s.windows) now (entries_bound max_entries)
              checks;
        checks_since_cleanup = checks;
      },
      record { allowed = leb w.count o.limit; count = w.count },
    )
