-- ===== src/RateLimit/Local/Memory.antt =====
-- The sweep bounds what the limiter holds.
use backend_sketch.Prelude.{
  ℕ, ◌%◌, ◌≤◌, ◌<◌, ◌⊎◌, inl, inr, String, Option, [], ◌∷◌, All, length, arith, Bool-cases, leb,
  ◌==◌, nat_eq, not, ◌&&◌,
}
use backend_sketch.Prelude.JsMap.{JsMap}
use backend_sketch.RateLimit.{RateLimitOptions}
use backend_sketch.RateLimit.Local.{
  LocalWindow, LocalLimiter, sweep, cleanup_expired_windows, entries_bound, check,
}

abbrev pub Live : ℕ → String × LocalWindow → Type 0
Live now e = now < e.1.expires_at_ms

sweep-All_Live : (now : ℕ) (m : JsMap String LocalWindow) → All (Live now) (sweep now m)
unfolding sweep
sweep-All_Live now [] = tt
sweep-All_Live now ((k, w) ∷ m) = ground (arith, sweep-All_Live now m)

cleanup_bounded :
    (m : JsMap String LocalWindow) (now bound checks : ℕ)
    → (length (cleanup_expired_windows m now bound checks) ≤ bound)
      ⊎ All (Live now) (cleanup_expired_windows m now bound checks)
unfolding cleanup_expired_windows
cleanup_bounded m now bound checks =
    elim (Bool-cases (leb (length m) bound && not (checks % 1000 == 0))) [
      | inl kept ↦ inl (rw kept (ground arith))
      | inr swept ↦ inr (rw swept (sweep-All_Live now m))
    ]

-- After a check the limiter holds at most `maxEntries` windows, or only windows that have not
-- expired; this holds whatever the limiter held before.
pub check-bounded :
    (max_entries : Option ℕ) (now : ℕ) (key : String) (o : RateLimitOptions) (s : LocalLimiter)
    → (length (check max_entries now key o s).0.windows ≤ entries_bound max_entries)
      ⊎ All (Live now) (check max_entries now key o s).0.windows
unfolding check
check-bounded max_entries now key o s = cleanup_bounded _ now (entries_bound max_entries) _
