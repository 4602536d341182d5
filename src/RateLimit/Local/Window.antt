-- ===== src/RateLimit/Local/Window.antt =====
-- What a check does to the windows, the sweep included, and how many checks one window lets pass.
use backend_sketch.Prelude.{
  ℕ, ◌+◌, ◌-◌, ◌≤◌, ◌<◌, ◌≡◌, refl, ◌∙◌, ◌&&◌, Bool, true, String, Option, none, some, List, [],
  ◌∷◌, All, arith, ltb, leb, ◌==◌, string_eq, Bool-cases, eq_of_test, inl, inr, if◌then◌else◌,
}
use backend_sketch.Prelude.JsMap.{JsMap, Distinct, get-set, set-Distinct}
use backend_sketch.Prelude.JsMap
use backend_sketch.RateLimit.{RateLimitOptions}
use backend_sketch.RateLimit.Local.{
  LocalWindow, LocalLimiter, window_key, window_ms, sweep, cleanup_expired_windows, current_window,
  count_in, check,
}

-- The window that still counts at the time `t`.
abbrev pub live_at : ℕ → Option LocalWindow → Option LocalWindow
live_at t none = none
live_at t (some w) = if ltb t w.expires_at_ms then some w else none

eq-some_of_live_at :
    (t : ℕ) (o : Option LocalWindow) {w : LocalWindow} → live_at t o ≡ some w → o ≡ some w
eq-some_of_live_at t none h = h
eq-some_of_live_at t (some v) h = ground arith

get-sweep :
    (now : ℕ) (k : String) (m : JsMap String LocalWindow)
    → Distinct m
    → JsMap.get k (sweep now m) ≡ live_at now (JsMap.get k m)
unfolding sweep JsMap.get
get-sweep now k [] d = refl
get-sweep now k ((j, w) ∷ m) d = ground (arith, get-sweep now k m d.1)

sweep-Distinct : (now : ℕ) (m : JsMap String LocalWindow) → Distinct m → Distinct (sweep now m)
unfolding sweep JsMap.get
sweep-Distinct now [] d = tt
sweep-Distinct now ((j, w) ∷ m) d = ground (arith, sweep-Distinct now m d.1, get-sweep now j m d.1)

-- A sweep at `now` is not seen at any later time.
live_at-cleanup :
    (now t bound checks : ℕ) (k : String) (m : JsMap String LocalWindow)
    → Distinct m
    → now ≤ t
    → live_at t (JsMap.get k (cleanup_expired_windows m now bound checks))
      ≡ live_at t (JsMap.get k m)
unfolding cleanup_expired_windows
live_at-cleanup now t bound checks k m d h = ground (arith, get-sweep now k m d)

cleanup-Distinct :
    (now bound checks : ℕ) (m : JsMap String LocalWindow)
    → Distinct m
    → Distinct (cleanup_expired_windows m now bound checks)
unfolding cleanup_expired_windows
cleanup-Distinct now bound checks m d = ground (arith, sweep-Distinct now m d)

module _ (max_entries : Option ℕ) (now : ℕ) (key : String) (o : RateLimitOptions) (s : LocalLimiter)
    (d : Distinct s.windows) where
  -- The window that the check counts in, as it is afterwards.
  abbrev counted : LocalWindow
  counted = count_in (current_window (JsMap.get (window_key o key) s.windows) now (window_ms o))

  pub check-Distinct : Distinct (check max_entries now key o s).0.windows
  unfolding check
  check-Distinct = cleanup-Distinct now _ _ _ (set-Distinct (window_key o key) counted s.windows d)

  pub live_at-check :
      (t : ℕ) (k : String)
      → now ≤ t
      → live_at t (JsMap.get k (check max_entries now key o s).0.windows) ≡ (
          if window_key o key == k
          then live_at t (some counted)
          else live_at t (JsMap.get k s.windows))
  unfolding check
  live_at-check t k h =
      live_at-cleanup now t _ _ k (JsMap.set (window_key o key) counted s.windows)
        (set-Distinct (window_key o key) counted s.windows d) h
      ∙ rw (get-set (window_key o key) k counted s.windows) (ground arith)

  -- The result is the count in that window, held against the limit.
  pub check-result :
      ((check max_entries now key o s).1.count ≡ counted.count)
      × ((check max_entries now key o s).1.allowed ≡ leb counted.count o.limit)
  unfolding check
  check-result = (refl, refl)

-- One call of `check`.
pub record Check : Type 0 where
  pub time : ℕ
  pub key : String
  pub options : RateLimitOptions

module _ (max_entries : Option ℕ) where
  unfoldable pub step : Check → LocalLimiter → LocalLimiter × Bool
  step c s = let (s', r) = check max_entries c.time c.key c.options s in (s', r.allowed)

  -- How many of a run's checks of the window key `k` are allowed.
  unfoldable pub allowed_of : String → List Check → LocalLimiter → ℕ
  unfolding step
  allowed_of k [] s = 0
  allowed_of k (c ∷ cs) s =
      let (s', allowed) = step c s in
      (if (window_key c.options c.key == k) && allowed then 1 else 0) + allowed_of k cs s'

-- The checks of `k` come before the time `e`, with a limit of at most `most`.
abbrev pub Within : String → ℕ → ℕ → Check → Type 0
Within k e most c =
    (c.time < e) × ((window_key c.options c.key == k) ≡ true → c.options.limit ≤ most)

module _ (max_entries : Option ℕ) (k : String) (most : ℕ) where
  -- While a window lasts it is the one that is counted in, and no sweep takes it away.
  get-step :
      (c : Check) (s : LocalLimiter) (w : LocalWindow)
      → Distinct s.windows
      → JsMap.get k s.windows ≡ some w
      → c.time < w.expires_at_ms
      → JsMap.get k (step max_entries c s).0.windows
        ≡ some (if window_key c.options c.key == k then count_in w else w)
  unfolding step count_in current_window
  get-step c s w d h lt =
      eq-some_of_live_at c.time (JsMap.get k (step max_entries c s).0.windows)
        (ground (arith, live_at-check max_entries c.time c.key c.options s d c.time k))

  allowed_of_live :
      (cs : List Check) (s : LocalLimiter) (w : LocalWindow)
      → Distinct s.windows
      → JsMap.get k s.windows ≡ some w
      → All (Within k w.expires_at_ms most) cs
      → allowed_of max_entries k cs s ≤ most - w.count
  unfolding allowed_of count_in current_window
  allowed_of_live [] s w d h a = omega arith
  allowed_of_live (c ∷ cs) s w d h a =
      let s' = (step max_entries c s).0 in
      let d' = check-Distinct max_entries c.time c.key c.options s d in
      let g = get-step c s w d h a.0.0 in
      let r = check-result max_entries c.time c.key c.options s d in
      elim (Bool-cases (window_key c.options c.key == k)) [
        | inl same ↦ ground (
          arith,
          eq_of_test (window_key c.options c.key) k same,
          allowed_of_live cs s' (count_in w) d' (rw same at g) a.1,
        )
        | inr other ↦ ground (arith, allowed_of_live cs s' w d' (rw other at g) a.1)
      ]

window_ms_pos : (o : RateLimitOptions) → 0 < window_ms o
unfolding window_ms
window_ms_pos o = omega arith

current_window_fresh :
    (now ms : ℕ) (o : Option LocalWindow)
    → live_at now o ≡ none
    → current_window o now ms ≡ record { count = 0; expires_at_ms = now + ms }
unfolding current_window
current_window_fresh now ms none h = refl
current_window_fresh now ms (some w) h = ground arith

-- The checks of one window key that a run allows, from the check that opens a window until that
-- window expires, are at most the limit: for a limiter with distinct keys, a first check with no
-- live window of its key, and any checks, of that key with the same limit or a lower one, that all
-- come before the new window's end.
pub allowed_of-le-limit :
    (max_entries : Option ℕ) (c : Check) (cs : List Check) (s : LocalLimiter)
    → Distinct s.windows
    → live_at c.time (JsMap.get (window_key c.options c.key) s.windows) ≡ none
    → All (Within (window_key c.options c.key) (c.time + window_ms c.options) c.options.limit) cs
    → allowed_of max_entries (window_key c.options c.key) (c ∷ cs) s ≤ c.options.limit
unfolding allowed_of count_in current_window
allowed_of-le-limit max_entries c cs s d h a =
    let k = window_key c.options c.key in
    let ms = window_ms c.options in
    let w : LocalWindow = record { count = 1; expires_at_ms = c.time + ms } in
    let fresh = current_window_fresh c.time ms (JsMap.get k s.windows) h in
    let r = check-result max_entries c.time c.key c.options s d in
    let s' = (check max_entries c.time c.key c.options s).0 in
    let g : JsMap.get k s'.windows ≡ some w = eq-some_of_live_at c.time (JsMap.get k s'.windows) (
      ground (
        arith,
        fresh,
        window_ms_pos c.options,
        live_at-check max_entries c.time c.key c.options s d c.time k,
      )) in
    ground (
      arith,
      fresh,
      allowed_of_live max_entries k c.options.limit cs s' w
          (check-Distinct max_entries c.time c.key c.options s d) g a,
    )
