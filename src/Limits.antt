-- ===== src/Limits.antt =====
-- The rate limiters of ingestor/rate_limiting_advanced.py. Times are clock ticks of
-- `time.monotonic()`, which does not go back. Each method runs under the limiter's lock, so it is one
-- step on the limiter's state.
pub mod Window
pub mod Rolling
pub mod Bursts
pub mod Bucket
mod Examples
use data_pipeline_async.Base.{
  ℕ, ◌+◌, ◌-◌, ◌*◌, ◌≤◌, min, Bool, true, false, Option, none, some, List, [], ◌∷◌, ◌++◌, length,
  leb, ltb, Text, text_key, if◌then◌else◌,
}
use data_pipeline_async.Base.Int.{ℤ, pos, pos_part, ◌+ℤ◌}
use data_pipeline_async.Base.Dict.{Dict, lookup, insert}

-- `max(0.0, base_value + random.uniform(min_jitter, max_jitter))`; `draw` is what `random.uniform`
-- answers.
unfoldable pub apply_jitter : (ℤ → ℤ → ℤ) → ℕ → ℤ → ℤ → ℕ
apply_jitter draw base_value min_jitter max_jitter =
    pos_part (pos base_value +ℤ draw min_jitter max_jitter)

pub record SlidingWindowLimiter : Type 0 where
  pub limit : ℕ
  pub window_seconds : ℕ
  pub windows : Dict Text (List ℕ)

unfoldable pub new_window_limiter : ℕ → ℕ → SlidingWindowLimiter
new_window_limiter n w = record { limit = n; window_seconds = w; windows = [] }

-- `self._windows[key]`, whose default is an empty deque.
abbrev pub window_of : Text → SlidingWindowLimiter → List ℕ
window_of key s = elim (lookup key s.windows) [ none ↦ [] | some w ↦ w ]

-- `while window and window[0] < cutoff: window.popleft()`, the cutoff being `now - window_seconds`.
unfoldable pub evict : ℕ → ℕ → List ℕ → List ℕ
evict width now [] = []
evict width now (t ∷ window) =
    let rest = evict width now window in if ltb (t + width) now then rest else t ∷ window

unfoldable pub is_allowed : Text → ℕ → SlidingWindowLimiter → SlidingWindowLimiter × Bool × ℕ
unfolding evict
is_allowed key now s =
    let window = evict s.window_seconds now (window_of key s) in
    let current_count = length window in
    if ltb current_count s.limit
    then (
      record s { windows = insert key (window ++ now ∷ []) s.windows },
      true,
      s.limit - current_count - 1,
    )
    else (record s { windows = insert key window s.windows }, false, 0)

-- `reset_in`; `max(0.0, …)` is the subtraction on ℕ.
unfoldable pub reset_in : (ℤ → ℤ → ℤ) → Text → ℕ → ℤ → ℤ → SlidingWindowLimiter → ℕ
unfolding apply_jitter
reset_in draw key now min_jitter max_jitter s = elim (window_of key s) [
  | [] ↦ 0
  | oldest ∷ _ ↦ apply_jitter draw (oldest + s.window_seconds - now) min_jitter max_jitter
]

-- A float of tokens is a whole number of parts, of which `unit` make one token; `refill` parts come
-- in with every tick.
pub record TokenBucketLimiter : Type 0 where
  pub capacity : ℕ
  pub unit : ℕ
  pub refill : ℕ
  pub buckets : Dict Text (ℕ × ℕ)

unfoldable pub new_bucket_limiter : ℕ → ℕ → ℕ → TokenBucketLimiter
new_bucket_limiter cap u r = record { capacity = cap; unit = u; refill = r; buckets = [] }

abbrev pub full : TokenBucketLimiter → ℕ
full s = s.capacity * s.unit

-- `self._buckets[key]`; the default is a full bucket, stamped with the time `created`.
abbrev pub bucket_of : Text → ℕ → TokenBucketLimiter → ℕ × ℕ
bucket_of key created s = elim (lookup key s.buckets) [ none ↦ (full s, created) | some b ↦ b ]

abbrev pub refilled : ℕ → ℕ × ℕ → TokenBucketLimiter → ℕ
refilled now (current, last_refill) s = min (full s) (current + (now - last_refill) * s.refill)

-- `consume`: the clock is read for the default bucket, at `created`, and once more, at `now`. The
-- answer is whether the tokens are granted, and the parts that remain.
unfoldable pub consume : Text → ℕ → ℕ → ℕ → TokenBucketLimiter → TokenBucketLimiter × Bool × ℕ
consume key tokens created now s =
    let current = refilled now (bucket_of key created s) s in
    if leb (tokens * s.unit) current
    then (
      record s { buckets = insert key (current - tokens * s.unit, now) s.buckets },
      true,
      current - tokens * s.unit,
    )
    else (record s { buckets = insert key (current, now) s.buckets }, false, current)

-- `seconds_until_token`, times the refill rate: the division `deficit / refill_per_second` is left
-- to the reader of the result, the jitter is given in the same measure. The clock is read for the
-- default bucket, at `created`, and once more, at `now`.
pub scaled_wait : (ℤ → ℤ → ℤ) → Text → ℕ → ℕ → ℤ → ℤ → TokenBucketLimiter → ℕ
unfolding apply_jitter
scaled_wait draw key created now min_jitter max_jitter s =
    let current = refilled now (bucket_of key created s) s in
    if leb s.unit current then 0 else apply_jitter draw (s.unit - current) min_jitter max_jitter
