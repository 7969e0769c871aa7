-- ===== src/Limits/Examples.antt =====
-- Runs of the limiters of ingestor/rate_limiting_advanced.py.
use data_pipeline_async.Base.{ℕ, ◌+◌, ◌-◌, ◌*◌, ◌≤◌, ◌≡◌, refl, List, [], ◌∷◌, Text, arith}
use data_pipeline_async.Limits.{new_window_limiter, is_allowed, TokenBucketLimiter}
use data_pipeline_async.Limits.Bucket
use data_pipeline_async.Limits.Bucket.{Request, total, grants_bounded_by_refill, wait_is_exact}
use data_pipeline_async.Limits.Rolling.{history, times, rolling, window_answers_exactly}

abbrev alice : Text
alice = b'a' ∷ []

abbrev bob : Text
bob = b'b' ∷ []

abbrev requests : List (Text × ℕ)
requests = (alice, 5) ∷ (alice, 58) ∷ (bob, 59) ∷ (alice, 61) ∷ (alice, 66) ∷ []

window_answers_exactly_example :
    let (s, log) = history requests (new_window_limiter 2 60) [] in
    let (_, allowed, remaining) = is_allowed alice 70 s in
    (allowed, remaining) ≡ rolling 2 60 70 (times alice log)
window_answers_exactly_example = window_answers_exactly 2 60 requests alice 70 (omega arith)

-- The request at 61 is refused, the one at 66 is let through.
let_through : times alice (history requests (new_window_limiter 2 60) []).1 ≡ 5 ∷ 58 ∷ 66 ∷ []
unfolding history is_allowed new_window_limiter
let_through = refl

abbrev empty_bucket : TokenBucketLimiter
empty_bucket = record { capacity = 3; unit = 60; refill = 5; buckets = (alice, (0, 10)) ∷ [] }

-- After a long idle time Alice asks for more than a full bucket.
abbrev asks : List Request
asks =
    record { key = alice; tokens = 3; created = 910; now = 910 }
    ∷ record { key = bob; tokens = 1; created = 911; now = 912 }
    ∷ record { key = alice; tokens = 1; created = 913; now = 913 }
    ∷ []

grants_bounded_by_refill_example :
    let (_, log) = Bucket.history asks empty_bucket [] in
    total alice log * 60 ≤ 3 * 60 + (920 - 910) * 5
grants_bounded_by_refill_example =
    grants_bounded_by_refill empty_bucket 910 920 asks alice (omega arith) (omega arith)
