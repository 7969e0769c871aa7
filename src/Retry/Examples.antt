-- ===== src/Retry/Examples.antt =====
-- Runs of `exponential_backoff` (libs/platform/retry.py) and of `fetch_with_retry`
-- (ingestor/fetch.py): the function fails twice and then answers, or fails for ever.
use data_pipeline_async.Base.{ℕ, zero, suc, ◌≡◌, refl, Bool, true, false, [], ◌∷◌, arith}
use data_pipeline_async.Base.Int.{ℤ, pos, ◌≤ℤ◌}
use data_pipeline_async.Retry.{
  Outcome, returned, raised, value, error, Policy, delay_after, exponential_backoff,
}
use data_pipeline_async.Retry.Backoff.{delays, backoff_ends, backoff_exhausts}
use data_pipeline_async.Retry.Delays.{jitter_passes_max_delay}
use data_pipeline_async.Retry.Fetch.{fetch_with_retry, fetch_exhausts}

abbrev policy : Policy
policy = record { max_retries = 3; base_delay = 10; max_delay = 25; jitter = true }

abbrev upper : ℕ → ℤ → ℤ → ℤ
upper k lo hi = hi

abbrev calm : ℕ → Bool
calm k = false

abbrev flaky : ℕ → Outcome ℕ ℕ
flaky (suc (suc zero)) = returned 42
flaky k = raised k

abbrev broken : ℕ → Outcome ℕ ℕ
broken k = raised k

abbrev same : ℕ → ℕ
same k = k

backoff_ends_example :
    exponential_backoff flaky upper calm policy
    ≡ record { ending = value 42; attempts = 3; sleeps = delays flaky upper calm policy 2 0 }
backoff_ends_example =
    backoff_ends flaky upper calm policy same (returned 42) (value 42) 2 (omega arith)
      (refl, (refl, tt)) (refl, (refl, tt)) refl refl

backoff_exhausts_example :
    exponential_backoff broken upper calm policy
    ≡ record { ending = error 3; attempts = 4; sleeps = delays broken upper calm policy 3 0 }
backoff_exhausts_example =
    backoff_exhausts broken upper calm policy same (refl, (refl, (refl, (refl, tt))))
      (refl, (refl, (refl, tt)))

abbrev shutdown : ℕ → Bool
shutdown zero = false
shutdown k = true

jitter_passes_max_delay_example : pos 126 ≤ℤ delay_after upper policy 2
jitter_passes_max_delay_example =
    jitter_passes_max_delay upper policy 2 refl (omega arith) (omega arith) refl

fetch_exhausts_example :
    fetch_with_retry broken calm 3
    ≡ record { ending = error 2; attempts = 3; sleeps = pos 1 ∷ pos 2 ∷ [] }
fetch_exhausts_example =
    fetch_exhausts broken calm 3 same 2 refl (refl, (refl, (refl, tt))) (refl, (refl, tt))
