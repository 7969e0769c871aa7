-- ===== src/Retry.antt =====
-- Retries: the decorator `exponential_backoff` of libs/platform/retry.py, and `fetch_with_retry` of
-- ingestor/fetch.py (`Retry/Fetch`). The guarded function is a parameter that tells how each attempt
-- ends; a run of the wrapper is its ending, the number of attempts made and the sleeps in order.
pub mod Fetch
pub mod Backoff
pub mod Delays
mod Examples
use data_pipeline_async.Base.{
  ℕ, zero, suc, ◌+◌, ◌*◌, ◌^◌, min, Bool, Option, none, some, List, [], ◌∷◌, ltb, if◌then◌else◌,
}
use data_pipeline_async.Base.Int.{ℤ, pos, sub_ℕ, ◌+ℤ◌}

module _ (A E : Type 0) where
  -- How one attempt ends; a cancellation is no `Exception`.
  pub data Outcome : Type 0 where
    returned : A → Outcome
    raised : E → Outcome
    cancelled : Outcome

  -- How the wrapper ends.
  pub data Ending : Type 0 where
    value : A → Ending
    error : E → Ending
    cancelled_error : Ending
    no_exception : Ending  -- the loop made no attempt

  pub record Run : Type 0 where
    pub ending : Ending
    pub attempts : ℕ
    pub sleeps : List ℤ

module _ {A E : Type 0} where
  abbrev pub count_attempt : Run A E → Run A E
  count_attempt r = record r { attempts = suc r.attempts }

  -- A failed attempt, with its sleep, and then the rest of the run.
  abbrev pub slept : ℤ → Run A E → Run A E
  slept d r = record r { attempts = suc r.attempts; sleeps = d ∷ r.sleeps }

  abbrev pub stop : Ending A E → Run A E
  stop x = record { ending = x; attempts = 0; sleeps = [] }

-- `_apply_jitter`; `draw` is what `random.uniform` answers.
pub apply_jitter : (ℤ → ℤ → ℤ) → ℤ → ℤ → ℤ → ℤ
apply_jitter draw base_value min_jitter max_jitter = base_value +ℤ draw min_jitter max_jitter

pub record Policy : Type 0 where
  pub max_retries : ℕ
  pub base_delay : ℕ
  pub max_delay : ℕ
  pub jitter : Bool

-- The delay before jitter, `min(base_delay * (2**attempt), max_delay)`.
abbrev pub raw_delay : Policy → ℕ → ℕ
raw_delay p attempt = min (p.base_delay * 2 ^ attempt) p.max_delay

-- The sleep after a failed attempt, in fifths of a clock tick, so that the jitter of 0.2 times the
-- delay is a whole number: `raw_delay` fifths.
pub delay_after : (ℕ → ℤ → ℤ → ℤ) → Policy → ℕ → ℤ
unfolding apply_jitter
delay_after draw p attempt =
    let jitter_amount = raw_delay p attempt in
    let delay = pos (5 * raw_delay p attempt) in
    if p.jitter
    then apply_jitter (draw attempt) delay (sub_ℕ 0 jitter_amount) (pos jitter_amount)
    else delay

-- The wrapper of `exponential_backoff`: `func k` is how attempt `k` ends, `draw k` what
-- `random.uniform` answers after it, and `interrupted k` says that the sleep after it is cancelled.
module _ {A E : Type 0} (func : ℕ → Outcome A E) (draw : ℕ → ℤ → ℤ → ℤ) (interrupted : ℕ → Bool)
    (p : Policy) where
  -- Behind the loop: `assert last_exception is not None; raise last_exception`. Without an exception
  -- the ending is `no_exception`, here the `AssertionError`.
  abbrev raise_last : Option E → Ending A E
  raise_last none = no_exception
  raise_last (some e) = error e

  -- `for attempt in range(max_retries + 1)`, with the rounds left.
  pub backoff_loop : ℕ → ℕ → Option E → Run A E
  backoff_loop zero attempt last = stop (raise_last last)
  backoff_loop (suc left) attempt last = elim (func attempt) [
    | returned a ↦ count_attempt (stop (value a))
    | cancelled ↦ count_attempt (stop cancelled_error)
    | raised e ↦
        let rest = backoff_loop left (attempt + 1) (some e) in
        if ltb attempt p.max_retries
        then slept (delay_after draw p attempt)
            (if interrupted attempt then stop cancelled_error else rest)
        else count_attempt rest
  ]

  pub exponential_backoff : Run A E
  unfolding backoff_loop
  exponential_backoff = backoff_loop (p.max_retries + 1) 0 none
