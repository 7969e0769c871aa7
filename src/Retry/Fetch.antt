-- ===== src/Retry/Fetch.antt =====
-- `fetch_with_retry` of ingestor/fetch.py. `func k` is how call `k` of `fetch_from_external_api`
-- ends; the sleeps are whole seconds.
use data_pipeline_async.Base.{
  ℕ, zero, suc, ◌+◌, ◌-◌, ◌^◌, ◌<◌, ◌≡◌, refl, Bool, false, Option, none, some, List, [], ◌∷◌, ltb,
  ap, if◌then◌else◌, arith,
}
use data_pipeline_async.Base.Int.{ℤ, pos}
use data_pipeline_async.Retry.{
  Outcome, returned, raised, cancelled, Ending, value, error, cancelled_error, no_exception, Run,
  count_attempt, slept, stop,
}

module _ {A E : Type 0} (func : ℕ → Outcome A E) (interrupted : ℕ → Bool) (max_retries : ℕ) where
  -- Behind the loop: the last exception, or `Exception("Unknown error …")` if there was no attempt.
  abbrev raise_last : Option E → Ending A E
  raise_last none = no_exception
  raise_last (some e) = error e

  -- `for attempt in range(max_retries)`, with the rounds left.
  pub fetch_loop : ℕ → ℕ → Option E → Run A E
  fetch_loop zero attempt last = stop (raise_last last)
  fetch_loop (suc left) attempt last = elim (func attempt) [
    | returned a ↦ count_attempt (stop (value a))
    | cancelled ↦ count_attempt (stop cancelled_error)
    | raised e ↦
        let rest = fetch_loop left (attempt + 1) (some e) in
        if ltb (attempt + 1) max_retries
        then slept (pos (2 ^ attempt)) (if interrupted attempt then stop cancelled_error else rest)
        else count_attempt rest
  ]

  pub fetch_with_retry : Run A E
  unfolding fetch_loop
  fetch_with_retry = fetch_loop max_retries 0 none

  abbrev pub IsFailing : (ℕ → E) → ℕ → ℕ → Type 0
  IsFailing err zero from = Unit
  IsFailing err (suc k) from = (func from ≡ raised (err from)) × IsFailing err k (from + 1)

  abbrev pub IsUndisturbed : ℕ → ℕ → Type 0
  IsUndisturbed zero from = Unit
  IsUndisturbed (suc k) from = (interrupted from ≡ false) × IsUndisturbed k (from + 1)

  -- 2^from, 2^(from + 1), …
  abbrev pub delays : ℕ → ℕ → List ℤ
  delays zero from = []
  delays (suc k) from = pos (2 ^ from) ∷ delays k (from + 1)

  fetch_loop-succeeds :
      (err : ℕ → E) (a : A) (m k left from : ℕ) (last : Option E)
      → IsFailing err k from
      → IsUndisturbed k from
      → func m ≡ returned a
      → from + k ≡ m
      → from + left ≡ max_retries
      → k < left
      → fetch_loop left from last
        ≡ record { ending = value a; attempts = suc k; sleeps = delays k from }
  unfolding fetch_loop
  fetch_loop-succeeds err a m k zero from last f u e at size h = absurd (omega arith)
  fetch_loop-succeeds err a m zero (suc left) from last f u e at size h =
      let here : from ≡ m = omega arith in rw here (ground arith)
  fetch_loop-succeeds err a m (suc k) (suc left) from last f u e at size h =
      ground (arith, fetch_loop-succeeds err a m k left (from + 1) (some (err from)) f.1 u.1 e)

  -- When the first `k` calls fail, the sleeps after them are not interrupted and call `k`, with
  -- `k` below `max_retries`, returns a document, that is returned after `k + 1` calls and sleeps of
  -- 1, 2, 4, … seconds.
  pub fetch_succeeds :
      (err : ℕ → E) (a : A) (k : ℕ)
      → k < max_retries
      → IsFailing err k 0
      → IsUndisturbed k 0
      → func k ≡ returned a
      → fetch_with_retry ≡ record { ending = value a; attempts = k + 1; sleeps = delays k 0 }
  unfolding fetch_with_retry
  fetch_succeeds err a k room f u e =
      ground (arith, fetch_loop-succeeds err a k k max_retries 0 none f u e)

  fetch_loop-exhausts :
      (err : ℕ → E) (k from : ℕ) (last : Option E)
      → IsFailing err (suc k) from
      → IsUndisturbed k from
      → from + k + 1 ≡ max_retries
      → fetch_loop (suc k) from last ≡ record {
        ending = error (err (max_retries - 1));
        attempts = suc k;
        sleeps = delays k from;
      }
  unfolding fetch_loop
  fetch_loop-exhausts err zero from last f u at =
      let here : from ≡ max_retries - 1 = omega arith in ground (arith, ap err here)
  fetch_loop-exhausts err (suc k) from last f u at =
      ground (arith, fetch_loop-exhausts err k (from + 1) (some (err from)) f.1 u.1)

  -- When all calls fail and no sleep is interrupted, a positive `max_retries` is the number of calls
  -- made in all (not one more), with a sleep between every two of them, and the error of the last
  -- call is raised.
  pub fetch_exhausts :
      (err : ℕ → E) (k : ℕ)
      → k + 1 ≡ max_retries
      → IsFailing err (suc k) 0
      → IsUndisturbed k 0
      → fetch_with_retry ≡ record {
        ending = error (err (max_retries - 1));
        attempts = max_retries;
        sleeps = delays k 0;
      }
  unfolding fetch_with_retry
  fetch_exhausts err k size f u =
      let rounds : max_retries ≡ suc k = omega arith in
      ground (
        arith,
        rounds,
        fetch_loop-exhausts err k 0 none f u,
        ap (λ (n : ℕ). fetch_loop n 0 none) rounds,
      )

fetch_none :
    {A E : Type 0} (func : ℕ → Outcome A E) (interrupted : ℕ → Bool)
    → fetch_with_retry func interrupted 0
      ≡ record { ending = no_exception; attempts = 0; sleeps = [] }
unfolding fetch_with_retry
fetch_none func interrupted = refl
