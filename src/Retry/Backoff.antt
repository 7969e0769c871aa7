-- ===== src/Retry/Backoff.antt =====
-- How the wrapper of `exponential_backoff` (libs/platform/retry.py) ends, how often it calls the
-- function, and how it sleeps in between.
use data_pipeline_async.Base.{
  ℕ, zero, suc, ◌+◌, ◌≤◌, ◌<◌, ◌≡◌, Bool, false, true, ap, List, [], ◌∷◌, Option, none, some, arith,
}
use data_pipeline_async.Base.Int.{ℤ}
use data_pipeline_async.Retry.{
  Outcome, returned, raised, cancelled, Ending, value, error, cancelled_error, Policy, delay_after,
  backoff_loop, exponential_backoff,
}

module _ {A E : Type 0} (func : ℕ → Outcome A E) (draw : ℕ → ℤ → ℤ → ℤ) (interrupted : ℕ → Bool)
    (p : Policy) where
  -- Attempts `from`, `from + 1`, … fail, `k` of them, by the errors `err`.
  abbrev pub IsFailing : (ℕ → E) → ℕ → ℕ → Type 0
  IsFailing err zero from = Unit
  IsFailing err (suc k) from = (func from ≡ raised (err from)) × IsFailing err k (from + 1)

  -- The sleeps after `k` attempts, `from` on, run to their end.
  abbrev pub IsUndisturbed : ℕ → ℕ → Type 0
  IsUndisturbed zero from = Unit
  IsUndisturbed (suc k) from = (interrupted from ≡ false) × IsUndisturbed k (from + 1)

  abbrev pub delays : ℕ → ℕ → List ℤ
  delays zero from = []
  delays (suc k) from = delay_after draw p from ∷ delays k (from + 1)

  -- A result or a cancellation ends the run at once.
  abbrev pub EndsAs : Outcome A E → Ending A E → Type 0
  EndsAs (returned a) x = x ≡ value a
  EndsAs cancelled x = x ≡ cancelled_error
  EndsAs (raised e) x = ⊥

  backoff_loop-ends :
      (err : ℕ → E) (o : Outcome A E) (x : Ending A E) (m k left from : ℕ) (last : Option E)
      → IsFailing err k from
      → IsUndisturbed k from
      → func m ≡ o
      → EndsAs o x
      → from + k ≡ m
      → m ≤ p.max_retries
      → k < left
      → backoff_loop func draw interrupted p left from last
        ≡ record { ending = x; attempts = suc k; sleeps = delays k from }
  unfolding backoff_loop
  backoff_loop-ends err o x m k zero from last f u d e at room h = absurd (omega arith)
  backoff_loop-ends err (returned a) x m zero (suc left) from last f u e d at room h =
      let here : from ≡ m = omega arith in rw here (ground arith)
  backoff_loop-ends err cancelled x m zero (suc left) from last f u e d at room h =
      let here : from ≡ m = omega arith in rw here (ground arith)
  backoff_loop-ends err (raised _) x m zero (suc left) from last f u e d at room h = absurd d
  backoff_loop-ends err o x m (suc k) (suc left) from last f u e d at room h =
      ground (arith, backoff_loop-ends err o x m k left (from + 1) (some (err from)) f.1 u.1 e d)

  -- When the first `k` attempts fail, their sleeps are not interrupted, and attempt `k`, which
  -- `max_retries` allows, returns a value or is cancelled, the run ends so after `k + 1` attempts,
  -- with exactly the `k` delays in between.
  pub backoff_ends :
      (err : ℕ → E) (o : Outcome A E) (x : Ending A E) (k : ℕ)
      → k ≤ p.max_retries
      → IsFailing err k 0
      → IsUndisturbed k 0
      → func k ≡ o
      → EndsAs o x
      → exponential_backoff func draw interrupted p
        ≡ record { ending = x; attempts = k + 1; sleeps = delays k 0 }
  unfolding exponential_backoff
  backoff_ends err o x k room f u e d =
      ground (arith, backoff_loop-ends err o x k k (p.max_retries + 1) 0 none f u e d)

  backoff_loop-exhausts :
      (err : ℕ → E) (k from : ℕ) (last : Option E)
      → IsFailing err (suc k) from
      → IsUndisturbed k from
      → from + k ≡ p.max_retries
      → backoff_loop func draw interrupted p (suc k) from last
        ≡ record { ending = error (err p.max_retries); attempts = suc k; sleeps = delays k from }
  unfolding backoff_loop
  backoff_loop-exhausts err zero from last f u at =
      let here : from ≡ p.max_retries = omega arith in ground (arith, ap err here)
  backoff_loop-exhausts err (suc k) from last f u at =
      ground (arith, backoff_loop-exhausts err k (from + 1) (some (err from)) f.1 u.1)

  -- When all `max_retries + 1` attempts fail and no sleep is interrupted, the run raises the error of
  -- the last attempt, after one delay between every two attempts and none behind the last.
  pub backoff_exhausts :
      (err : ℕ → E)
      → IsFailing err (suc p.max_retries) 0
      → IsUndisturbed p.max_retries 0
      → exponential_backoff func draw interrupted p ≡ record {
        ending = error (err p.max_retries);
        attempts = p.max_retries + 1;
        sleeps = delays p.max_retries 0;
      }
  unfolding exponential_backoff
  backoff_exhausts err f u = ground (arith, backoff_loop-exhausts err p.max_retries 0 none f u)

  backoff_loop-interrupted :
      (err : ℕ → E) (e : E) (m k left from : ℕ) (last : Option E)
      → IsFailing err k from
      → IsUndisturbed k from
      → func m ≡ raised e
      → interrupted m ≡ true
      → from + k ≡ m
      → m < p.max_retries
      → k < left
      → backoff_loop func draw interrupted p left from last
        ≡ record { ending = cancelled_error; attempts = suc k; sleeps = delays (suc k) from }
  unfolding backoff_loop
  backoff_loop-interrupted err e m k zero from last f u q c at room h = absurd (omega arith)
  backoff_loop-interrupted err e m zero (suc left) from last f u q c at room h =
      let here : from ≡ m = omega arith in rw here (ground arith)
  backoff_loop-interrupted err e m (suc k) (suc left) from last f u q c at room h =
      ground
        (arith, backoff_loop-interrupted err e m k left (from + 1) (some (err from)) f.1 u.1 q c)

  -- A cancellation that arrives while the run sleeps after failed attempt `k` is not suppressed: the
  -- run ends by it, and the function is not called again.
  pub backoff_interrupted :
      (err : ℕ → E) (e : E) (k : ℕ)
      → k < p.max_retries
      → IsFailing err k 0
      → IsUndisturbed k 0
      → func k ≡ raised e
      → interrupted k ≡ true
      → exponential_backoff func draw interrupted p
        ≡ record { ending = cancelled_error; attempts = k + 1; sleeps = delays (suc k) 0 }
  unfolding exponential_backoff
  backoff_interrupted err e k room f u q c =
      ground (arith, backoff_loop-interrupted err e k k (p.max_retries + 1) 0 none f u q c)
