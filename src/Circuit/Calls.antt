-- ===== src/Circuit/Calls.antt =====
-- What sequences of calls of libs/platform/circuit_breaker.py do in each state.
use data_pipeline_async.Base.{
  ℕ, zero, suc, ◌+◌, ◌≤◌, ◌<◌, ◌≡◌, refl, true, none, some, List, [], ◌∷◌, map, length, All, arith,
}
use mathlib.Core.Path.{subst}
use data_pipeline_async.Circuit.{
  closed, open_state, half_open, CircuitBreaker, last_failure, gate, Outcome, returned, raised,
  cancelled, CallResult, circuit_open_error, passed_on, call,
}
use data_pipeline_async.Circuit.Invariant.{System, Reach, here, next, admit}

-- One call: when it starts, when the function ends, and how.
pub record Attempt : Type 0 where
  pub start : ℕ
  pub end : ℕ
  pub outcome : Outcome

-- Calls one after the other.
unfoldable pub run_calls : List Attempt → CircuitBreaker → CircuitBreaker × List CallResult
run_calls [] b = (b, [])
run_calls (a ∷ rest) b =
    let (c, r) = call a.start a.end a.outcome b in let (d, rs) = run_calls rest c in (d, r ∷ rs)

-- The time before which an open breaker rejects.
abbrev pub reopens_at : CircuitBreaker → ℕ
reopens_at b = last_failure b + b.recovery_timeout

call_early :
    (a : Attempt) (b : CircuitBreaker)
    → b.state ≡ open_state
    → a.start < reopens_at b
    → call a.start a.end a.outcome b ≡ (b, circuit_open_error)
unfolding call
call_early a b o early = ground arith

-- While the circuit is open, every call that starts before the recovery timeout has run out is
-- rejected without the function being called, and the breaker stays as it is.
pub open_circuit_rejects :
    (calls : List Attempt) (b : CircuitBreaker)
    → b.state ≡ open_state
    → All (λ a. a.start < reopens_at b) calls
    → run_calls calls b ≡ (b, map (λ _. circuit_open_error) calls)
unfolding run_calls
open_circuit_rejects [] b o early = refl
open_circuit_rejects (a ∷ rest) b o early =
    rw (call_early a b o early.0, open_circuit_rejects rest b o early.1)

-- The first call after the recovery timeout is let through as a probe: its success closes the
-- circuit and forgets the failures, its failure opens it again from the new failure on, and its
-- cancellation leaves it half open.
pub probe_decides :
    (start end : ℕ) (b : CircuitBreaker)
    → b.state ≡ open_state
    → reopens_at b ≤ start
    → (call start end returned b ≡ (
      record b { state = closed; failure_count = 0; last_failure_time = none },
      passed_on returned,
    ))
      × (call start end raised b ≡ (
        record b { failure_count = b.failure_count + 1; last_failure_time = some end },
        passed_on raised,
      ))
      × (call start end cancelled b ≡ (record b { state = half_open }, passed_on cancelled))
unfolding call
probe_decides start end b o late = (ground arith, ground arith, ground arith)

-- Failing calls of a closed breaker.
abbrev pub IsFailing : List Attempt → Type 0
IsFailing = All (λ a. a.outcome ≡ raised)

abbrev pub last_end : ℕ → List Attempt → ℕ
last_end t [] = t
last_end t (a ∷ rest) = last_end a.end rest

call_failing :
    (a : Attempt) (b : CircuitBreaker)
    → b.state ≡ closed
    → a.outcome ≡ raised
    → b.failure_count + 1 < b.failure_threshold
    → call a.start a.end a.outcome b ≡ (
      record b { failure_count = b.failure_count + 1; last_failure_time = some a.end },
      passed_on raised,
    )
unfolding call
call_failing a b o f few = ground arith

call_tripping :
    (a : Attempt) (b : CircuitBreaker)
    → b.state ≡ closed
    → a.outcome ≡ raised
    → b.failure_count + 1 ≡ b.failure_threshold
    → call a.start a.end a.outcome b ≡ (
      record b {
        state = open_state;
        failure_count = b.failure_count + 1;
        last_failure_time = some a.end;
      },
      passed_on raised,
    )
unfolding call
call_tripping a b o f few = ground arith

run_calls_step :
    (a : Attempt) (rest : List Attempt) (b : CircuitBreaker) {c d : CircuitBreaker} {r : CallResult}
    {rs : List CallResult}
    → call a.start a.end a.outcome b ≡ (c, r)
    → run_calls rest c ≡ (d, rs)
    → run_calls (a ∷ rest) b ≡ (d, r ∷ rs)
unfolding run_calls
run_calls_step a rest b p q = rw (p, q)

-- A closed breaker lets failing calls through until their number, with those counted before, meets
-- the threshold: then it is open from the end of the last of them on.
pub threshold_trips :
    (a : Attempt) (rest : List Attempt) (b : CircuitBreaker)
    → b.state ≡ closed
    → IsFailing (a ∷ rest)
    → b.failure_count + length (a ∷ rest) ≡ b.failure_threshold
    → run_calls (a ∷ rest) b ≡ (
      record b {
        state = open_state;
        failure_count = b.failure_threshold;
        last_failure_time = some (last_end a.end rest);
      },
      map (λ _. passed_on raised) (a ∷ rest),
    )
threshold_trips a [] b c f n =
    run_calls_step a [] b (call_tripping a b c f.0 (omega arith))
      (unfold run_calls in ground (arith, n))
threshold_trips a (a' ∷ rest) b c f n =
    run_calls_step a (a' ∷ rest) b (call_failing a b c f.0 (omega arith)) (
      threshold_trips a' rest
        (record b { failure_count = b.failure_count + 1; last_failure_time = some a.end }) c f.1
        (omega arith))

half_open-gate : (b : CircuitBreaker) → b.state ≡ half_open → gate 0 b ≡ (b, true)
unfolding gate
half_open-gate b h = ground arith

-- Nothing bounds the probes: from a half-open breaker any number of calls are let through, all in
-- flight at once.
pub half_open_admits_all :
    (n : ℕ) (s : System)
    → s.breaker.state ≡ half_open
    → Reach s (record s { in_flight = s.in_flight + n })
half_open_admits_all zero s h = subst (Reach s) (ground arith) here
half_open_admits_all (suc n) s h =
    let t : System = record s { in_flight = s.in_flight + n } in
    let passes = half_open-gate s.breaker h in
    subst (Reach s) (ground (arith, passes))
      (next (half_open_admits_all n s h) (admit t 0 (ground (arith, passes))))
