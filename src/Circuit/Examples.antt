-- ===== src/Circuit/Examples.antt =====
-- Runs of the circuit breaker of libs/platform/circuit_breaker.py: three failures trip it, early
-- calls are rejected, a probe closes it.
use data_pipeline_async.Base.{ℕ, ◌+◌, ◌<◌, ◌≡◌, refl, ◌↔◌, none, some, [], ◌∷◌, arith}
use data_pipeline_async.Circuit.{
  closed, open_state, half_open, CircuitBreaker, new_breaker, gate, raised, settle,
}
use data_pipeline_async.Circuit.Invariant.{
  System, initial, Reach, here, next, admit, finish, trailing, breaker_tracks_failures,
}
use data_pipeline_async.Circuit.Calls.{Attempt}

abbrev attempt : ℕ → Attempt
attempt t = record { start = t; end = t + 1; outcome = raised }

abbrev fresh : CircuitBreaker
fresh = record {
  failure_threshold = 3;
  recovery_timeout = 30;
  state = closed;
  failure_count = 0;
  last_failure_time = none;
}

abbrev tripped : CircuitBreaker
tripped = record fresh { state = open_state; failure_count = 3; last_failure_time = some 21 }

abbrev probing : System
probing = record { breaker = record tripped { state = half_open }; in_flight = 0; log = [] }

-- One call has started and failed.
abbrev one_failure : System
one_failure = record {
  breaker = record fresh { failure_count = 1; last_failure_time = some 7 };
  in_flight = 0;
  log = raised ∷ [];
}

one_failure-Reach : Reach (initial 3 30) one_failure
unfolding new_breaker gate settle
one_failure-Reach =
    next (next here (admit (initial 3 30) 4 refl))
      (finish (record { breaker = fresh; in_flight = 1; log = [] }) raised 7 (omega arith))

breaker_tracks_failures_example :
    (one_failure.breaker.failure_count ≡ trailing one_failure.log)
    × ((one_failure.breaker.state ≡ closed) ↔ (trailing one_failure.log < 3))
breaker_tracks_failures_example = breaker_tracks_failures 3 30 (omega arith) one_failure-Reach
