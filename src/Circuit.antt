-- ===== src/Circuit.antt =====
-- The circuit breaker of libs/platform/circuit_breaker.py. Times are numbers of clock ticks (the
-- source's floats of seconds, at any resolution); `elapsed >= recovery_timeout` is written as a sum,
-- which does not depend on a truncated subtraction. The name and the log lines are left out, and
-- `async with lock` makes each of `gate` and `settle` one atomic step.
pub mod Invariant
pub mod Calls
mod Examples
use data_pipeline_async.Base.{
  ℕ, ◌+◌, ◌≤◌, Bool, true, false, ◌||◌, Option, none, some, leb, if◌then◌else◌,
}

pub data CircuitState : Type 0 where
  closed open_state half_open : CircuitState

pub record CircuitBreaker : Type 0 where
  pub failure_threshold : ℕ
  pub recovery_timeout : ℕ
  pub state : CircuitState
  pub failure_count : ℕ
  pub last_failure_time : Option ℕ

unfoldable pub new_breaker : ℕ → ℕ → CircuitBreaker
new_breaker threshold timeout = record {
  failure_threshold = threshold;
  recovery_timeout = timeout;
  state = closed;
  failure_count = 0;
  last_failure_time = none;
}

-- `self._last_failure_time or 0.0`
abbrev pub last_failure : CircuitBreaker → ℕ
last_failure b = elim b.last_failure_time [ none ↦ 0 | some t ↦ t ]

abbrev pub is_open : CircuitState → Bool
is_open open_state = true
is_open _ = false

abbrev pub is_half_open : CircuitState → Bool
is_half_open half_open = true
is_half_open _ = false

pub maybe_transition_to_half_open : ℕ → CircuitBreaker → CircuitBreaker
maybe_transition_to_half_open now b =
    if is_open b.state
    then (if leb (last_failure b + b.recovery_timeout) now
        then record b { state = half_open }
        else b)
    else b

pub on_success : CircuitBreaker → CircuitBreaker
on_success b = record b { state = closed; failure_count = 0; last_failure_time = none }

pub on_failure : ℕ → CircuitBreaker → CircuitBreaker
on_failure now b =
    let c = record b { failure_count = b.failure_count + 1; last_failure_time = some now } in
    if leb c.failure_threshold c.failure_count || is_half_open c.state
    then record c { state = open_state }
    else c

-- The first locked block of `call`: the new breaker, and whether the call is let through.
pub gate : ℕ → CircuitBreaker → CircuitBreaker × Bool
unfolding maybe_transition_to_half_open
gate now b =
    let c = maybe_transition_to_half_open now b in (c, if is_open c.state then false else true)

-- How the guarded function ends. A cancellation is no `Exception`, so that neither the `except` nor
-- the `else` block runs.
pub data Outcome : Type 0 where
  returned raised cancelled : Outcome

-- The second locked block of `call`.
pub settle : Outcome → ℕ → CircuitBreaker → CircuitBreaker
unfolding on_success on_failure
settle returned now b = on_success b
settle raised now b = on_failure now b
settle cancelled now b = b

pub data CallResult : Type 0 where
  circuit_open_error : CallResult
  passed_on : Outcome → CallResult

-- `call` with no other call between its two blocks: the function starts at `start` and ends at
-- `end` by `outcome`.
pub call : ℕ → ℕ → Outcome → CircuitBreaker → CircuitBreaker × CallResult
unfolding gate settle
call start end outcome b =
    let (c, admitted) = gate start b in
    if admitted then (settle outcome end c, passed_on outcome) else (c, circuit_open_error)
