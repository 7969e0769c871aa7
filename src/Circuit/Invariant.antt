-- ===== src/Circuit/Invariant.antt =====
-- Calls of libs/platform/circuit_breaker.py that overlap: the two locked blocks of `call` as steps
-- of a system that counts the calls in flight and logs how calls ended.
use data_pipeline_async.Base.{
  ℕ, suc, ◌+◌, ◌-◌, ◌<◌, ◌≡◌, ◌↔◌, true, false, none, List, [], ◌∷◌, arith,
}
use data_pipeline_async.Circuit.{
  closed, CircuitBreaker, new_breaker, gate, Outcome, returned, raised, cancelled, settle,
}

pub record System : Type 0 where
  pub breaker : CircuitBreaker
  pub in_flight : ℕ
  pub log : List Outcome

abbrev pub initial : ℕ → ℕ → System
initial threshold timeout = record {
  breaker = new_breaker threshold timeout;
  in_flight = 0;
  log = [];
}

pub data Step : System → System → Type 0 where
  admit :
      (s : System) (now : ℕ)
      → (gate now s.breaker).1 ≡ true
      → Step s (record s { breaker = (gate now s.breaker).0; in_flight = s.in_flight + 1 })
  reject :
      (s : System) (now : ℕ)
      → (gate now s.breaker).1 ≡ false
      → Step s (record s { breaker = (gate now s.breaker).0 })
  finish :
      (s : System) (o : Outcome) (now : ℕ)
      → 0 < s.in_flight
      → Step s (record s {
        breaker = settle o now s.breaker;
        in_flight = s.in_flight - 1;
        log = o ∷ s.log;
      })

pub data Reach (start : System) : System → Type 0 where
  here : Reach start start
  next : {s t : System} → Reach start s → Step s t → Reach start t

-- The failures since the last success, cancelled calls left out.
abbrev pub trailing : List Outcome → ℕ
trailing [] = 0
trailing (returned ∷ log) = 0
trailing (raised ∷ log) = suc (trailing log)
trailing (cancelled ∷ log) = trailing log

pub record Tracks (threshold timeout : ℕ) (s : System) : Type 0 where
  pub same_threshold : s.breaker.failure_threshold ≡ threshold
  pub same_timeout : s.breaker.recovery_timeout ≡ timeout
  pub counted : s.breaker.failure_count ≡ trailing s.log
  pub closed_below : s.breaker.state ≡ closed → trailing s.log < threshold
  pub open_above : (trailing s.log < threshold) → s.breaker.state ≡ closed
  pub stamped : s.breaker.last_failure_time ≡ none → trailing s.log ≡ 0

Step-Tracks :
    {threshold timeout : ℕ} {s t : System}
    → 0 < threshold
    → Step s t
    → Tracks threshold timeout s
    → Tracks threshold timeout t
unfolding gate settle
Step-Tracks pos (admit s now h) tr = ground arith
Step-Tracks pos (reject s now h) tr = ground arith
Step-Tracks pos (finish s returned now h) tr = ground arith
Step-Tracks pos (finish s raised now h) tr = ground arith
Step-Tracks pos (finish s cancelled now h) tr = ground arith

initial-Tracks :
    (threshold timeout : ℕ) → 0 < threshold → Tracks threshold timeout (initial threshold timeout)
unfolding new_breaker
initial-Tracks threshold timeout pos = ground arith

pub Reach-Tracks :
    {threshold timeout : ℕ} {s : System}
    → 0 < threshold
    → Reach (initial threshold timeout) s
    → Tracks threshold timeout s
Reach-Tracks pos here = initial-Tracks _ _ pos
Reach-Tracks pos (next r st) = Step-Tracks pos st (Reach-Tracks pos r)

-- However calls of a new breaker overlap, its counter is the number of failures since the last
-- success, and it is closed exactly while that number is below a positive threshold.
pub breaker_tracks_failures :
    (threshold timeout : ℕ) {s : System}
    → 0 < threshold
    → Reach (initial threshold timeout) s
    → (s.breaker.failure_count ≡ trailing s.log)
      × ((s.breaker.state ≡ closed) ↔ (trailing s.log < threshold))
breaker_tracks_failures threshold timeout pos r =
    let tr = Reach-Tracks pos r in (tr.counted, (tr.closed_below, tr.open_above))
